-- ===== src/TcpServer/Accepting.antt =====
-- `TCPServer::_thread_unblocked_accept`, with the `errno` of its thread.
use shovel_server.Base.{
  ◌≡◌, refl, sym, ap, ◌∙◌, subst, inl, inr, Bool, true, false, not, Option, none, some, List, [],
  ◌∷◌, ◌++◌, map, map-append, append_assoc, append-nil, arith, ℤ, if◌then◌else◌, Bool-cases,
  is_positive,
}
use shovel_server.TcpSocket.{TcpSocket}
use shovel_server.TcpServer.{Accepted, Serving, hand_over, finish, call_accepted_callback_function}
use shovel_server.TcpServer.Polling.{socket_above_zero, sockets_above_zero, hand_over-socket}

-- The values of `errno` that the source tests.
pub data Errno : Type 0 where
  eagain ewouldblock other : Errno

-- What `accept` answers: a connection, which leaves `errno` as it is, or -1 and `errno`.
pub data Accepts : Type 0 where
  accepted : Accepted → Accepts
  accept_fails : Errno → Accepts

-- One round: the flag and `m_master_socket` at its head, the answer of `accept`, and what the calls
-- behind it (the wait, or the options and the callback) leave in `errno` (none: what was there).
pub record Round : Type 0 where
  pub enabled : Bool
  pub master_socket : ℤ
  pub answer : Accepts
  pub errno_after : Option Errno

-- The thread: what it has handed over, its `errno`, and the descriptors that `accept` has given and
-- that it has dropped, neither handing them over nor closing them.
pub record Thread : Type 0 where
  pub serving : Serving
  pub errno : Errno
  pub dropped : List ℤ

pub data LoopState : Type 0 where
  loops ended : Thread → LoopState

-- errno == EAGAIN or errno == EWOULDBLOCK
abbrev pub is_transient : Errno → Bool
is_transient other = false
is_transient _ = true

abbrev pub left : Option Errno → Errno → Errno
left none e = e
left (some e) _ = e

-- What `call_accepted_callback_function` drops: it returns at once for a descriptor that is not above 0.
abbrev pub passed_over : Accepted → List ℤ
passed_over a = if is_positive a.slave_socket then [] else a.slave_socket ∷ []

-- `errno` is tested first, whatever `accept` has answered.
unfoldable pub after_accept : Accepts → Option Errno → Thread → LoopState
unfolding call_accepted_callback_function
after_accept (accepted a) later t =
    if is_transient t.errno
    then loops (record t { errno = left later t.errno; dropped = t.dropped ++ a.slave_socket ∷ [] })
    else loops (record t {
      errno = left later t.errno;
      serving = hand_over a t.serving;
      dropped = t.dropped ++ passed_over a;
    })
after_accept (accept_fails e) later t =
    if is_transient e
    then loops (record t { errno = left later e })
    else ended (record t { errno = e; serving = finish t.serving })

unfoldable pub accept_round : Thread → Round → LoopState
unfolding after_accept
accept_round t x =
    if not x.enabled
    then ended (record t { serving = finish t.serving })
    else if is_positive x.master_socket
    then after_accept x.answer x.errno_after t
    else loops t

unfoldable pub thread_unblocked_accept : Thread → List Round → LoopState
unfolding accept_round
thread_unblocked_accept t [] = loops t
thread_unblocked_accept t (x ∷ rest) = elim (accept_round t x) [
  | loops t' ↦ thread_unblocked_accept t' rest
  | ended t' ↦ ended t'
]

-- Rounds in which the server is enabled and listens, `accept` gives a connection, and nothing behind
-- it touches `errno`.
abbrev pub BringsOne : Accepted → Round → Type 0
BringsOne a x =
    (x.enabled ≡ true)
    × (is_positive x.master_socket ≡ true)
    × (x.answer ≡ accepted a)
    × (x.errno_after ≡ none)

abbrev pub Brings : List Accepted → List Round → Type 0
Brings [] [] = Unit
Brings (a ∷ more) (x ∷ rounds) = BringsOne a x × Brings more rounds
Brings _ _ = ⊥

-- The descriptors of connections, and of those alone that are not above 0.
abbrev pub descriptors : List Accepted → List ℤ
descriptors = map (λ a. a.slave_socket)

abbrev pub not_above_zero : List Accepted → List ℤ
not_above_zero [] = []
not_above_zero (a ∷ more) = passed_over a ++ not_above_zero more

-- What becomes of connections by an `errno` that stays as it is.
abbrev pub kept_by : Errno → List Accepted → List TcpSocket
kept_by e arrivals = if is_transient e then [] else sockets_above_zero arrivals

abbrev pub dropped_by : Errno → List Accepted → List ℤ
dropped_by e arrivals = if is_transient e then descriptors arrivals else not_above_zero arrivals

-- The thread goes on with them handed over or dropped.
abbrev pub Goes : Thread → List Accepted → LoopState → Type 0
Goes t arrivals (ended t') = ⊥
Goes t arrivals (loops t') =
    (t'.errno ≡ t.errno)
    × (t'.serving.handed_over ≡ t.serving.handed_over ++ kept_by t.errno arrivals)
    × (t'.dropped ≡ t.dropped ++ dropped_by t.errno arrivals)

round_goes :
    (t : Thread) (a : Accepted) (x : Round)
    → BringsOne a x
    → accept_round t x ≡ after_accept (accepted a) none t
unfolding accept_round
round_goes t a x (n, p, q, r) = rw (n, p, q, r) refl

kept_by-append : (e : Errno) (a b : List Accepted) → kept_by e (a ++ b) ≡ kept_by e a ++ kept_by e b
kept_by-append eagain a b = refl
kept_by-append ewouldblock a b = refl
kept_by-append other [] b = refl
kept_by-append other (x ∷ a) b =
    ap (λ l. socket_above_zero x ++ l) (kept_by-append other a b)
    ∙ sym (append_assoc (socket_above_zero x) (sockets_above_zero a) (sockets_above_zero b))

dropped_by-append :
    (e : Errno) (a b : List Accepted) → dropped_by e (a ++ b) ≡ dropped_by e a ++ dropped_by e b
dropped_by-append eagain a b = map-append (λ a. a.slave_socket) a b
dropped_by-append ewouldblock a b = map-append (λ a. a.slave_socket) a b
dropped_by-append other [] b = refl
dropped_by-append other (x ∷ a) b =
    ap (λ l. passed_over x ++ l) (dropped_by-append other a b)
    ∙ sym (append_assoc (passed_over x) (not_above_zero a) (not_above_zero b))

Goes-extend :
    (t t' : Thread) (a : Accepted) (more : List Accepted) (st : LoopState)
    → Goes t (a ∷ []) (loops t')
    → Goes t' more st
    → Goes t (a ∷ more) st
Goes-extend t t' a more (ended w) g g' = g'
Goes-extend t t' a more (loops w) (e, h, d) (e', h', d') = (
  e' ∙ e,
  rw (kept_by-append t.errno (a ∷ []) more) (
      h'
      ∙ (ap (λ l. l ++ kept_by t'.errno more) h
          ∙ (append_assoc t.serving.handed_over (kept_by t.errno (a ∷ [])) (kept_by t'.errno more)
              ∙ ap (λ x. t.serving.handed_over ++ (kept_by t.errno (a ∷ []) ++ kept_by x more))
                  e))),
  rw (dropped_by-append t.errno (a ∷ []) more) (
      d'
      ∙ (ap (λ l. l ++ dropped_by t'.errno more) d
          ∙ (append_assoc t.dropped (dropped_by t.errno (a ∷ [])) (dropped_by t'.errno more)
              ∙ ap (λ x. t.dropped ++ (dropped_by t.errno (a ∷ []) ++ dropped_by x more)) e))),
)

accept-Goes : (t : Thread) (a : Accepted) → Goes t (a ∷ []) (after_accept (accepted a) none t)
unfolding after_accept
accept-Goes t a = elim (Bool-cases (is_transient t.errno)) [
  | inl e ↦
      let t' : Thread = record t { dropped = t.dropped ++ a.slave_socket ∷ [] } in
      let next : after_accept (accepted a) none t ≡ loops t' = rw (after_accept, e) refl in
      subst (Goes t (a ∷ [])) (sym next)
        (refl, rw e (sym (append-nil t.serving.handed_over)), rw e refl)
  | inr e ↦
      let t' : Thread = record t {
        serving = hand_over a t.serving;
        dropped = t.dropped ++ passed_over a;
      } in
      let next : after_accept (accepted a) none t ≡ loops t' = rw (after_accept, e) refl in
      subst (Goes t (a ∷ [])) (sym next) (
        refl,
        rw (e, append-nil (socket_above_zero a)) (hand_over-socket a t.serving),
        rw (e, append-nil (passed_over a)) refl,
      )
]

run_on-Goes :
    (t : Thread) (a : Accepted) (more : List Accepted) (x : Round) (rest : List Round)
    (st : LoopState)
    → accept_round t x ≡ st
    → Goes t (a ∷ []) st
    → ((t' : Thread) → Goes t' more (thread_unblocked_accept t' rest))
    → Goes t (a ∷ more) (thread_unblocked_accept t (x ∷ rest))
unfolding thread_unblocked_accept
run_on-Goes t a more x rest (ended t') e g f = absurd g
run_on-Goes t a more x rest (loops t') e g f =
    let next : thread_unblocked_accept t (x ∷ rest) ≡ thread_unblocked_accept t' rest =
      rw (thread_unblocked_accept, e) refl in
    subst (Goes t (a ∷ more)) (sym next)
      (Goes-extend t t' a more (thread_unblocked_accept t' rest) g (f t'))

-- In rounds that each bring a connection, and leave `errno` alone, the thread of an unblocked server
-- goes on, and what `errno` was before decides with the descriptors alone: if it was EAGAIN or
-- EWOULDBLOCK, every connection is dropped and none handed over; if not, every one whose descriptor is
-- above 0 is handed over, in order and once, and those alone are dropped whose descriptor is not.
pub unblocked_accept-Goes :
    (arrivals : List Accepted) (rounds : List Round) (t : Thread)
    → Brings arrivals rounds
    → Goes t arrivals (thread_unblocked_accept t rounds)
unfolding thread_unblocked_accept
unblocked_accept-Goes [] [] t b =
    ground (arith, append-nil t.dropped, append-nil t.serving.handed_over)
unblocked_accept-Goes (a ∷ more) (x ∷ rest) t (b, bs) =
    run_on-Goes t a more x rest (accept_round t x) refl
      (subst (Goes t (a ∷ [])) (sym (round_goes t a x b)) (accept-Goes t a))
      (λ t'. unblocked_accept-Goes more rest t' bs)
unblocked_accept-Goes [] (x ∷ rest) t b = absurd b
unblocked_accept-Goes (a ∷ more) [] t b = absurd b
