-- ===== src/TcpServer/Polling.antt =====
-- `TCPServer::epoll_loop`, which the blocked and the timed accept thread run.
use shovel_server.Base.{
  ◌≡◌, refl, sym, ap, ◌∙◌, subst, ◌≢◌, ◌⊎◌, inl, inr, Bool, true, false, ◌&&◌, List, [], ◌∷◌, ◌++◌,
  append_assoc, append-nil, if◌then◌else◌, Bool-cases, All, is_positive,
}
use shovel_server.TcpSocket
use shovel_server.TcpSocket.{TcpSocket}
use shovel_server.TcpServer.{Accepted, Serving, hand_over, finish, call_accepted_callback_function}

-- What an event of `epoll_wait` tells: the listening descriptor is ready, and what `accept` gives
-- then; or another one is.
pub data Event : Type 0 where
  on_master : Accepted → Event
  on_other : Event

-- What `epoll_wait` answers: -1, or its events (none at a timeout).
pub data Waited : Type 0 where
  wait_fails : Waited
  ready : List Event → Waited

-- One round: m_atomic_server_enable at the head of the loop, the wait, and the flag behind it.
pub record Round : Type 0 where
  pub enabled : Bool
  pub waited : Waited
  pub enabled_after : Bool

-- The thread goes on, or has ended; or it has met undefined behaviour.
pub data LoopState : Type 0 where
  loops ended undefined : Serving → LoopState

unfoldable pub accept_events : List Event → Serving → Serving
unfolding call_accepted_callback_function
accept_events [] v = v
accept_events (on_master a ∷ events) v = accept_events events (hand_over a v)
accept_events (on_other ∷ events) v = accept_events events v

-- `i < N` compares without sign: at -1 the loop reads events that were never written.
unfoldable pub handle : Waited → Serving → LoopState
unfolding accept_events
handle wait_fails v = undefined v
handle (ready events) v = loops (accept_events events v)

unfoldable pub epoll_round : Serving → Round → LoopState
unfolding handle
epoll_round v x = if x.enabled && x.enabled_after then handle x.waited v else ended (finish v)

unfoldable pub epoll_loop : Serving → List Round → LoopState
unfolding epoll_round
epoll_loop v [] = loops v
epoll_loop v (x ∷ rest) = elim (epoll_round v x) [
  | loops v' ↦ epoll_loop v' rest
  | ended v' ↦ ended v'
  | undefined v' ↦ undefined v'
]

-- A connection as a new socket, whatever its options come to; it is none for a descriptor that is not
-- above 0.
abbrev pub socket_above_zero : Accepted → List TcpSocket
socket_above_zero a =
    if is_positive a.slave_socket then TcpSocket.init a.peer a.slave_socket ∷ [] else []

abbrev pub sockets_above_zero : List Accepted → List TcpSocket
sockets_above_zero [] = []
sockets_above_zero (a ∷ more) = socket_above_zero a ++ sockets_above_zero more

-- The connections that `accept` gives in the rounds, as sockets where their descriptors are above 0.
abbrev pub accepted_in : List Event → List Accepted
accepted_in [] = []
accepted_in (on_master a ∷ events) = a ∷ accepted_in events
accepted_in (on_other ∷ events) = accepted_in events

abbrev pub connections_in : Waited → List TcpSocket
connections_in wait_fails = []
connections_in (ready events) = sockets_above_zero (accepted_in events)

abbrev pub connections : List Round → List TcpSocket
connections [] = []
connections (x ∷ rest) = connections_in x.waited ++ connections rest

pub hand_over-socket :
    (a : Accepted) (v : Serving)
    → (hand_over a v).handed_over ≡ v.handed_over ++ socket_above_zero a
unfolding call_accepted_callback_function
hand_over-socket a v = elim (Bool-cases (is_positive a.slave_socket)) [
  | inl p ↦ rw p refl
  | inr n ↦ rw n refl
]

accept_events-connections :
    (events : List Event) (v : Serving)
    → (accept_events events v).handed_over
      ≡ v.handed_over ++ sockets_above_zero (accepted_in events)
unfolding accept_events
accept_events-connections [] v = sym (append-nil v.handed_over)
accept_events-connections (on_other ∷ events) v = accept_events-connections events v
accept_events-connections (on_master a ∷ events) v =
    accept_events-connections events (hand_over a v)
    ∙ (ap (λ t. t ++ sockets_above_zero (accepted_in events)) (hand_over-socket a v)
        ∙ append_assoc v.handed_over (socket_above_zero a)
            (sockets_above_zero (accepted_in events)))

-- What a run over the rounds has handed over, and why it has ended.
abbrev pub Outcome : Serving → List Round → LoopState → Type 0
Outcome v rounds (loops v') =
    (v'.handed_over ≡ v.handed_over ++ connections rounds)
    × All (λ x. (x.enabled && x.enabled_after ≡ true) × (x.waited ≢ wait_fails)) rounds
Outcome v rounds (ended v') =
    (seen : List Round) × (x : Round) × (unseen : List Round) × (rounds ≡ seen ++ x ∷ unseen)
    × (x.enabled && x.enabled_after ≡ false)
    × (v'.handed_over ≡ v.handed_over ++ connections seen)
    × (v'.server.server_finished ≡ true)
Outcome v rounds (undefined v') =
    (seen : List Round) × (x : Round) × (unseen : List Round) × (rounds ≡ seen ++ x ∷ unseen)
    × (x.enabled && x.enabled_after ≡ true)
    × (x.waited ≡ wait_fails)
    × (v'.handed_over ≡ v.handed_over ++ connections seen)

after_round :
    (v v' : Serving) (a b : List TcpSocket) (w : Serving)
    → v'.handed_over ≡ v.handed_over ++ a
    → w.handed_over ≡ v'.handed_over ++ b
    → w.handed_over ≡ v.handed_over ++ (a ++ b)
after_round v v' a b w e f = f ∙ (ap (λ t. t ++ b) e ∙ append_assoc v.handed_over a b)

-- A round that is served, and those behind it.
Outcome-extend :
    (v v' : Serving) (x : Round) (rest : List Round) (st : LoopState)
    → (x.enabled && x.enabled_after ≡ true) × (x.waited ≢ wait_fails)
    → v'.handed_over ≡ v.handed_over ++ connections_in x.waited
    → Outcome v' rest st
    → Outcome v (x ∷ rest) st
Outcome-extend v v' x rest (loops w) p e (f, all) =
    (after_round v v' (connections_in x.waited) (connections rest) w e f, (p, all))
Outcome-extend v v' x rest (ended w) p e (seen, y, unseen, r, n, f, d) = (
  x ∷ seen,
  y,
  unseen,
  ap (λ t. x ∷ t) r,
  n,
  after_round v v' (connections_in x.waited) (connections seen) w e f,
  d,
)
Outcome-extend v v' x rest (undefined w) p e (seen, y, unseen, r, n, h, f) = (
  x ∷ seen,
  y,
  unseen,
  ap (λ t. x ∷ t) r,
  n,
  h,
  after_round v v' (connections_in x.waited) (connections seen) w e f,
)

Waited-cases : (w : Waited) → (w ≡ wait_fails) ⊎ ((events : List Event) × (w ≡ ready events))
Waited-cases wait_fails = inl refl
Waited-cases (ready events) = inr (events, refl)

epoll_round_cases :
    (v : Serving) (x : Round)
    → ((x.enabled && x.enabled_after ≡ false) × (epoll_round v x ≡ ended (finish v)))
      ⊎ ((x.enabled && x.enabled_after ≡ true)
          × (x.waited ≡ wait_fails)
          × (epoll_round v x ≡ undefined v))
      ⊎ ((events : List Event) × (x.enabled && x.enabled_after ≡ true)
          × (x.waited ≡ ready events)
          × (epoll_round v x ≡ loops (accept_events events v)))
unfolding epoll_round
epoll_round_cases v x = elim (Bool-cases (x.enabled && x.enabled_after)) [
  | inr n ↦ inl (n, rw n refl)
  | inl y ↦ elim (Waited-cases x.waited) [
    | inl f ↦ inr (inl (y, f, rw (y, f) refl))
    | inr (events, e) ↦ inr (inr (events, y, e, rw (y, e) refl))
  ]
]

-- The thread of a blocked or timed server, over any rounds. While it goes on, it has handed over a
-- socket for each connection that `accept` has given with a descriptor above 0, in order and each once,
-- also where an option could not be set, and nothing for one whose descriptor is not above 0; and
-- `epoll_wait` has never failed. It ends only at a round in which the server is no longer enabled,
-- having handed over those connections of the rounds before, and tells that it has finished. Its
-- behaviour is undefined only where `epoll_wait` fails while the server is enabled.
pub epoll_hands_over : (rounds : List Round) (v : Serving) → Outcome v rounds (epoll_loop v rounds)
unfolding epoll_loop
epoll_hands_over [] v = (sym (append-nil v.handed_over), tt)
epoll_hands_over (x ∷ rest) v = elim (epoll_round_cases v x) [
  | inl (n, e) ↦ rw (epoll_loop, e) ([], x, rest, refl, n, sym (append-nil v.handed_over), refl)
  | inr (inl (y, f, e)) ↦
      rw (epoll_loop, e) ([], x, rest, refl, y, f, sym (append-nil v.handed_over))
  | inr (inr (events, y, f, e)) ↦
      let v' = accept_events events v in
      let served : v'.handed_over ≡ v.handed_over ++ connections_in x.waited =
        rw f (accept_events-connections events v) in
      let next : epoll_loop v (x ∷ rest) ≡ epoll_loop v' rest = rw (epoll_loop, e) refl in
      subst (Outcome v (x ∷ rest)) (sym next) (
        Outcome-extend v v' x rest (epoll_loop v' rest) (y, (λ w. cc)) served
          (epoll_hands_over rest v'))
]
