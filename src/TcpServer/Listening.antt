-- ===== src/TcpServer/Listening.antt =====
-- What `TCPServer::start` and the destructor do to the listening descriptor.
use shovel_server.Base.{
  ◌≡◌, refl, sym, ap, ◌∙◌, ◌≢◌, ◌⊎◌, inl, inr, true, false, none, some, List, [], ◌∷◌, ◌++◌,
  append_assoc, append-nil, arith, ℤ, pos, if◌then◌else◌, All, All-split, is_positive, is_negative,
}
use shovel_server.TcpSocket.{minus_one}
use shovel_server.TcpServer.{
  TcpServer, ListenType, Opening, no_socket, no_reuse, no_bind, no_listen, listens, init, start,
  destroy, ok, wait_finished,
}

-- The descriptor that `socket` gives in one start.
abbrev pub opened_by : Opening → List ℤ
opened_by no_socket = []
opened_by (no_reuse d) = pos d ∷ []
opened_by (no_bind d) = pos d ∷ []
opened_by (no_listen d) = pos d ∷ []
opened_by (listens d) = pos d ∷ []

abbrev pub opened : List (Opening × ListenType) → List ℤ
opened [] = []
opened ((answer, type) ∷ rest) = opened_by answer ++ opened rest

-- Starts, one after another, and the destructor: the descriptors closed.
unfoldable pub closed_by : TcpServer → List (Opening × ListenType) → List ℤ
closed_by s [] = (destroy s).1
closed_by s ((answer, type) ∷ rest) =
    let r = start answer type s in r.closed ++ closed_by r.server rest

abbrev pub ArePositive : List ℤ → Type 0
ArePositive ds = All (λ d. is_positive d ≡ true) ds

-- The descriptor that the server keeps.
abbrev own : TcpServer → List ℤ
own s = if is_positive s.master_socket then s.master_socket ∷ [] else []

abbrev IsKept : TcpServer → Type 0
IsKept s = (is_positive s.master_socket ≡ true) ⊎ (s.master_socket ≡ minus_one)

start-closes :
    (s : TcpServer) (answer : Opening) (type : ListenType)
    → IsKept s
    → ArePositive (opened_by answer)
    → IsKept (start answer type s).server
      × ((start answer type s).closed ++ own (start answer type s).server
          ≡ own s ++ opened_by answer)
unfolding start
start-closes s no_socket type k p = (inr refl, refl)
start-closes s (no_reuse d) type k p = (inl p.0, rw (p.0) refl)
start-closes s (no_bind d) type k p = (inr refl, append-nil (own s ++ pos d ∷ []))
start-closes s (no_listen d) type k p = (inr refl, append-nil (own s ++ pos d ∷ []))
start-closes s (listens d) type k p = (inl p.0, rw (p.0) refl)

destroy-own : (s : TcpServer) → IsKept s → (destroy s).1 ≡ own s
unfolding destroy
destroy-own s k = ground arith

closed-opened :
    (ops : List (Opening × ListenType)) (s : TcpServer)
    → IsKept s
    → ArePositive (opened ops)
    → closed_by s ops ≡ own s ++ opened ops
unfolding closed_by
closed-opened [] s k p = destroy-own s k ∙ sym (append-nil (own s))
closed-opened ((answer, type) ∷ rest) s k p =
    let (p₁, p₂) = All-split (λ d. is_positive d ≡ true) (opened_by answer) (opened rest) p in
    let (k', e) = start-closes s answer type k p₁ in
    let r = start answer type s in
    ap (λ t. r.closed ++ t) (closed-opened rest r.server k' p₂)
    ∙ (sym (append_assoc r.closed (own r.server) (opened rest))
        ∙ (ap (λ t. t ++ opened rest) e ∙ append_assoc (own s) (opened_by answer) (opened rest)))

-- A server that is constructed, started any number of times, whatever each start comes to, and
-- destroyed, closes each descriptor that `socket` has given, once and in this order, if none of them
-- is 0.
pub server_closes :
    (ops : List (Opening × ListenType)) → ArePositive (opened ops) → closed_by init ops ≡ opened ops
unfolding init
server_closes ops p = closed-opened ops init (inr refl) p

-- What the flags, the status and the accept thread tell of a start agrees: either it returns 0 with a
-- descriptor, the status in order, the thread of the kind that was asked for, and the server enabled;
-- or it returns less than 0 with no thread, a status that is not in order, and the server disabled and
-- finished, so that the destructor does not wait.
pub start_lem :
    (answer : Opening) (type : ListenType) (s : TcpServer)
    → let r = start answer type s in
      ((r.result ≡ pos 0)
        × (r.accept_thread ≡ some type)
        × (r.server.status ≡ ok)
        × (r.server.server_enable ≡ true)
        × (r.server.server_finished ≡ false)
        × (is_negative r.server.master_socket ≡ false))
      ⊎ ((is_negative r.result ≡ true)
          × (r.accept_thread ≡ none)
          × (r.server.status ≢ ok)
          × (r.server.server_enable ≡ false)
          × (wait_finished (r.server.server_finished ∷ []) ≡ true))
unfolding start wait_finished
start_lem no_socket type s = inr (refl, refl, (λ e. cc), refl, refl)
start_lem (no_reuse d) type s = inr (refl, refl, (λ e. cc), refl, refl)
start_lem (no_bind d) type s = inr (refl, refl, (λ e. cc), refl, refl)
start_lem (no_listen d) type s = inr (refl, refl, (λ e. cc), refl, refl)
start_lem (listens d) type s = inl (refl, refl, refl, refl, refl, refl)
