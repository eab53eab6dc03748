-- ===== src/LocalSocket/Descriptor.antt =====
-- The life of the descriptor of a LocalSocket.
use shovel_server.Base.{
  ℕ, ◌≡◌, refl, sym, ◌∙◌, subst, ◌≢◌, ◌⊎◌, inl, inr, List, [], ◌∷◌, ◌++◌, arith,
}
use shovel_server.SizedArray.{SizedArray, clear}
use shovel_server.LocalSocket.{LocalSocket, Recv, read, destroy, minus_one}

-- The sockets after reads, one after another, and the descriptors closed on the way.
unfoldable pub reads : List Recv → LocalSocket → SizedArray → LocalSocket × List ℕ
reads [] s buf = (s, [])
reads (answer ∷ answers) s buf =
    let r = read answer s buf in
    let (s', closed) = reads answers r.socket r.buf in (s', r.closed ++ closed)

reads_closed :
    (answers : List Recv) (s : LocalSocket) (buf : SizedArray)
    → s.fd ≡ 0
    → ((reads answers s buf).0.fd ≡ 0) × ((reads answers s buf).1 ≡ [])
unfolding reads read
reads_closed [] s buf e = (e, refl)
reads_closed (a ∷ answers) s buf e =
    let o : read a s buf ≡ record { result = minus_one; buf = clear buf; socket = s; closed = [] } =
      rw (read, e) refl in
    subst
      (λ r.
        ((reads answers r.socket r.buf).0.fd ≡ 0)
        × (r.closed ++ (reads answers r.socket r.buf).1 ≡ []))
      (sym o) (reads_closed answers s (clear buf) e)

-- One read keeps the descriptor, or closes it and forgets it.
read_descriptor :
    (answer : Recv) (s : LocalSocket) (buf : SizedArray)
    → (((read answer s buf).socket.fd ≡ s.fd) × ((read answer s buf).closed ≡ []))
      ⊎ (((read answer s buf).socket.fd ≡ 0) × ((read answer s buf).closed ≡ s.fd ∷ []))
unfolding read
read_descriptor answer s buf = ground arith

-- Over any reads of a socket that has a descriptor other than 0, and the destructor behind them, this
-- descriptor is closed once. If the socket still has it when the destructor runs, no other is closed;
-- otherwise the destructor closes the descriptor 0, which is none of the socket's.
local_closes :
    (answers : List Recv) (s : LocalSocket) (buf : SizedArray)
    → s.fd ≢ 0
    → let (s', closed) = reads answers s buf in
      ((s'.fd ≡ s.fd) × (closed ++ destroy s' ≡ s.fd ∷ []))
      ⊎ ((s'.fd ≡ 0) × (closed ++ destroy s' ≡ s.fd ∷ 0 ∷ []))
unfolding reads destroy
local_closes [] s buf d = inl (refl, refl)
local_closes (a ∷ answers) s buf d = elim (read_descriptor a s buf) [
  | inl (k, c) ↦
      let r = read a s buf in
      let later = reads answers r.socket r.buf in
      rw c (
        subst
          (λ n.
            ((later.0.fd ≡ n) × (later.1 ++ destroy later.0 ≡ n ∷ []))
            ⊎ ((later.0.fd ≡ 0) × (later.1 ++ destroy later.0 ≡ n ∷ 0 ∷ [])))
          k (local_closes answers r.socket r.buf (λ z. d (sym k ∙ z))))
  | inr (z, c) ↦
      let (e, n) = reads_closed answers (read a s buf).socket (read a s buf).buf z in
      inr (e, rw (c, n, e) refl)
]
