-- ===== src/TcpSocket/Lifetime.antt =====
-- The descriptor of a `TCPSocket` from its constructor to its destructor.
use shovel_server.Base.{
  ℕ, ◌≡◌, refl, ap, ◌∙◌, ◌⊎◌, inl, inr, true, List, [], ◌∷◌, ◌++◌, arith, ℤ, is_positive,
}
use shovel_server.SizedArray.{SizedArray, contents}
use shovel_server.TcpSocket.{
  TcpSocket, ok, Recv, Send, peer, no_peer, Release, shuts, closes, init, read, write,
  after_sending, send_loop, Sending, all_sent, try_later, broken, blocked, minus_one, destroy,
}

-- A call of a client, with what the system answers.
pub data SocketOp : Type 0 where
  read_op : Recv → SizedArray → SocketOp
  write_op : List Send → SizedArray → SocketOp

pub step : TcpSocket → SocketOp → TcpSocket × List Release
step s (read_op answer buf) = let r = read answer s buf in (r.socket, r.released)
step s (write_op answers buf) = let r = write answers s buf in (r.socket, r.released)

-- All calls in order, and the destructor: what they release.
pub run : TcpSocket → List SocketOp → List Release
run s [] = destroy s
run s (op ∷ ops) = let (s', released) = step s op in released ++ run s' ops

-- The descriptors that are closed, in order.
abbrev pub closed_descriptors : List Release → List ℤ
closed_descriptors [] = []
closed_descriptors (shuts d ∷ rs) = closed_descriptors rs
closed_descriptors (closes d ∷ rs) = d ∷ closed_descriptors rs

-- A call leaves the descriptor, or closes it.
abbrev StepSpec : TcpSocket → TcpSocket × List Release → Type 0
StepSpec s (s', released) =
    ((s'.descr ≡ s.descr) × (released ≡ []))
    ⊎ ((is_positive s.descr ≡ true) × (s'.descr ≡ minus_one) × (released ≡ closes s.descr ∷ []))

sending_spec :
    (s : TcpSocket) (buf : SizedArray) (o : Sending)
    → let r = after_sending o s buf in StepSpec s (r.socket, r.released)
unfolding after_sending
sending_spec s buf (all_sent n wire) = inl (refl, refl)
sending_spec s buf (try_later wire) = inl (refl, refl)
sending_spec s buf (broken wire) = ground arith
sending_spec s buf (blocked wire) = inl (refl, refl)

write_spec :
    (answers : List Send) (s : TcpSocket) (buf : SizedArray)
    → let r = write answers s buf in StepSpec s (r.socket, r.released)
unfolding write
write_spec answers s buf =
    let o = sending_spec (record s { status = ok }) buf (send_loop answers (contents buf) 0 []) in
    ground arith

step_spec : (s : TcpSocket) (op : SocketOp) → StepSpec s (step s op)
unfolding step read
step_spec s (read_op answer buf) = ground arith
step_spec s (write_op answers buf) = write_spec answers s buf

run_closed :
    (s : TcpSocket) (ops : List SocketOp)
    → s.descr ≡ minus_one
    → closed_descriptors (run s ops) ≡ []
unfolding run destroy
run_closed s [] h = rw h
run_closed s (op ∷ ops) h = elim (step_spec s op) [
  | inl (same, released) ↦ rw released (run_closed (step s op).0 ops (same ∙ h))
  | inr (positive, _, _) ↦ absurd (ground arith)
]

run_open :
    (s : TcpSocket) (ops : List SocketOp)
    → is_positive s.descr ≡ true
    → closed_descriptors (run s ops) ≡ s.descr ∷ []
unfolding run destroy
run_open s [] h = ground arith
run_open s (op ∷ ops) h = elim (step_spec s op) [
  | inl (same, released) ↦
      rw released (run_open (step s op).0 ops (ap is_positive same ∙ h) ∙ ap (λ d. d ∷ []) same)
  | inr (_, gone, released) ↦ rw released (ap (◌∷◌ s.descr) (run_closed (step s op).0 ops gone))
]

init_peer :
    (d : ℤ) (port addr : ℕ)
    → is_positive d ≡ true
    → (is_positive (init (peer port addr) d).descr ≡ true) × ((init (peer port addr) d).descr ≡ d)
unfolding init
init_peer d port addr h = (rw h h, rw h)

init_no_peer : (d : ℤ) → is_positive d ≡ true → (init no_peer d).descr ≡ minus_one
unfolding init
init_no_peer d h = rw h

-- Whatever calls are made, and whatever the system answers, a socket over a descriptor whose peer is
-- known closes this descriptor once by the end of its destructor, and no other.
pub closes_once :
    (d : ℤ) (port addr : ℕ) (ops : List SocketOp)
    → is_positive d ≡ true
    → closed_descriptors (run (init (peer port addr) d) ops) ≡ d ∷ []
closes_once d port addr ops h =
    let (positive, same) = init_peer d port addr h in
    run_open _ ops positive ∙ ap (λ d. d ∷ []) same

-- A socket over a descriptor whose peer is not known never closes it.
unknown_peer_leaks :
    (d : ℤ) (ops : List SocketOp)
    → is_positive d ≡ true
    → closed_descriptors (run (init no_peer d) ops) ≡ []
unknown_peer_leaks d ops h = run_closed (init no_peer d) ops (init_no_peer d h)
