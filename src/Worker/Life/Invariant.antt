-- ===== src/Worker/Life/Invariant.antt =====
-- What holds in every state of a worker's life.
use shovel_server.Base.{ℕ, ◌≤◌, ◌<◌, ◌≡◌, ◌⊎◌, Bool, true, false, not, some, arith, leb}
use shovel_server.Worker.Life.{
  ThreadPc, absent, looks, works, leaves, gone, GuardPc, no_guard, creates_reader, creates_writer,
  joins_reader, joins_writer, tells_stopped, calls_back, ended, OwnerPc, alive, source_gone,
  stop_called, destroyed, Life, init, start, stop, look, Internal, Client, Step, internal, client,
  Reach, here, later,
}
use shovel_server.Worker.Life

abbrev pub phase : GuardPc → ℕ
phase no_guard = 0
phase creates_reader = 1
phase creates_writer = 2
phase joins_reader = 3
phase joins_writer = 4
phase tells_stopped = 5
phase calls_back = 6
phase ended = 7

abbrev pub is_gone : ThreadPc → Bool
is_gone gone = true
is_gone _ = false

abbrev pub is_absent : ThreadPc → Bool
is_absent absent = true
is_absent _ = false

-- Whether the guard has created a thread, and has called back.
abbrev pub called : GuardPc → ℕ
called ended = 1
called _ = 0

pub record Inv (s : Life) : Type 0 where
  pub reader_created : is_absent s.reader ≡ leb (phase s.guard) 1
  pub writer_created : is_absent s.writer ≡ leb (phase s.guard) 2
  pub reader_joined : 4 ≤ phase s.guard → s.reader ≡ gone
  pub writer_joined : 5 ≤ phase s.guard → s.writer ≡ gone
  pub read_flag : 1 ≤ phase s.guard → s.read_thread_alive ≡ not (is_gone s.reader)
  pub write_flag : 1 ≤ phase s.guard → s.write_thread_alive ≡ not (is_gone s.writer)
  pub told : s.stopped ≡ leb 6 (phase s.guard)
  pub called_once : s.callbacks ≡ called s.guard
  pub destroyed_last : s.owner ≡ destroyed → (s.guard ≡ no_guard) ⊎ (s.guard ≡ ended)

Inv-init : (reading writing : Bool) → Inv (init reading writing)
unfolding init
Inv-init reading writing = ground arith

pub Internal-Inv : {s t : Life} → Internal s t → Inv s → Inv t
unfolding look
Internal-Inv (Life.reader_looks e) inv = ground arith
Internal-Inv (Life.reader_returns e) inv = ground arith
Internal-Inv (Life.reader_breaks e) inv = ground arith
Internal-Inv (Life.reader_ends e) inv = ground arith
Internal-Inv (Life.writer_looks e) inv = ground arith
Internal-Inv (Life.writer_returns e) inv = ground arith
Internal-Inv (Life.writer_breaks e) inv = ground arith
Internal-Inv (Life.writer_ends e) inv = ground arith
Internal-Inv (Life.guard_creates_reader e) inv = ground arith
Internal-Inv (Life.guard_creates_writer e) inv = ground arith
Internal-Inv (Life.guard_joins_reader e f) inv = ground arith
Internal-Inv (Life.guard_joins_writer e f) inv = ground arith
Internal-Inv (Life.guard_tells e) inv = ground arith
Internal-Inv (Life.guard_calls e) inv = ground arith
Internal-Inv (Life.guard_destroys e f) inv = ground arith

start-Inv : (s t : Life) → s.owner ≡ alive → start s ≡ some t → Inv s → Inv t
unfolding start
start-Inv s t a e inv = ground arith

Client-Inv : {s t : Life} → Client s t → Inv s → Inv t
unfolding stop
Client-Inv {s} {t} (Life.starts a e) inv = start-Inv s t a e inv
Client-Inv (Life.stops a) inv = ground arith
Client-Inv (Life.destroys_members a) inv = ground arith
Client-Inv (Life.destroys_base a) inv = ground arith
Client-Inv (Life.never_started a e) inv = ground arith
Client-Inv (Life.joins_guard a e) inv = ground arith

pub Reach-Inv : {reading writing : Bool} {s : Life} → Reach reading writing s → Inv s
Reach-Inv {reading} {writing} here = Inv-init reading writing
Reach-Inv (later r (internal i)) = Internal-Inv i (Reach-Inv r)
Reach-Inv (later r (client c)) = Client-Inv c (Reach-Inv r)

-- The thread may still use the object.
abbrev pub is_running : ThreadPc → Bool
is_running absent = false
is_running gone = false
is_running _ = true

-- In every state that a worker can come to, whatever its clients do, once `is_stopped` is true, or the
-- callback has been called, or the destructor has returned, neither thread runs, and the callback has
-- been called once at most.
pub quiet_when_stopped :
    {reading writing : Bool} {s : Life}
    → Reach reading writing s
    → (s.stopped ≡ true) ⊎ (0 < s.callbacks) ⊎ (s.owner ≡ destroyed)
    → (is_running s.reader ≡ false) × (is_running s.writer ≡ false) × (s.callbacks ≤ 1)
quiet_when_stopped r h = let inv = Reach-Inv r in ground arith
