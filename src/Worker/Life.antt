-- ===== src/Worker/Life.antt =====
-- src/connections/workers/ConnectionWorker.h and ConnectionWorker.cpp: the life of a worker. Its two
-- threads, its guard thread and its clients run interleaved, a shared access at a time. What a thread
-- does in a round of its loop is one step here; Worker models it.
pub mod Invariant
pub mod Ending
mod Tests
use shovel_server.Base.{
  ℕ, ◌+◌, ◌≡◌, Bool, true, false, ◌&&◌, not, Option, none, some, if◌then◌else◌,
}

-- Where the reading or the writing thread stands: not created, before it looks at the flags, in the
-- body of its loop, behind the loop, at its end.
pub data ThreadPc : Type 0 where
  absent looks works leaves gone : ThreadPc

-- Where thread_guard stands, in the order of its body.
pub data GuardPc : Type 0 where
  no_guard creates_reader creates_writer joins_reader joins_writer : GuardPc
  tells_stopped calls_back ended : GuardPc

-- How far the destruction of the object has come: the members of the derived class are gone, `stop` is
-- called, all is gone.
pub data OwnerPc : Type 0 where
  alive source_gone stop_called destroyed : OwnerPc

pub record Life : Type 0 where
  pub has_reading_queue : Bool
  pub has_writing_queue : Bool
  pub read_thread_alive : Bool
  pub write_thread_alive : Bool
  pub stop_asked : Bool
  pub stopped : Bool
  pub reader : ThreadPc
  pub writer : ThreadPc
  pub guard : GuardPc
  pub owner : OwnerPc
  pub callbacks : ℕ

-- The constructor, with two queues that are set or null.
unfoldable pub init : Bool → Bool → Life
init reading writing = record {
  has_reading_queue = reading;
  has_writing_queue = writing;
  read_thread_alive = false;
  write_thread_alive = false;
  stop_asked = false;
  stopped = false;
  reader = absent;
  writer = absent;
  guard = no_guard;
  owner = alive;
  callbacks = 0;
}

-- ConnectionWorker::start, which is `run`; none: t_guard is joinable, and the assignment of a thread to
-- it ends the process.
unfoldable pub start : Life → Option Life
start s = elim s.guard [
  | no_guard ↦ some (record s {
    read_thread_alive = true;
    write_thread_alive = true;
    stop_asked = false;
    guard = creates_reader;
  })
  | _ ↦ none
]

unfoldable pub stop : Life → Life
stop s = record s { stop_asked = true }

-- The heads of the two loops: queue && other thread alive && !stop asked.
unfoldable pub look : Bool → Bool → Bool → ThreadPc
look queue other_alive stop_asked = if queue && other_alive && not stop_asked then works else leaves

-- A step of one of the three threads.
pub data Internal (s : Life) : Life → Type 0 where
  reader_looks :
      s.reader ≡ looks
      → Internal s
          (record s { reader = look s.has_reading_queue s.write_thread_alive s.stop_asked })
  reader_returns : s.reader ≡ works → Internal s (record s { reader = looks })
  reader_breaks : s.reader ≡ works → Internal s (record s { reader = leaves })
  reader_ends :
      s.reader ≡ leaves → Internal s (record s { reader = gone; read_thread_alive = false })
  writer_looks :
      s.writer ≡ looks
      → Internal s (record s { writer = look s.has_writing_queue s.read_thread_alive s.stop_asked })
  writer_returns : s.writer ≡ works → Internal s (record s { writer = looks })
  writer_breaks : s.writer ≡ works → Internal s (record s { writer = leaves })
  writer_ends :
      s.writer ≡ leaves → Internal s (record s { writer = gone; write_thread_alive = false })
  guard_creates_reader :
      s.guard ≡ creates_reader → Internal s (record s { guard = creates_writer; reader = looks })
  guard_creates_writer :
      s.guard ≡ creates_writer → Internal s (record s { guard = joins_reader; writer = looks })
  guard_joins_reader :
      s.guard ≡ joins_reader → s.reader ≡ gone → Internal s (record s { guard = joins_writer })
  guard_joins_writer :
      s.guard ≡ joins_writer → s.writer ≡ gone → Internal s (record s { guard = tells_stopped })
  guard_tells :
      s.guard ≡ tells_stopped → Internal s (record s { guard = calls_back; stopped = true })
  -- The callback leaves the object, or destroys it; the guard then detaches itself.
  guard_calls :
      s.guard ≡ calls_back → Internal s (record s { guard = ended; callbacks = s.callbacks + 1 })
  guard_destroys :
      s.guard ≡ calls_back
      → s.owner ≡ alive
      → Internal s (record s {
        guard = ended;
        callbacks = s.callbacks + 1;
        stop_asked = true;
        owner = destroyed;
      })

-- What clients do: `start`, `stop`, and the destructor, which waits for the guard.
pub data Client (s : Life) : Life → Type 0 where
  starts : {t : Life} → s.owner ≡ alive → start s ≡ some t → Client s t
  stops : s.owner ≡ alive → Client s (stop s)
  destroys_members : s.owner ≡ alive → Client s (record s { owner = source_gone })
  destroys_base : s.owner ≡ source_gone → Client s (record (stop s) { owner = stop_called })
  never_started :
      s.owner ≡ stop_called → s.guard ≡ no_guard → Client s (record s { owner = destroyed })
  joins_guard : s.owner ≡ stop_called → s.guard ≡ ended → Client s (record s { owner = destroyed })

pub data Step (s t : Life) : Type 0 where
  internal : Internal s t → Step s t
  client : Client s t → Step s t

pub data Reach (reading writing : Bool) : Life → Type 0 where
  here : Reach reading writing (init reading writing)
  later : {s t : Life} → Reach reading writing s → Step s t → Reach reading writing t
