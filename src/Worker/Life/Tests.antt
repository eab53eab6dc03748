-- ===== src/Worker/Life/Tests.antt =====
-- Runs of a worker's life, and the theorems at concrete inputs.
use shovel_server.Base.{◌≤◌, ◌≡◌, refl, ◌⊎◌, inl, true, false, none, some, arith}
use shovel_server.Worker.Life.{
  gone, looks, works, ended, creates_reader, joins_reader, alive, destroyed, Life, init, start,
  stop, look, Step, internal, client, Reach, here, later,
}
use shovel_server.Worker.Life
use shovel_server.Worker.Life.Invariant.{is_running, quiet_when_stopped}
use shovel_server.Worker.Life.Ending.{IsEnding, Run, none_yet, one_more, CanStep, stop_ends}

-- A worker that is started, and asked to stop before its threads are created.
abbrev started : Life
unfolding init
started = record (init true true) {
  read_thread_alive = true;
  write_thread_alive = true;
  guard = creates_reader;
}

start_run : start (init true true) ≡ some started
unfolding start init
start_run = refl

-- A second start ends the process.
start_twice : start started ≡ none
unfolding start init
start_twice = refl

started-Reach : Reach true true started
unfolding init
started-Reach = later here (client (Life.starts refl start_run))

stopping-Reach : Reach true true (stop started)
unfolding init stop
stopping-Reach = later started-Reach (client (Life.stops refl))

-- Its threads are created.
abbrev created : Life
unfolding init
created = record started { stop_asked = true; reader = looks; writer = looks; guard = joins_reader }

creates-Run : Run (stop started) 2 created
unfolding init stop
creates-Run =
    one_more (one_more none_yet (Life.guard_creates_reader refl)) (Life.guard_creates_writer refl)

stopping_IsEnding : IsEnding (stop started)
unfolding init stop
stopping_IsEnding = (omega arith, inl refl)

stop_ends_example :
    (2 ≤ 16) × (((created.guard ≡ ended) × (created.callbacks ≡ 1)) ⊎ CanStep created)
stop_ends_example = stop_ends stopping-Reach stopping_IsEnding creates-Run

-- They look at the flags and end; the guard joins them, tells, and its callback destroys the worker.
abbrev finished : Life
unfolding init
finished = record started {
  read_thread_alive = false;
  write_thread_alive = false;
  stop_asked = true;
  stopped = true;
  reader = gone;
  writer = gone;
  guard = ended;
  owner = destroyed;
  callbacks = 1;
}

created-Reach : Reach true true created
unfolding init stop
created-Reach =
    later (later stopping-Reach (internal (Life.guard_creates_reader refl)))
      (internal (Life.guard_creates_writer refl))

finished-Reach : Reach true true finished
unfolding init look
finished-Reach =
    later
      (later
        (later
          (later
            (later
              (later
                (later (later created-Reach (internal (Life.reader_looks refl)))
                  (internal (Life.writer_looks refl)))
                (internal (Life.reader_ends refl)))
              (internal (Life.writer_ends refl)))
            (internal (Life.guard_joins_reader refl refl)))
          (internal (Life.guard_joins_writer refl refl)))
        (internal (Life.guard_tells refl)))
      (internal (Life.guard_destroys refl refl))

quiet_when_stopped_example :
    (is_running finished.reader ≡ false)
    × (is_running finished.writer ≡ false)
    × (finished.callbacks ≤ 1)
unfolding finished
quiet_when_stopped_example = quiet_when_stopped finished-Reach (inl refl)
