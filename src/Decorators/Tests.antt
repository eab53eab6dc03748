-- ===== src/Decorators/Tests.antt =====
-- The decorators at concrete stacks: those that src/subprocesses builds, and others.
use shovel_server.Base.{◌<◌, ◌≡◌, refl, ◌⊎◌, true, false, List, [], ◌∷◌, arith}
use shovel_server.Ring
use shovel_server.Ring.{RingQueue, Op, put_op, init, run}
use shovel_server.Decorators.{
  Syncs, block_write, block_read, no_block_read, block_read_timed, fresh_syncs, Decorator, wrap,
  World, waits, locks_twice, put, get,
}
use shovel_server.Decorators.Deadlock.{block_write_never_returns}
use shovel_server.Decorators.Reading.{block_read_waits_for_data}
use shovel_server.Decorators.Nested.{always, timed, nested_reading_locks_twice}

-- The queue for reading of AbstractSubprocess, over a ring of two cells.
abbrev reading_stack : List Decorator
reading_stack = wrap 2 no_block_read (wrap 1 block_write [])

abbrev world : RingQueue → List (List Op) → World
world q wakeups = record { ring = q; wakeups = wakeups; held = []; notified = [] }

-- A ring that holds the message 9.
abbrev holding : RingQueue
holding = record {
  base = record { total_count = 0; size = 1; status = Ring.Status.ok };
  index_in = 1;
  index_out = 0;
  ring_vector =
      record { cells = 9 ∷ 0 ∷ []; init_cell_size = 2; data_size = 1; has_data = true }
      ∷ record { cells = 0 ∷ 0 ∷ []; init_cell_size = 2; data_size = 0; has_data = false }
      ∷ [];
  total_count = 2;
}

block_write_never_returns_example :
    (w' : World) × (put
        (record { kind = block_write; syncs = fresh_syncs 2 } ∷ [])
        (5 ∷ [])
        1
        (world (init 2 4) ([] ∷ []))
      ≡ waits w')
unfolding run
block_write_never_returns_example =
    block_write_never_returns 2 4 [] [] (fresh_syncs 2) [] (5 ∷ []) 1 (world (init 2 4) ([] ∷ []))
      refl refl

abbrev reader : List Decorator
reader = record { kind = block_read; syncs = fresh_syncs 3 } ∷ []

block_read_waits_for_data_example :
    ((w' : World) × (get reader (0 ∷ []) 1 (world (init 2 4) ((put_op (5 ∷ []) 1 ∷ []) ∷ []))
        ≡ waits w'))
    ⊎ ((q : RingQueue) × (rest : List (List Op)) × (0 < Ring.size q)
        × (get reader (0 ∷ []) 1 (world (init 2 4) ((put_op (5 ∷ []) 1 ∷ []) ∷ []))
            ≡ get reader (0 ∷ []) 1 (world q rest)))
block_read_waits_for_data_example =
    block_read_waits_for_data (fresh_syncs 3) [] (0 ∷ []) 1
      (world (init 2 4) ((put_op (5 ∷ []) 1 ∷ []) ∷ [])) refl

nested_reading_locks_twice_example :
    get (wrap 2 block_read (wrap 1 (block_read_timed 50) [])) (0 ∷ []) 1 (world holding [])
    ≡ locks_twice (record { ring = holding; wakeups = []; held = 2 ∷ []; notified = [] })
unfolding Ring.size
nested_reading_locks_twice_example =
    nested_reading_locks_twice always (timed 50) 2 1 [] (0 ∷ []) 1 (world holding []) refl
      (omega arith)

-- A timed reading class around a writing one, with conditions of its own.
abbrev three_syncs : Syncs
three_syncs = record { mutex = 3; condition_full = 4; condition_empty = 5 }

abbrev under_it : List Decorator
under_it = record { kind = block_write; syncs = three_syncs } ∷ []

-- Another thread puts during the wait, of which there is no need: the ring is empty.
abbrev while_waiting : List (List Op)
while_waiting = (put_op (5 ∷ []) 1 ∷ []) ∷ []
