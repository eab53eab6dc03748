-- ===== src/Ring/Tests.antt =====
-- Runs of the ring, that of src/containers/main.cpp among them, and the theorems at concrete inputs.
use shovel_server.Base.{
  ℕ, ◌≡◌, refl, true, false, Option, some, List, [], ◌∷◌, arith, replicate, memcpy, resize,
}
use shovel_server.Ring.{
  RingQueue, Op, put_op, get_op, peek_op, ok, full, empty, set_status, get_status, size, capacity,
  init, put, get, peek, step, run,
}
use shovel_server.Ring.Cell
use shovel_server.Ring.Main.{main}
use shovel_server.Ring.Fifo
use shovel_server.Ring.Inv.{Represents}
use shovel_server.Ring.Refine.{init-Represents, run_refines}
use shovel_server.Ring.Observe.{
  SameReplies, SameReplies-same_state, Call, calls, asks_status, asks_size, asks_capacity, Seen,
  status_is, size_is, capacity_is, replied, answers,
}
use mathlib.Core.Logic.{◌↔◌}

abbrev zeros : ℕ → List ℕ
zeros n = replicate n 0

-- The program gets its ten bytes back.
program_run : main ≡ some (10, 1 ∷ 2 ∷ 3 ∷ 4 ∷ replicate 6 0)
unfolding main put get init Cell.put Cell.get Cell.init resize memcpy
program_run = refl

-- A ring of two cells, filled, emptied by one and filled again: the indices go round.
abbrev script : List Op
script =
    put_op (1 ∷ 2 ∷ 3 ∷ []) 3
    ∷ put_op (4 ∷ []) 1
    ∷ put_op (5 ∷ []) 1
    ∷ peek_op (zeros 2) 2
    ∷ get_op (zeros 3) 3
    ∷ put_op (6 ∷ 7 ∷ []) 2
    ∷ get_op (zeros 1) 1
    ∷ get_op (zeros 1) 1
    ∷ get_op (zeros 1) 1
    ∷ []

run_refines_example :
    (q' : RingQueue) × (run (init 2 4) script
      ≡ some (
        (3, 1 ∷ 2 ∷ 3 ∷ [], ok)
            ∷ (1, 4 ∷ [], ok)
            ∷ (0, 5 ∷ [], full)
            ∷ (2, 1 ∷ 2 ∷ [], ok)
            ∷ (3, 1 ∷ 2 ∷ 3 ∷ [], ok)
            ∷ (2, 6 ∷ 7 ∷ [], ok)
            ∷ (1, 4 ∷ [], ok)
            ∷ (1, 6 ∷ [], ok)
            ∷ (0, 0 ∷ [], empty)
            ∷ [],
        q',
      ))
    × Represents q' []
unfolding Fifo.run Fifo.step memcpy init
run_refines_example =
    run_refines script (init 2 4) [] (init-Represents 2 4 (omega arith)) (omega arith)

abbrev one_put : List Op
one_put = put_op (9 ∷ []) 1 ∷ []

abbrev after_put : RingQueue
after_put = record {
  base = record { total_count = 0; size = 1; status = ok };
  index_in = 1;
  index_out = 0;
  ring_vector =
      record { cells = 9 ∷ 0 ∷ []; init_cell_size = 2; data_size = 1; has_data = true }
      ∷ record { cells = 0 ∷ 0 ∷ []; init_cell_size = 2; data_size = 0; has_data = false }
      ∷ [];
  total_count = 2;
}

one_put-run : run (init 2 2) one_put ≡ some ((1, 9 ∷ [], ok) ∷ [], after_put)
unfolding run step put init Cell.put Cell.init resize memcpy
one_put-run = refl

-- The same message in the other cell.
abbrev shifted : RingQueue
shifted = record {
  base = record { total_count = 0; size = 1; status = ok };
  index_in = 0;
  index_out = 1;
  ring_vector =
      record { cells = 4 ∷ 5 ∷ []; init_cell_size = 2; data_size = 0; has_data = false }
      ∷ record { cells = 9 ∷ 3 ∷ []; init_cell_size = 2; data_size = 1; has_data = true }
      ∷ [];
  total_count = 2;
}

abbrev nine : List (List ℕ)
nine = (9 ∷ []) ∷ []

after_put-Represents : Represents after_put nine
after_put-Represents = record {
  cells_count = refl;
  small = omega arith;
  counted = refl;
  bounded = omega arith;
  in_range = omega arith;
  out_range = omega arith;
  distance = ground arith;
  held = (refl, tt);
}

shifted-Represents : Represents shifted nine
shifted-Represents = record {
  cells_count = refl;
  small = omega arith;
  counted = refl;
  bounded = omega arith;
  in_range = omega arith;
  out_range = omega arith;
  distance = ground arith;
  held = (refl, tt);
}

SameReplies-same_state_example : SameReplies after_put shifted ↔ (
    (nine ≡ nine)
    × (get_status after_put ≡ get_status shifted)
    × (capacity after_put ≡ capacity shifted))
SameReplies-same_state_example =
    SameReplies-same_state 2 after_put shifted nine nine refl refl after_put-Represents
      shifted-Represents (omega arith, tt) (omega arith, tt)

-- The two hold the same, and every public method is called on both.
abbrev all_methods : List Call
all_methods =
    asks_status
    ∷ asks_size
    ∷ asks_capacity
    ∷ calls (peek_op (zeros 1) 1)
    ∷ calls (get_op (zeros 1) 1)
    ∷ calls (get_op (zeros 1) 1)
    ∷ asks_status
    ∷ asks_size
    ∷ []

abbrev all_seen : Option (List Seen)
all_seen = some (
    status_is ok
    ∷ size_is 1
    ∷ capacity_is 0
    ∷ replied (1, 9 ∷ [], ok)
    ∷ replied (1, 9 ∷ [], ok)
    ∷ replied (0, 0 ∷ [], empty)
    ∷ status_is empty
    ∷ size_is 0
    ∷ [])

after_put-answers : answers after_put all_methods ≡ all_seen
unfolding answers step get peek get_status size capacity Cell.get Cell.peek memcpy
after_put-answers = refl

shifted-answers : answers shifted all_methods ≡ all_seen
unfolding answers step get peek get_status size capacity Cell.get Cell.peek memcpy
shifted-answers = refl

-- A status alone tells two rings apart.
abbrev reported : RingQueue
reported = set_status after_put empty

told_apart :
    (answers after_put (asks_status ∷ []) ≡ some (status_is ok ∷ []))
    × (answers reported (asks_status ∷ []) ≡ some (status_is empty ∷ []))
unfolding answers get_status
told_apart = (refl, refl)
