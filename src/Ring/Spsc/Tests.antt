-- ===== src/Ring/Spsc/Tests.antt =====
-- Interleaved runs of two threads at a ring, and the theorems at concrete inputs.
use shovel_server.Base.{
  ℕ, ◌≡◌, refl, ◌≢◌, true, false, some, List, [], ◌∷◌, ◌++◌, map, arith, replicate, All, memcpy,
  resize,
}
use shovel_server.Ring.{ok, init, put_op, peek_op}
use shovel_server.Ring.Cell
use shovel_server.Ring.Inv.{Represents}
use shovel_server.Ring.Refine.{init-Represents}
use shovel_server.Ring.Spsc.{
  Put, Ask, gets, peeks, storing, reading, System, Thread, producer, consumer, put_call, ask_call,
  run, step,
}
use shovel_server.Ring.Spsc.Invariant.{PutFits, AskFits}
use shovel_server.Ring.Spsc.Serial.{IsSerial, calls_of}
use shovel_server.Ring.Spsc.Returning.{Matches, puts_of, asks_of}
use shovel_server.Ring.Spsc.Order.{puts_in, asks_in, all_puts, all_asks}
use shovel_server.Ring.Spsc.Linear.{new_system, spsc_linear, spsc_apart, spsc_completes}

abbrev two_puts : List Put
two_puts = record { buf = 1 ∷ 2 ∷ []; size = 2 } ∷ record { buf = 3 ∷ 9 ∷ []; size = 1 } ∷ []

abbrev two_asks : List Ask
two_asks = peeks (0 ∷ []) 1 ∷ gets (0 ∷ 0 ∷ []) 2 ∷ []

puts_fit : All PutFits two_puts
puts_fit = ((omega arith, omega arith), ((omega arith, omega arith), tt))

asks_fit : All AskFits two_asks
asks_fit = (omega arith, (omega arith, tt))

-- The peek begins while the first message is stored and not yet counted, and the get while the second
-- is put.
abbrev mixed : List Thread
mixed =
    producer ∷ producer ∷ producer ∷ consumer ∷ producer ∷ producer ∷ consumer ∷ consumer ∷ consumer
    ∷ producer ∷ producer ∷ consumer ∷ producer ∷ consumer ∷ []

abbrev midway : System
midway = record {
  ring = record {
    base = record { total_count = 0; size = 1; status = ok };
    index_in = 1;
    index_out = 0;
    ring_vector =
        record { cells = 1 ∷ 2 ∷ []; init_cell_size = 2; data_size = 2; has_data = true }
        ∷ record { cells = 0 ∷ 0 ∷ []; init_cell_size = 2; data_size = 0; has_data = false }
        ∷ [];
    total_count = 2;
  };
  producer = storing (record { buf = 3 ∷ 9 ∷ []; size = 1 });
  puts = [];
  returned_puts = record { call = put_op (1 ∷ 2 ∷ []) 2; answer = (2, 1 ∷ 2 ∷ []) } ∷ [];
  consumer = reading (gets (0 ∷ 0 ∷ []) 2);
  asks = [];
  returned_asks = record { call = peek_op (0 ∷ []) 1; answer = (1, 1 ∷ []) } ∷ [];
  history =
      record { call = put_op (1 ∷ 2 ∷ []) 2; answer = (2, 1 ∷ 2 ∷ []) }
      ∷ record { call = peek_op (0 ∷ []) 1; answer = (1, 1 ∷ []) }
      ∷ [];
}

mixed-run : run (new_system (init 2 2) two_puts two_asks) mixed ≡ some midway
unfolding run step init Cell.put Cell.peek Cell.init resize memcpy
mixed-run = refl

spsc_linear_example :
    (s : System) × (left : List (List ℕ)) × (run (new_system (init 2 2) two_puts two_asks) mixed
      ≡ some s)
    × (all_puts s ≡ map put_call two_puts)
    × (all_asks s ≡ map ask_call two_asks)
    × IsSerial 2 [] s.history left
    × Matches s
unfolding init
spsc_linear_example =
    spsc_linear mixed (init 2 2) [] two_puts two_asks (init-Represents 2 2 (omega arith)) puts_fit
      asks_fit

spsc_apart_example : midway.ring.index_in ≢ midway.ring.index_out
spsc_apart_example =
    spsc_apart mixed (init 2 2) [] two_puts two_asks midway (record { buf = 3 ∷ 9 ∷ []; size = 1 })
      (gets (0 ∷ 0 ∷ []) 2) (init-Represents 2 2 (omega arith)) puts_fit asks_fit mixed-run refl
      refl

-- One thread after the other, twelve steps each.
abbrev in_turn : List Thread
in_turn = replicate 12 producer ++ replicate 12 consumer

spsc_completes_example :
    (s : System) × (left : List (List ℕ)) × (run (new_system (init 2 2) two_puts two_asks) in_turn
      ≡ some s)
    × (puts_in (calls_of s.history) ≡ map put_call two_puts)
    × (asks_in (calls_of s.history) ≡ map ask_call two_asks)
    × (s.returned_puts ≡ puts_of s.history)
    × (s.returned_asks ≡ asks_of s.history)
    × IsSerial 2 [] s.history left
    × Represents s.ring left
unfolding init
spsc_completes_example =
    spsc_completes in_turn (init 2 2) [] two_puts two_asks (init-Represents 2 2 (omega arith))
      puts_fit asks_fit (omega arith) (omega arith)
