-- ===== src/Subprocess/Tests.antt =====
-- Runs of the loop of a subprocess, and the theorems at concrete inputs.
use shovel_server.Base.{ℕ, ◌<◌, ◌≡◌, refl, inl, inr, List, [], ◌∷◌, arith, All, memcpy, resize}
use shovel_server.SizedArray.{SizedArray}
use shovel_server.Ring
use shovel_server.Ring.{RingQueue, Op, put_op, run}
use shovel_server.Ring.Refine.{init-Represents}
use shovel_server.Decorators
use shovel_server.Decorators.{World, waits}
use shovel_server.Subprocess.{
  Subprocess, Drained, Round, exits, q_for_reading_from_source, new_ring, loop_round, loop, init,
}
use shovel_server.Subprocess.Plan.{plan_loop, by_exit}
use shovel_server.Subprocess.Looping.{RoundFits, Reached, LoopFollows, loop-LoopFollows}
use shovel_server.Subprocess.Leaving.{IsNothing, IsQuiet, orphan_exits}
use shovel_server.LocalSocket.{bound}
use shovel_server.Subprocess.Instance.{Text, Setting, Becomes, main_1, main_2, mains-Becomes}
use shovel_server.Subprocess.Starving.{subprocess_starves}

abbrev small_array : SizedArray
small_array = record { elements = 0 ∷ 0 ∷ 0 ∷ []; data_size = 0 }

-- A ring of four messages in place of the subprocess's.
abbrev small_ring : Subprocess
small_ring = record { ring = Ring.init 4 60; arr = small_array; processed = [] }

-- Two messages, and one more that comes while the loop is at the first.
abbrev first_two : List Op
first_two = put_op (1 ∷ 2 ∷ []) 2 ∷ put_op (3 ∷ []) 1 ∷ []

abbrev calls_between : List (List Op)
calls_between = [] ∷ (put_op (4 ∷ 5 ∷ []) 2 ∷ []) ∷ [] ∷ [] ∷ []

abbrev processed_in : Drained → List (List ℕ)
processed_in (Drained.drained s) = s.processed
processed_in (Drained.draining s) = s.processed
processed_in Drained.fails = []

three_run :
    processed_in (loop_round first_two calls_between small_ring)
    ≡ (1 ∷ 2 ∷ []) ∷ (3 ∷ []) ∷ (4 ∷ 5 ∷ []) ∷ []
unfolding loop_round Ring.init Ring.put Ring.run Ring.size memcpy resize Decorators.size Ring.step
    Ring.get Ring.Cell.get Ring.Cell.put
three_run = refl

-- Two messages in the first round, a third before the second, and no parent in the third.
abbrev quiet : List (List Op)
quiet = [] ∷ [] ∷ [] ∷ [] ∷ [] ∷ []

abbrev until_orphan : List Round
until_orphan =
    record { parent = 7; before = first_two; gets = quiet }
    ∷ record { parent = 7; before = put_op (4 ∷ 5 ∷ []) 2 ∷ []; gets = quiet }
    ∷ record { parent = 1; before = put_op (6 ∷ []) 1 ∷ []; gets = quiet }
    ∷ []

until_orphan-RoundFits : All RoundFits until_orphan
until_orphan-RoundFits = omega arith

until_orphan-IsQuiet : All (IsQuiet 4) until_orphan
until_orphan-IsQuiet =
    let q : (4 < 5) × All IsNothing quiet =
      (omega arith, (refl, (refl, (refl, (refl, (refl, tt)))))) in
    (q, (q, (q, tt)))

loop-LoopFollows_example :
    LoopFollows 4 small_ring (plan_loop 4 until_orphan []) (loop until_orphan small_ring)
unfolding Ring.init
loop-LoopFollows_example =
    loop-LoopFollows until_orphan 4 [] small_ring (init-Represents 4 60 (omega arith)) refl
      until_orphan-RoundFits

orphan_exits_example :
    (t : Subprocess) × (loop until_orphan small_ring ≡ exits t)
    × Reached 4 small_ring (plan_loop 4 until_orphan []) by_exit t
unfolding Ring.init
orphan_exits_example =
    orphan_exits until_orphan 4 [] small_ring (init-Represents 4 60 (omega arith)) refl
      until_orphan-RoundFits until_orphan-IsQuiet (inr (inr (inl (omega arith))))

abbrev fresh_world : World
fresh_world = record { ring = new_ring; wakeups = [] ∷ [] ∷ []; held = []; notified = [] }

abbrev idle_rounds : List Round
idle_rounds =
    record { parent = 7; before = []; gets = [] }
    ∷ record { parent = 1; before = []; gets = [] }
    ∷ []

subprocess_starves_example :
    ((w' : World) × (Decorators.put q_for_reading_from_source (1 ∷ []) 1 fresh_world ≡ waits w'))
    × (loop idle_rounds (init small_array) ≡ exits (init small_array))
unfolding run
subprocess_starves_example =
    subprocess_starves [] [] (1 ∷ []) 1 fresh_world small_array idle_rounds refl refl
      (refl, (refl, tt))

-- The paths /a and /b, and 108 bytes for a path.
abbrev setting : Setting
setting = record {
  sun_path_size = 108;
  opening = bound 3;
  arr = small_array;
  rounds = until_orphan;
}

abbrev command_line : List Text
command_line = (47 ∷ 112 ∷ []) ∷ (47 ∷ 97 ∷ []) ∷ (47 ∷ 98 ∷ []) ∷ []

mains-Becomes_example :
    Becomes setting command_line (main_1 setting command_line)
    × Becomes setting command_line (main_2 setting command_line)
mains-Becomes_example = mains-Becomes setting command_line until_orphan-RoundFits
