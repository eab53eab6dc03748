-- ===== src/Subprocess/Plan.antt =====
-- What `AbstractSubprocess::loop` is meant to do with the messages of its queue, in the words of the plain
-- queue of `Ring.Fifo`.
use shovel_server.Base.{
  ℕ, Bool, true, false, List, [], ◌∷◌, ◌++◌, ltb, ◌==◌, if◌then◌else◌, length, take,
}
use shovel_server.SizedArray.{array_size}
use shovel_server.Ring.{Op}
use shovel_server.Ring.Fifo
use shovel_server.Subprocess.{Round}

-- `get` gives no more of a message.
abbrev pub cut : List ℕ → List ℕ
cut m = take array_size m

-- What the loop is meant to do with the messages of a queue: those it processes, those that are left,
-- and whether it has stopped.
pub record Plan : Type 0 where
  pub processing : List (List ℕ)
  pub pending : List (List ℕ)
  pub has_stopped : Bool

abbrev pub stop_with : List (List ℕ) → Plan
stop_with ms = record { processing = []; pending = ms; has_stopped = true }

abbrev pub processes : List ℕ → Plan → Plan
processes m p = record p { processing = m ∷ p.processing }

-- Message by message, in order; an empty queue stops it, and so does an empty message.
unfoldable pub plan : ℕ → List (List Op) → List (List ℕ) → Plan
plan count [] ms = record { processing = []; pending = ms; has_stopped = false }
plan count (ops ∷ rest) ms = elim (Fifo.run count ms ops).1 [
  | [] ↦ stop_with []
  | m ∷ ms' ↦ elim (length (cut m) == 0) [
    | true ↦ stop_with ms'
    | false ↦ processes (cut m) (plan count rest ms')
  ]
]

-- What a round of `loop` is meant to do: nothing, where no message is there.
abbrev pub plan_if_any : ℕ → List (List Op) → List (List ℕ) → Plan
plan_if_any count gets [] = stop_with []
plan_if_any count gets (m ∷ ms) = plan count gets (m ∷ ms)

abbrev pub plan_round : ℕ → List Op → List (List Op) → List (List ℕ) → Plan
plan_round count before gets ms = plan_if_any count gets (Fifo.run count ms before).1

-- How the loop ends: by exit(0), with its rounds, or in the middle of one.
pub data Ending : Type 0 where
  by_exit by_rounds in_round : Ending

pub record LoopPlan : Type 0 where
  pub processing : List (List ℕ)
  pub pending : List (List ℕ)
  pub ending : Ending

abbrev pub ends : Ending → List (List ℕ) → LoopPlan
ends e ms = record { processing = []; pending = ms; ending = e }

-- A round, and what comes after it.
abbrev pub goes_through : Plan → LoopPlan → LoopPlan
goes_through p rest =
    if p.has_stopped
    then record rest { processing = p.processing ++ rest.processing }
    else record { processing = p.processing; pending = p.pending; ending = in_round }

-- Round by round, until the parent has gone.
unfoldable pub plan_loop : ℕ → List Round → List (List ℕ) → LoopPlan
plan_loop count [] ms = ends by_rounds ms
plan_loop count (r ∷ rest) ms =
    let p = plan_round count r.before r.gets ms in
    let next = plan_loop count rest p.pending in
    if ltb r.parent 2 then ends by_exit ms else goes_through p next
