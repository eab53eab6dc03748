-- ===== src/Worker/Source.antt =====
-- src/connections/workers/ConnectionWorker.cpp, thread_read_from_source over a source with a state: the
-- method read_data_from_source of a subclass is a parameter, which gets an answer of the system from `A`.
pub mod Heard
pub mod Arriving
use shovel_server.Base.{Bool, List, [], ◌∷◌, ℤ, pos}
use shovel_server.SizedArray.{SizedArray, clear, contents}
use shovel_server.Worker.{Attempt, ReadRound}

-- A result, the state afterwards, and the thread's array.
pub record ReadAnswer (S : Type 0) : Type 0 where
  pub result : ℤ
  pub state : S
  pub buf : SizedArray

-- One round of the reading loop: as `Worker.ReadRound`, with the answer of the system in place of what
-- the source answers.
pub record SourceRound (A : Type 0) : Type 0 where
  pub goes_on : Bool
  pub answer : A
  pub goes_on_after : Bool
  pub attempts : List Attempt

unfoldable pub met : {S A : Type 0} → SourceRound A → ReadAnswer S → ReadRound
met x r = record {
  goes_on = x.goes_on;
  read_status = r.result;
  bytes = contents r.buf;
  goes_on_after = x.goes_on_after;
  attempts = x.attempts;
}

-- What the thread's loop meets, with its array `buf`: each round reads with what the rounds before it
-- have left. Behind a round in which the loop ends, nothing is reached.
unfoldable pub read_rounds :
    {S A : Type 0}
    → (A → S → SizedArray → ReadAnswer S)
    → S
    → SizedArray
    → List (SourceRound A)
    → List ReadRound
unfolding met
read_rounds read s buf [] = []
read_rounds read s buf (x ∷ rest) =
    let r = read x.answer s buf in met x r ∷ read_rounds read r.state r.buf rest

-- ConnectionWorker::read_data_from_source, which a subclass is meant to override.
unfoldable pub base_read_data_from_source : {S A : Type 0} → A → S → SizedArray → ReadAnswer S
unfolding clear
base_read_data_from_source answer s buf = record { result = pos 0; state = s; buf = clear buf }
