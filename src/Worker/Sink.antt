-- ===== src/Worker/Sink.antt =====
-- src/connections/workers/ConnectionWorker.cpp, thread_write_to_source over a destination with a state:
-- the method write_data_to_source of a subclass is a parameter, which answers a call from `A` (what the
-- system answers meanwhile) and hands some items of `X` to the system.
pub mod Rounds
pub mod Message
pub mod Sent
use shovel_server.Base.{
  ℕ, Bool, true, false, ◌||◌, not, Option, none, some, List, [], ◌∷◌, ◌++◌, ℤ, pos, ◌==◌,
  if◌then◌else◌, length, memcpy,
}
use shovel_server.SizedArray.{SizedArray, resize, clear, array_size}
use shovel_server.Worker.{
  magnitude, cut, WriteRound, Writing, WriteState, goes_on, ended, writes, write_round,
}

-- A result (none: the call has not returned), what was handed to the system, the state afterwards,
-- and the thread's array.
pub record WriteAnswer (S X : Type 0) : Type 0 where
  pub result : Option ℤ
  pub wire : List X
  pub state : S
  pub buf : SizedArray

-- What the writing thread has besides its messages: the state, its array, and all that was handed to
-- the system so far.
pub record Side (S X : Type 0) : Type 0 where
  pub state : S
  pub buf : SizedArray
  pub wire : List X

-- The results of the calls of write_data_to_source for one message, and what the thread has then.
pub record Calls (S X : Type 0) : Type 0 where
  pub statuses : List ℤ
  pub side : Side S X

-- One round of the writing loop: as `Worker.WriteRound`, with the answers of the system in each of the
-- calls in place of their results.
pub record SinkRound (A : Type 0) : Type 0 where
  pub goes_on : Bool
  pub arrivals : List (List ℕ)
  pub goes_on_after : Bool
  pub calls : List A

-- The thread's array behind `peek` and the change of its size, when `m` is the oldest message.
unfoldable pub peeked : List ℕ → SizedArray → SizedArray
unfolding resize
peeked m buf =
    let count = length (cut m) in
    resize array_size (record buf { elements = memcpy buf.elements m count }) count

module _ {S X : Type 0} where
  abbrev pub no_calls : Side S X → Calls S X
  no_calls d = record { statuses = []; side = d }

  abbrev pub after_write : Side S X → WriteAnswer S X → Side S X
  after_write d r = record { state = r.state; buf = r.buf; wire = d.wire ++ r.wire }

  abbrev pub first_status : ℤ → Calls S X → Calls S X
  first_status a c = record c { statuses = a ∷ c.statuses }

abbrev pub met_writing : {S A X : Type 0} → SinkRound A → Calls S X → WriteRound
met_writing x c = record {
  goes_on = x.goes_on;
  arrivals = x.arrivals;
  goes_on_after = x.goes_on_after;
  answers = c.statuses;
}

module _ {S A X : Type 0} (write_data_to_source : A → S → SizedArray → WriteAnswer S X) where
  -- while (write_status == 0) …
  unfoldable pub write_calls : List A → Side S X → Calls S X
  write_calls [] d = no_calls d
  write_calls (answer ∷ rest) d =
      let r = write_data_to_source answer d.state d.buf in
      elim r.result [
        | none ↦ no_calls (after_write d r)
        | some a ↦ elim (magnitude a == 0) [
          | true ↦ first_status a (write_calls rest (after_write d r))
          | false ↦ record { statuses = a ∷ []; side = after_write d r }
        ]
      ]

  unfoldable pub calls_for : Side S X → SinkRound A → List (List ℕ) → Calls S X
  unfolding write_calls peeked
  calls_for d x [] = no_calls d
  calls_for d x (m ∷ ms) =
      if not x.goes_on || not x.goes_on_after || (length (cut m) == 0)
      then no_calls d
      else write_calls x.calls (record d { buf = peeked m d.buf })

  -- thread_write_to_source
  unfoldable pub write_to_source : Writing → Side S X → List (SinkRound A) → WriteState × Side S X
  unfolding write_round calls_for
  write_to_source w d [] = (goes_on w, d)
  write_to_source w d (x ∷ rest) =
      let c = calls_for d x (w.pending ++ x.arrivals) in
      elim (write_round w (met_writing x c)) [
        | goes_on w' ↦ write_to_source w' c.side rest
        | ended w' ↦ (ended w', c.side)
        | writes w' ↦ (writes w', c.side)
      ]

-- ConnectionWorker::write_data_to_source, which a subclass is meant to override.
unfoldable pub base_write_data_to_source : {S A X : Type 0} → A → S → SizedArray → WriteAnswer S X
unfolding clear
base_write_data_to_source answer s buf = record {
  result = some (pos 0);
  wire = [];
  state = s;
  buf = clear buf;
}
