-- ===== src/Worker/Sink/Rounds.antt =====
-- The writing thread over a destination with a state is that of Worker over the results of its calls.
use shovel_server.Base.{ℕ, ◌≡◌, refl, ap, List, [], ◌∷◌, ◌++◌, map}
use shovel_server.SizedArray.{SizedArray}
use shovel_server.Worker.{
  Writing, WriteState, WriteRound, thread_write_to_source, goes_on, ended, writes, write_round,
}
use shovel_server.Worker.Sink.{
  WriteAnswer, Side, Calls, SinkRound, calls_for, met_writing, write_to_source,
}

abbrev pub arrivals_met : List WriteRound → List (List (List ℕ))
arrivals_met rounds = map (λ x. x.arrivals) rounds

module _ {S A X : Type 0} (write : A → S → SizedArray → WriteAnswer S X) where
  abbrev pub arrivals_of : List (SinkRound A) → List (List (List ℕ))
  arrivals_of rounds = map (λ x. x.arrivals) rounds

  -- The thread over the socket is the thread of `Worker` in rounds with the same arrivals.
  abbrev pub RunsAs : Writing → List (SinkRound A) → WriteState → Type 0
  RunsAs w rounds st =
      (met : List WriteRound) × (arrivals_met met ≡ arrivals_of rounds)
      × (st ≡ thread_write_to_source w met)

  -- Rounds that are not reached.
  rest_met : Calls S X → List (SinkRound A) → List WriteRound
  rest_met c [] = []
  rest_met c (x ∷ rest) = met_writing x c ∷ rest_met c rest

  rest_arrivals :
      (c : Calls S X) (rest : List (SinkRound A))
      → arrivals_met (rest_met c rest) ≡ arrivals_of rest
  unfolding rest_met
  rest_arrivals c [] = refl
  rest_arrivals c (x ∷ rest) = ap (λ t. x.arrivals ∷ t) (rest_arrivals c rest)

  run_on-RunsAs :
      (w : Writing) (d : Side S X) (x : (SinkRound A)) (rest : List (SinkRound A)) (st : WriteState)
      → write_round w (met_writing x (calls_for write d x (w.pending ++ x.arrivals))) ≡ st
      → ((w' : Writing) (d' : Side S X) → RunsAs w' rest (write_to_source write w' d' rest).0)
      → RunsAs w (x ∷ rest) (write_to_source write w d (x ∷ rest)).0
  unfolding write_to_source thread_write_to_source
  run_on-RunsAs w d x rest (goes_on w') e f =
      let c = calls_for write d x (w.pending ++ x.arrivals) in
      let (met, a, s) = f w' c.side in
      (
        met_writing x c ∷ met,
        ap (λ t. x.arrivals ∷ t) a,
        rw (write_to_source, thread_write_to_source, e) s,
      )
  run_on-RunsAs w d x rest (ended w') e f =
      let c = calls_for write d x (w.pending ++ x.arrivals) in
      (
        met_writing x c ∷ rest_met c rest,
        ap (λ t. x.arrivals ∷ t) (rest_arrivals c rest),
        rw (write_to_source, thread_write_to_source, e) refl,
      )
  run_on-RunsAs w d x rest (writes w') e f =
      let c = calls_for write d x (w.pending ++ x.arrivals) in
      (
        met_writing x c ∷ rest_met c rest,
        ap (λ t. x.arrivals ∷ t) (rest_arrivals c rest),
        rw (write_to_source, thread_write_to_source, e) refl,
      )

  pub thread-RunsAs :
      (rounds : List (SinkRound A)) (w : Writing) (d : Side S X)
      → RunsAs w rounds (write_to_source write w d rounds).0
  unfolding write_to_source thread_write_to_source
  thread-RunsAs [] w d = ([], refl, refl)
  thread-RunsAs (x ∷ rest) w d = run_on-RunsAs w d x rest _ refl (λ w' d'. thread-RunsAs rest w' d')
