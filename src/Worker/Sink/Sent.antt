-- ===== src/Worker/Sink/Sent.antt =====
-- What the writing thread hands to the system of the messages of its queue.
use shovel_server.Base.{
  ℕ, ◌≤◌, ◌<◌, ◌≡◌, refl, sym, subst, inl, inr, ◌||◌, not, Option, none, some, List, [], ◌∷◌, ◌++◌,
  append-nil, arith, ℤ, ◌==◌, if◌then◌else◌, Bool-cases, length, All, length-take,
}
use shovel_server.SizedArray.{SizedArray, contents}
use shovel_server.Worker.{
  Writing, WriteState, goes_on, ended, writes, write_round, write_message, after_writing, arrive,
  cut, write_until_done,
}
use shovel_server.Worker.Sink.{
  WriteAnswer, Side, Calls, SinkRound, peeked, met_writing, write_calls, calls_for, write_to_source,
}
use shovel_server.Worker.Sink.Message.{Fails, IsSink, contents-peeked, Done, write_calls-Done}

-- The items of the messages, in order.
pub data Carries {X : Type 0} (Whole : List ℕ → List X → Type 0)
    : List (List ℕ) → List X → Type 0 where
  nothing : Carries Whole [] []
  message :
      {ms : List (List ℕ)} {wire : List X} (m : List ℕ) {items : List X}
      → Carries Whole ms wire
      → Whole m items
      → Carries Whole (ms ++ m ∷ []) (wire ++ items)

module _ {S A X : Type 0} (write : A → S → SizedArray → WriteAnswer S X) (sink : IsSink write) where
  -- A part of the oldest message.
  abbrev pub PartOfFirst : List (List ℕ) → List X → Type 0
  PartOfFirst [] items = items ≡ []
  PartOfFirst (m ∷ ms) items = sink.Part (cut m) items

  -- The bytes sent are the messages written, each behind parts of it, and then parts of the next.
  abbrev pub Breaks : Writing → List X → Type 0
  Breaks w wire =
      (whole : List X) × (part : List X) × (wire ≡ whole ++ part)
      × Carries sink.Whole w.written whole
      × PartOfFirst w.pending part

  abbrev pub Sent : WriteState × Side S X → Type 0
  Sent (goes_on w, d) = Carries sink.Whole w.written d.wire
  Sent (ended w, d) = Breaks w d.wire
  Sent (writes w, d) = Breaks w d.wire

  no_first : (pending : List (List ℕ)) → PartOfFirst pending []
  no_first [] = refl
  no_first (m ∷ ms) = sink.no_part (cut m)

  nothing_more :
      (w : Writing) (d : Side S X) → Carries sink.Whole w.written d.wire → Breaks w d.wire
  nothing_more w d c = (d.wire, [], sym (append-nil d.wire), c, no_first w.pending)

  failed-Sent :
      (w : Writing) (d : Side S X) (m : List ℕ) (ms : List (List ℕ)) (o : Option ℤ)
      → Fails o
      → Breaks w d.wire
      → Sent (after_writing w m ms o, d)
  unfolding after_writing
  failed-Sent w d m ms none f b = b
  failed-Sent w d m ms (some a) f b = rw f b

  after_calls-Sent :
      (w : Writing) (d : Side S X) (c : Calls S X) (m : List ℕ) (ms : List (List ℕ))
      → w.pending ≡ m ∷ ms
      → Carries sink.Whole w.written d.wire
      → Done write sink (cut m) d.wire c
      → Sent (after_writing w m ms (write_until_done c.statuses), c.side)
  unfolding after_writing
  after_calls-Sent w d c m ms e h (inl (n, parts, o, p, s)) = rw (o, s) (message (cut m) h p)
  after_calls-Sent w d c m ms e h (inr (parts, f, p, s)) =
      failed-Sent w c.side m ms (write_until_done c.statuses) f
        (d.wire, parts, s, h, subst (λ q. PartOfFirst q parts) (sym e) p)

  pending-Sent :
      (w : Writing) (d : Side S X) (x : SinkRound A) (q : List (List ℕ))
      → All sink.Good x.calls
      → w.pending ≡ q
      → Carries sink.Whole w.written d.wire
      → let c = calls_for write d x q in
        Sent (
          if not x.goes_on || not x.goes_on_after then ended w else write_message w q c.statuses,
          c.side,
        )
  unfolding write_message calls_for
  pending-Sent w d x [] k e h = elim (Bool-cases (not x.goes_on || not x.goes_on_after)) [
    | inl f ↦ rw f (nothing_more w d h)
    | inr f ↦ rw f h
  ]
  pending-Sent w d x (m ∷ ms) k e h = elim (Bool-cases x.goes_on) [
    | inr g ↦ rw g (nothing_more w d h)
    | inl g ↦ elim (Bool-cases x.goes_on_after) [
      | inr a ↦ rw (g, a) (nothing_more w d h)
      | inl a ↦ elim (Bool-cases (length (cut m) == 0)) [
        | inl z ↦ rw (g, a, z) h
        | inr z ↦
            let d' : Side S X = record d { buf = peeked m d.buf } in
            let b = contents-peeked m d.buf in
            let l : 0 < length (contents (peeked m d.buf)) = rw b (ground arith) in
            let u : length (contents (peeked m d.buf)) ≤ 65535 =
              rw b (omega (arith, length-take 65535 m)) in
            let done : Done write sink (cut m) d.wire (write_calls write x.calls d') =
              subst (λ t. Done write sink t d.wire (write_calls write x.calls d')) b
                (write_calls-Done write sink x.calls d' k l u) in
            rw (g, a, z) (after_calls-Sent w d (write_calls write x.calls d') m ms e h done)
      ]
    ]
  ]

  round-Sent :
      (w : Writing) (d : Side S X) (x : SinkRound A)
      → All sink.Good x.calls
      → Carries sink.Whole w.written d.wire
      → let c = calls_for write d x (w.pending ++ x.arrivals) in
        Sent (write_round w (met_writing x c), c.side)
  unfolding write_round
  round-Sent w d x k h = pending-Sent (arrive w x.arrivals) d x (w.pending ++ x.arrivals) k refl h

  run_on-Sent :
      (w : Writing) (d : Side S X) (x : SinkRound A) (rest : List (SinkRound A)) (st : WriteState)
      → write_round w (met_writing x (calls_for write d x (w.pending ++ x.arrivals))) ≡ st
      → Sent (st, (calls_for write d x (w.pending ++ x.arrivals)).side)
      → ((w' : Writing) (d' : Side S X)
          → Carries sink.Whole w'.written d'.wire
          → Sent (write_to_source write w' d' rest))
      → Sent (write_to_source write w d (x ∷ rest))
  unfolding write_to_source
  run_on-Sent w d x rest (goes_on w') e s f =
      rw (write_to_source, e) (f w' (calls_for write d x (w.pending ++ x.arrivals)).side s)
  run_on-Sent w d x rest (ended w') e s f = rw (write_to_source, e) s
  run_on-Sent w d x rest (writes w') e s f = rw (write_to_source, e) s

  pub thread-Sent :
      (rounds : List (SinkRound A)) (w : Writing) (d : Side S X)
      → All (λ x. All sink.Good x.calls) rounds
      → Carries sink.Whole w.written d.wire
      → Sent (write_to_source write w d rounds)
  unfolding write_to_source
  thread-Sent [] w d g h = h
  thread-Sent (x ∷ rest) w d (g, gs) h =
      run_on-Sent w d x rest _ refl (round-Sent w d x g h)
        (λ w' d' h'. thread-Sent rest w' d' gs h')
