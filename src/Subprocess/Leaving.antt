-- ===== src/Subprocess/Leaving.antt =====
-- When `AbstractSubprocess::loop` ends the process.
use shovel_server.Base.{
  ℕ, ◌<◌, ◌≡◌, refl, subst, ◌⊎◌, inl, inr, true, List, [], ◌∷◌, arith, ltb, ◌==◌, Bool-cases,
  length, All,
}
use shovel_server.Ring.{Op}
use shovel_server.Ring.Fifo
use shovel_server.Ring.Inv.{Represents}
use shovel_server.Subprocess.{
  Subprocess, Round, exits, Drained, drained, draining, fails, loop_round, after_round, loop,
}
use shovel_server.Subprocess.Plan.{Plan, cut, by_exit, plan, plan_if_any, plan_round, plan_loop}
use shovel_server.Subprocess.Draining.{Follows, loop_round-Follows, meanwhile-Represents}
use shovel_server.Subprocess.Looping.{RoundFits, Reached, LoopFollows, loop-LoopFollows}

-- In one of the rounds getppid answers less than 2.
abbrev pub HasOrphan : List Round → Type 0
HasOrphan [] = ⊥
HasOrphan (r ∷ rest) = (r.parent < 2) ⊎ HasOrphan rest

abbrev pub IsNothing : List Op → Type 0
IsNothing ops = ops ≡ []

-- While the inner loop runs nobody else calls, and it may go on for longer than the ring has cells.
abbrev pub IsQuiet : ℕ → Round → Type 0
IsQuiet count r = (count < length r.gets) × All IsNothing r.gets

plan_stops :
    (count : ℕ) (gets : List (List Op)) (ms : List (List ℕ))
    → All IsNothing gets
    → length ms < length gets
    → (plan count gets ms).has_stopped ≡ true
unfolding plan Fifo.run
plan_stops count [] ms q l = absurd (omega (arith, l))
plan_stops count (ops ∷ rest) [] (e, q) l = rw e refl
plan_stops count (ops ∷ rest) (m ∷ ms) (e, q) l = elim (Bool-cases (length (cut m) == 0)) [
  | inl z ↦ rw (plan, e, z) refl
  | inr z ↦ rw (plan, e, z) (plan_stops count rest ms q (omega (arith, l)))
]

round_stops :
    (count : ℕ) (gets : List (List Op)) (ms : List (List ℕ))
    → All IsNothing gets
    → length ms < length gets
    → (plan_if_any count gets ms).has_stopped ≡ true
round_stops count gets [] q l = refl
round_stops count gets (m ∷ ms) q l = plan_stops count gets (m ∷ ms) q l

round_exits :
    (count : ℕ) (s : Subprocess) (p : Plan) (rest : List Round) (o : Drained)
    → Follows count s p o
    → p.has_stopped ≡ true
    → ((s' : Subprocess)
        → Represents s'.ring p.pending
        → s'.ring.total_count ≡ count
        → (t : Subprocess) × (loop rest s' ≡ exits t))
    → (t : Subprocess) × (after_round (loop rest) o ≡ exits t)
round_exits count s p rest (drained s') (h, f, r, t) e k = k s' r t
round_exits count s p rest (draining s') (h, f, r, t) e k = absurd cc
round_exits count s p rest fails h e k = absurd h

loop_exits :
    (rounds : List Round) (count : ℕ) (ms : List (List ℕ)) (s : Subprocess)
    → Represents s.ring ms
    → s.ring.total_count ≡ count
    → All RoundFits rounds
    → All (IsQuiet count) rounds
    → HasOrphan rounds
    → (t : Subprocess) × (loop rounds s ≡ exits t)
unfolding loop
loop_exits [] count ms s r t fs qs o = absurd o
loop_exits (x ∷ rest) count ms s r t ((f, f'), fs) ((l, q), qs) o =
    elim (Bool-cases (ltb x.parent 2)) [
      | inl h ↦ (s, rw (loop, h) refl)
      | inr h ↦
          let later : HasOrphan rest = elim o [
            | inl g ↦ absurd (ground (arith, h, g))
            | inr o' ↦ o'
          ] in
          let now = (Fifo.run count ms x.before).1 in
          let (r', t') = meanwhile-Represents s x.before ms count r t f in
          let stops = round_stops count x.gets now q (omega (arith, r'.bounded, t', l)) in
          let (u, e) =
            round_exits count s (plan_round count x.before x.gets ms) rest
              (loop_round x.before x.gets s)
              (loop_round-Follows x.before x.gets count ms s r t f f') stops
              (λ s' r'' t''.
                loop_exits rest count (plan_round count x.before x.gets ms).pending s' r'' t'' fs qs
                  later) in
          (u, rw (loop, h) e)
    ]

-- A subprocess whose parent has gone ends. The loop runs over a ring of `count` cells that holds `ms`,
-- whatever others do before a round; when none calls while the inner loop runs, which may go on for
-- longer than the ring has cells, and in one of the rounds getppid answers less than 2, the loop ends
-- the process by exit(0), after the datagrams that the rounds before take from a plain queue.
pub orphan_exits :
    (rounds : List Round) (count : ℕ) (ms : List (List ℕ)) (s : Subprocess)
    → Represents s.ring ms
    → s.ring.total_count ≡ count
    → All RoundFits rounds
    → All (IsQuiet count) rounds
    → HasOrphan rounds
    → (t : Subprocess) × (loop rounds s ≡ exits t)
      × Reached count s (plan_loop count rounds ms) by_exit t
orphan_exits rounds count ms s r t fs qs o =
    let (u, e) = loop_exits rounds count ms s r t fs qs o in
    (
      u,
      e,
      subst (LoopFollows count s (plan_loop count rounds ms)) e
          (loop-LoopFollows rounds count ms s r t fs),
    )
