-- ===== src/Subprocess/Looping.antt =====
-- `AbstractSubprocess::loop` over all its rounds, up to the one in which the parent has gone.
use shovel_server.Base.{
  ℕ, ◌≡◌, refl, sym, ap, ◌∙◌, inl, inr, List, [], ◌∷◌, ◌++◌, append_assoc, append-nil, ltb,
  Bool-cases, All,
}
use shovel_server.Ring.Inv.{Represents}
use shovel_server.Ring.Refine.{IsFit}
use shovel_server.Subprocess.{
  Subprocess, Round, Looped, exits, goes_on, stays, breaks, Drained, drained, draining, fails,
  loop_round, after_round, loop,
}
use shovel_server.Subprocess.Plan.{
  Plan, Ending, by_exit, by_rounds, in_round, LoopPlan, goes_through, plan_round, plan_loop,
}
use shovel_server.Subprocess.Draining.{Follows, loop_round-Follows}

-- What other threads pass to the ring in a round.
abbrev pub RoundFits : Round → Type 0
RoundFits r = All IsFit r.before × All (All IsFit) r.gets

abbrev pub Reached : ℕ → Subprocess → LoopPlan → Ending → Subprocess → Type 0
Reached count s p e s' =
    (p.ending ≡ e)
    × (s'.processed ≡ s.processed ++ p.processing)
    × Represents s'.ring p.pending
    × (s'.ring.total_count ≡ count)

-- What has been done of the plan when the loop ends.
abbrev pub LoopFollows : ℕ → Subprocess → LoopPlan → Looped → Type 0
LoopFollows count s p (exits s') = Reached count s p by_exit s'
LoopFollows count s p (goes_on s') = Reached count s p by_rounds s'
LoopFollows count s p (stays s') = Reached count s p in_round s'
LoopFollows count s p breaks = ⊥

Reached-extend :
    (count : ℕ) (s s' s'' : Subprocess) (x : List (List ℕ)) (p : LoopPlan) (e : Ending)
    → s'.processed ≡ s.processed ++ x
    → Reached count s' p e s''
    → Reached count s (record p { processing = x ++ p.processing }) e s''
Reached-extend count s s' s'' x p e h (k, f, r, t) =
    (k, f ∙ (ap (λ y. y ++ p.processing) h ∙ append_assoc s.processed x p.processing), r, t)

LoopFollows-extend :
    (count : ℕ) (s s' : Subprocess) (x : List (List ℕ)) (p : LoopPlan) (o : Looped)
    → s'.processed ≡ s.processed ++ x
    → LoopFollows count s' p o
    → LoopFollows count s (record p { processing = x ++ p.processing }) o
LoopFollows-extend count s s' x p (exits w) h k = Reached-extend count s s' w x p by_exit h k
LoopFollows-extend count s s' x p (goes_on w) h k = Reached-extend count s s' w x p by_rounds h k
LoopFollows-extend count s s' x p (stays w) h k = Reached-extend count s s' w x p in_round h k
LoopFollows-extend count s s' x p breaks h k = k

-- A round that has stopped, or not, and the rounds behind it.
round_then :
    (count : ℕ) (rest : List Round) (s : Subprocess) (p : Plan) (next : LoopPlan) (o : Drained)
    → Follows count s p o
    → ((s' : Subprocess)
        → Represents s'.ring p.pending
        → s'.ring.total_count ≡ count
        → LoopFollows count s' next (loop rest s'))
    → LoopFollows count s (goes_through p next) (after_round (loop rest) o)
round_then count rest s p next (drained s') (h, f, r, t) k =
    rw h (LoopFollows-extend count s s' p.processing next (loop rest s') f (k s' r t))
round_then count rest s p next (draining s') (h, f, r, t) k = rw h (refl, f, r, t)
round_then count rest s p next fails h k = absurd h

-- The loop over any rounds, over a ring of `count` cells that holds `ms`, whatever calls others make
-- meanwhile: until a round in which getppid answers less than 2 it hands datagram_processor what the
-- rounds over a plain queue take from it, in order and each message once, and in that round it ends the
-- process, with the messages that are left still in the ring. No call fails.
pub loop-LoopFollows :
    (rounds : List Round) (count : ℕ) (ms : List (List ℕ)) (s : Subprocess)
    → Represents s.ring ms
    → s.ring.total_count ≡ count
    → All RoundFits rounds
    → LoopFollows count s (plan_loop count rounds ms) (loop rounds s)
unfolding loop plan_loop
loop-LoopFollows [] count ms s r t f = (refl, sym (append-nil s.processed), r, t)
loop-LoopFollows (x ∷ rest) count ms s r t ((f, f'), fs) = elim (Bool-cases (ltb x.parent 2)) [
  | inl h ↦ rw (loop, h) (refl, sym (append-nil s.processed), r, t)
  | inr h ↦
      let p = plan_round count x.before x.gets ms in
      let k =
        round_then count rest s p (plan_loop count rest p.pending) (loop_round x.before x.gets s)
          (loop_round-Follows x.before x.gets count ms s r t f f')
          (λ s' r' t'. loop-LoopFollows rest count p.pending s' r' t' fs) in
      rw (loop, h) k
]
