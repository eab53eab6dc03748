-- ===== src/Subprocess/Starving.antt =====
-- What the queue for reading of a subprocess does to it.
use shovel_server.Base.{
  ℕ, ◌≡◌, refl, ap, ◌∙◌, inl, inr, false, some, List, [], ◌∷◌, ltb, if◌then◌else◌, Bool-cases, All,
}
use shovel_server.SizedArray.{SizedArray}
use shovel_server.Ring
use shovel_server.Ring.{Op, Reply, run}
use shovel_server.Decorators
use shovel_server.Decorators.{World, waits, contains, disturb}
use shovel_server.Decorators.Deadlock.{block_write_never_returns}
use shovel_server.Subprocess.{
  Subprocess, q_for_reading_from_source, new_ring, queue_count_bags, drained, loop_round, meanwhile,
  loop, Round, exits, goes_on, Looped, init,
}

reading_put_waits :
    (ops : List Op) (rs : List Reply) (buf : List ℕ) (n : ℕ) (w : World)
    → run new_ring ops ≡ some (rs, w.ring)
    → contains 1 w.held ≡ false
    → (w' : World) × (Decorators.put q_for_reading_from_source buf n w ≡ waits w')
unfolding new_ring Decorators.put q_for_reading_from_source
reading_put_waits ops rs buf n w e free =
    block_write_never_returns queue_count_bags 65535 ops rs (Decorators.fresh_syncs 1) [] buf n w e
      free

idle_round :
    (gets : List (List Op)) (s : Subprocess)
    → Ring.size s.ring ≡ 0
    → loop_round [] gets s ≡ drained s
unfolding loop_round meanwhile disturb Decorators.size q_for_reading_from_source run Ring.size
idle_round gets s e = rw e refl

-- Rounds in which nobody else has touched the ring when its size is read.
abbrev pub IsUntouched : Round → Type 0
IsUntouched r = r.before ≡ []

-- How the loop stands when it has done nothing: the parent has gone in one of the rounds, or not.
abbrev pub idle : List Round → Subprocess → Looped
idle [] s = goes_on s
idle (r ∷ rest) s = if ltb r.parent 2 then exits s else idle rest s

loop-idle :
    (rounds : List Round) (s : Subprocess)
    → Ring.size s.ring ≡ 0
    → All IsUntouched rounds
    → loop rounds s ≡ idle rounds s
unfolding loop
loop-idle [] s e u = refl
loop-idle (r ∷ rest) s e (b, u) =
    let first : loop_round r.before r.gets s ≡ drained s =
      ap (λ b. loop_round b r.gets s) b ∙ idle_round r.gets s e in
    elim (Bool-cases (ltb r.parent 2)) [
      | inl h ↦ rw (loop, h) refl
      | inr h ↦ rw (loop, h, first) (loop-idle rest s e u)
    ]

-- A new subprocess gets nothing. A put into its queue for reading, which its reading thread makes for
-- a datagram that it has parsed, never returns, whatever other calls have done to the ring; and over
-- any rounds in which nobody else has touched the ring the loop processes no datagram: it ends the
-- process when the parent has gone, and else goes on.
pub subprocess_starves :
    (ops : List Op) (rs : List Reply) (buf : List ℕ) (n : ℕ) (w : World) (arr : SizedArray)
    (rounds : List Round)
    → run new_ring ops ≡ some (rs, w.ring)
    → contains 1 w.held ≡ false
    → All IsUntouched rounds
    → ((w' : World) × (Decorators.put q_for_reading_from_source buf n w ≡ waits w'))
      × (loop rounds (init arr) ≡ idle rounds (init arr))
unfolding init new_ring Ring.init Ring.size
subprocess_starves ops rs buf n w arr rounds e free u =
    (reading_put_waits ops rs buf n w e free, loop-idle rounds (init arr) refl u)
