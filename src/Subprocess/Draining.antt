-- ===== src/Subprocess/Draining.antt =====
-- `AbstractSubprocess::loop` takes from the ring what a loop over a plain queue takes.
use shovel_server.Base.{
  ℕ, min, ◌≡◌, refl, sym, ap, ◌∙◌, subst, inl, inr, true, false, List, [], ◌∷◌, ◌++◌, append_assoc,
  append-nil, arith, ◌==◌, ne→==, Bool-cases, length, All, length-take, take-take, memcpy,
}
use shovel_server.SizedArray.{resize, array_size, contents-resize}
use shovel_server.Ring
use shovel_server.Ring.{RingQueue, Op}
use shovel_server.Ring.Fifo
use shovel_server.Ring.Inv.{Represents}
use shovel_server.Ring.Refine.{IsFit, get_message, get_none, run_refines_at}
use shovel_server.Decorators
use shovel_server.Decorators.{World, returns, disturb, settle, regroup, notify_one}
use shovel_server.Subprocess.Plan.{cut, Plan, stop_with, processes, plan, plan_if_any, plan_round}
use shovel_server.Subprocess.{
  Subprocess, get_datagram, Drained, drained, draining, fails, meanwhile, process, drain,
  loop_round, q_for_reading_from_source,
}

-- What has been done of a plan, with a ring of `count` cells.
abbrev pub Follows : ℕ → Subprocess → Plan → Drained → Type 0
Follows count s p (drained s') =
    (p.has_stopped ≡ true)
    × (s'.processed ≡ s.processed ++ p.processing)
    × Represents s'.ring p.pending
    × (s'.ring.total_count ≡ count)
Follows count s p (draining s') =
    (p.has_stopped ≡ false)
    × (s'.processed ≡ s.processed ++ p.processing)
    × Represents s'.ring p.pending
    × (s'.ring.total_count ≡ count)
Follows count s p fails = ⊥

get_datagram_some :
    (s : Subprocess) (m : List ℕ) (ms : List (List ℕ)) (count : ℕ)
    → Represents s.ring (m ∷ ms)
    → s.ring.total_count ≡ count
    → (w : World) × (get_datagram s
        ≡ returns
            (min array_size (length m), memcpy s.arr.elements m (min array_size (length m)))
            w)
      × Represents w.ring ms
      × (w.ring.total_count ≡ count)
unfolding get_datagram notify_one
get_datagram_some s m ms count r t =
    let (q, e, r', t') = get_message s.ring m ms s.arr.elements array_size r (omega arith) in
    (
      record { ring = q; wakeups = []; held = []; notified = 1 ∷ [] },
      rw (e, settle) refl,
      r',
      t' ∙ t,
    )

get_datagram_none :
    (s : Subprocess) (count : ℕ)
    → Represents s.ring []
    → s.ring.total_count ≡ count
    → (w : World) × (get_datagram s ≡ returns (0, s.arr.elements) w)
      × Represents w.ring []
      × (w.ring.total_count ≡ count)
unfolding get_datagram notify_one
get_datagram_none s count r t =
    let (q, e, r', t') = get_none s.ring s.arr.elements array_size r in
    (
      record { ring = q; wakeups = []; held = []; notified = 1 ∷ [] },
      rw (e, settle) refl,
      r',
      t' ∙ t,
    )

-- What others do between two calls.
pub meanwhile-Represents :
    (s : Subprocess) (ops : List Op) (ms : List (List ℕ)) (count : ℕ)
    → Represents s.ring ms
    → s.ring.total_count ≡ count
    → All IsFit ops
    → Represents (meanwhile s ops).ring (Fifo.run count ms ops).1
      × ((meanwhile s ops).ring.total_count ≡ count)
unfolding meanwhile disturb
meanwhile-Represents s ops ms count r t f =
    let (q, e, r', t') = run_refines_at ops count s.ring ms t r f in rw (disturb, e) (r', t')

memcpy-cut :
    (dst m : List ℕ)
    → memcpy dst m (min array_size (length m)) ≡ memcpy dst (cut m) (length (cut m))
unfolding memcpy
memcpy-cut dst m =
    let k : length (cut m) ≡ min array_size (length m) = length-take array_size m in
    rw (k, take-take (min array_size (length m)) array_size m (omega arith)) refl

process-cut :
    (s : Subprocess) (q : RingQueue) (m : List ℕ)
    → let k = min array_size (length m) in
      (process s q k (memcpy s.arr.elements m k)).processed ≡ s.processed ++ cut m ∷ []
unfolding process
process-cut s q m =
    let k : min array_size (length m) ≡ length (cut m) = sym (length-take array_size m) in
    rw (memcpy-cut s.arr.elements m, k)
      (ap (λ c. s.processed ++ c ∷ [])
        (unfold resize in contents-resize s.arr (cut m) (omega (arith, length-take array_size m))))

-- A message that is processed, and what comes after it.
Follows-extend :
    (count : ℕ) (s s' : Subprocess) (m : List ℕ) (p : Plan) (o : Drained)
    → s'.processed ≡ s.processed ++ m ∷ []
    → Follows count s' p o
    → Follows count s (processes m p) o
Follows-extend count s s' m p (drained w) e (h, f, r, t) =
    (h, f ∙ (ap (λ t. t ++ p.processing) e ∙ append_assoc s.processed (m ∷ []) p.processing), r, t)
Follows-extend count s s' m p (draining w) e (h, f, r, t) =
    (h, f ∙ (ap (λ t. t ++ p.processing) e ∙ append_assoc s.processed (m ∷ []) p.processing), r, t)
Follows-extend count s s' m p fails e h = h

module _ (count : ℕ) (rest : List (List Op)) (s : Subprocess) (ops : List Op) where
  -- What the round comes to, by the messages that are there when `get` is called.
  drain_none :
      Represents (meanwhile s ops).ring []
      → (meanwhile s ops).ring.total_count ≡ count
      → Follows count s (stop_with []) (drain (ops ∷ rest) s)
  unfolding drain meanwhile
  drain_none r t =
      let (w, e, r', t') = get_datagram_none (meanwhile s ops) count r t in
      rw (drain, e) (refl, sym (append-nil s.processed), r', t')

  drain_empty :
      (m : List ℕ) (ms : List (List ℕ))
      → Represents (meanwhile s ops).ring (m ∷ ms)
      → (meanwhile s ops).ring.total_count ≡ count
      → (length (cut m) == 0) ≡ true
      → Follows count s (stop_with ms) (drain (ops ∷ rest) s)
  unfolding drain meanwhile
  drain_empty m ms r t z =
      let (w, e, r', t') = get_datagram_some (meanwhile s ops) m ms count r t in
      let z' : (min array_size (length m) == 0) ≡ true = rw⁻¹ (length-take array_size m) z in
      rw (drain, e, z') (refl, sym (append-nil s.processed), r', t')

  drain_message :
      (m : List ℕ) (ms : List (List ℕ)) (p : Plan)
      → Represents (meanwhile s ops).ring (m ∷ ms)
      → (meanwhile s ops).ring.total_count ≡ count
      → (length (cut m) == 0) ≡ false
      → ((s' : Subprocess)
          → Represents s'.ring ms
          → s'.ring.total_count ≡ count
          → Follows count s' p (drain rest s'))
      → Follows count s (processes (cut m) p) (drain (ops ∷ rest) s)
  unfolding drain meanwhile process
  drain_message m ms p r t z f =
      let (w, e, r', t') = get_datagram_some (meanwhile s ops) m ms count r t in
      let k = min array_size (length m) in
      let s' : Subprocess = process s w.ring k (memcpy s.arr.elements m k) in
      let z' : (min array_size (length m) == 0) ≡ false = rw⁻¹ (length-take array_size m) z in
      let next : drain (ops ∷ rest) s ≡ drain rest s' = rw (drain, e, z') refl in
      subst (Follows count s (processes (cut m) p)) (sym next)
        (Follows-extend count s s' (cut m) p (drain rest s') (process-cut s w.ring m) (f s' r' t'))

-- A round by the messages that the plan sees.
drain_round :
    (count : ℕ) (ops : List Op) (rest : List (List Op)) (ms now : List (List ℕ)) (s : Subprocess)
    → (Fifo.run count ms ops).1 ≡ now
    → Represents (meanwhile s ops).ring now
    → (meanwhile s ops).ring.total_count ≡ count
    → ((ms' : List (List ℕ)) (s' : Subprocess)
        → Represents s'.ring ms'
        → s'.ring.total_count ≡ count
        → Follows count s' (plan count rest ms') (drain rest s'))
    → Follows count s (plan count (ops ∷ rest) ms) (drain (ops ∷ rest) s)
unfolding plan
drain_round count ops rest ms [] s e r t f = rw (plan, e) (drain_none count rest s ops r t)
drain_round count ops rest ms (m ∷ ms') s e r t f = elim (Bool-cases (length (cut m) == 0)) [
  | inl z ↦
      let p : plan count (ops ∷ rest) ms ≡ stop_with ms' = rw (plan, e, z) refl in
      subst (λ p. Follows count s p (drain (ops ∷ rest) s)) (sym p)
        (drain_empty count rest s ops m ms' r t z)
  | inr z ↦
      let p : plan count (ops ∷ rest) ms ≡ processes (cut m) (plan count rest ms') =
        rw (plan, e, z) refl in
      subst (λ p. Follows count s p (drain (ops ∷ rest) s)) (sym p)
        (drain_message count rest s ops m ms' (plan count rest ms') r t z (f ms'))
]

drain-Follows :
    (gets : List (List Op)) (count : ℕ) (ms : List (List ℕ)) (s : Subprocess)
    → Represents s.ring ms
    → s.ring.total_count ≡ count
    → All (All IsFit) gets
    → Follows count s (plan count gets ms) (drain gets s)
unfolding plan drain
drain-Follows [] count ms s r t f = (refl, sym (append-nil s.processed), r, t)
drain-Follows (ops ∷ rest) count ms s r t f =
    let (r', t') = meanwhile-Represents s ops ms count r t f.0 in
    drain_round count ops rest ms (Fifo.run count ms ops).1 s refl r' t'
      (λ ms' s' r'' t''. drain-Follows rest count ms' s' r'' t'' f.1)

loop_by_size :
    (count : ℕ) (before : List Op) (gets : List (List Op)) (ms : List (List ℕ)) (s : Subprocess)
    → Represents (meanwhile s before).ring ms
    → (meanwhile s before).ring.total_count ≡ count
    → All (All IsFit) gets
    → Follows count s (plan_if_any count gets ms) (loop_round before gets s)
unfolding loop_round meanwhile Decorators.size q_for_reading_from_source Ring.size
loop_by_size count before gets [] s r t f =
    rw (loop_round, r.counted) (refl, sym (append-nil s.processed), r, t)
loop_by_size count before gets (m ∷ ms) s r t f =
    let z : ((meanwhile s before).ring.base.size == 0) ≡ false =
      ne→== (meanwhile s before).ring.base.size 0 (omega (arith, r.counted)) in
    rw (loop_round, z) (drain-Follows gets count (m ∷ ms) (meanwhile s before) r t f)

-- A round of the loop, over a ring of `count` cells that holds `ms`, whatever calls others make before
-- and between its own: it hands datagram_processor the messages of the queue, in order and each once,
-- cut to the size of its array, until it finds the queue empty or takes a message of no bytes; the
-- ring is left with the messages behind. No call fails.
pub loop_round-Follows :
    (before : List Op) (gets : List (List Op)) (count : ℕ) (ms : List (List ℕ)) (s : Subprocess)
    → Represents s.ring ms
    → s.ring.total_count ≡ count
    → All IsFit before
    → All (All IsFit) gets
    → Follows count s (plan_round count before gets ms) (loop_round before gets s)
loop_round-Follows before gets count ms s r t g f =
    let (r', t') = meanwhile-Represents s before ms count r t g in
    loop_by_size count before gets (Fifo.run count ms before).1 s r' t' f
