-- ===== src/Worker/Life/Ending.antt =====
-- How a worker ends, once it is asked to stop or one of its threads has ended.
use shovel_server.Base.{
  ℕ, suc, ◌+◌, ◌-◌, ◌≤◌, ◌<◌, ◌≡◌, refl, ◌⊎◌, inl, inr, Bool, true, false, arith,
}
use shovel_server.Worker.Life.{
  ThreadPc, absent, looks, works, leaves, gone, GuardPc, no_guard, creates_reader, creates_writer,
  joins_reader, joins_writer, tells_stopped, calls_back, ended, OwnerPc, alive, source_gone,
  stop_called, destroyed, Life, look, Internal, Reach,
}
use shovel_server.Worker.Life
use shovel_server.Worker.Life.Invariant.{phase, Inv, Internal-Inv, Reach-Inv}

-- A worker that was started, and was asked to stop or has lost a thread.
abbrev pub IsEnding : Life → Type 0
IsEnding s =
    (1 ≤ phase s.guard)
    × ((s.stop_asked ≡ true) ⊎ (s.read_thread_alive ≡ false) ⊎ (s.write_thread_alive ≡ false))

-- How many steps a thread and the guard have before them at most.
abbrev thread_rank : ThreadPc → ℕ
thread_rank absent = 5
thread_rank works = 4
thread_rank looks = 3
thread_rank leaves = 1
thread_rank gone = 0

abbrev rank : Life → ℕ
rank s = thread_rank s.reader + thread_rank s.writer + (7 - phase s.guard)

Internal-descends :
    {s t : Life} → Internal s t → Inv s → IsEnding s → IsEnding t × (rank t < rank s)
unfolding look
Internal-descends (Life.reader_looks e) inv h = ground arith
Internal-descends (Life.reader_returns e) inv h = ground arith
Internal-descends (Life.reader_breaks e) inv h = ground arith
Internal-descends (Life.reader_ends e) inv h = ground arith
Internal-descends (Life.writer_looks e) inv h = ground arith
Internal-descends (Life.writer_returns e) inv h = ground arith
Internal-descends (Life.writer_breaks e) inv h = ground arith
Internal-descends (Life.writer_ends e) inv h = ground arith
Internal-descends (Life.guard_creates_reader e) inv h = ground arith
Internal-descends (Life.guard_creates_writer e) inv h = ground arith
Internal-descends (Life.guard_joins_reader e f) inv h = ground arith
Internal-descends (Life.guard_joins_writer e f) inv h = ground arith
Internal-descends (Life.guard_tells e) inv h = ground arith
Internal-descends (Life.guard_calls e) inv h = ground arith
Internal-descends (Life.guard_destroys e f) inv h = ground arith

-- Steps of the threads alone, `k` of them.
pub data Run (s : Life) : ℕ → Life → Type 0 where
  none_yet : Run s 0 s
  one_more : {k : ℕ} {t u : Life} → Run s k t → Internal t u → Run s (suc k) u

Run-bounded :
    {s t : Life} {k : ℕ}
    → Run s k t
    → Inv s
    → IsEnding s
    → Inv t × IsEnding t × (rank t + k ≤ rank s)
Run-bounded none_yet inv h = (inv, h, omega arith)
Run-bounded (one_more r i) inv h =
    let (inv', h', l) = Run-bounded r inv h in
    let (h'', d) = Internal-descends i inv' h' in (Internal-Inv i inv', h'', omega arith)

rank-le : (s : Life) → IsEnding s → rank s ≤ 16
rank-le s h = ground arith

-- Some thread can make a step.
abbrev pub CanStep : Life → Type 0
CanStep s = (t : Life) × Internal s t

reader_steps : (s : Life) (p : ThreadPc) → s.reader ≡ p → (p ≡ absent) ⊎ (p ≡ gone) ⊎ CanStep s
reader_steps s absent e = inl refl
reader_steps s gone e = inr (inl refl)
reader_steps s looks e = inr (inr (_, Life.reader_looks e))
reader_steps s works e = inr (inr (_, Life.reader_breaks e))
reader_steps s leaves e = inr (inr (_, Life.reader_ends e))

writer_steps : (s : Life) (p : ThreadPc) → s.writer ≡ p → (p ≡ absent) ⊎ (p ≡ gone) ⊎ CanStep s
writer_steps s absent e = inl refl
writer_steps s gone e = inr (inl refl)
writer_steps s looks e = inr (inr (_, Life.writer_looks e))
writer_steps s works e = inr (inr (_, Life.writer_breaks e))
writer_steps s leaves e = inr (inr (_, Life.writer_ends e))

-- While the guard has not ended, the guard can step, or the thread that it waits for can.
progress : (s : Life) (g : GuardPc) → s.guard ≡ g → Inv s → IsEnding s → (g ≡ ended) ⊎ CanStep s
progress s no_guard e inv h = absurd (ground arith)
progress s creates_reader e inv h = inr (_, Life.guard_creates_reader e)
progress s creates_writer e inv h = inr (_, Life.guard_creates_writer e)
progress s joins_reader e inv h = elim (reader_steps s s.reader refl) [
  | inl a ↦ absurd (ground arith)
  | inr (inl f) ↦ inr (_, Life.guard_joins_reader e f)
  | inr (inr steps) ↦ inr steps
]
progress s joins_writer e inv h = elim (writer_steps s s.writer refl) [
  | inl a ↦ absurd (ground arith)
  | inr (inl f) ↦ inr (_, Life.guard_joins_writer e f)
  | inr (inr steps) ↦ inr steps
]
progress s tells_stopped e inv h = inr (_, Life.guard_tells e)
progress s calls_back e inv h = inr (_, Life.guard_calls e)
progress s ended e inv h = inl refl

-- From every state that a worker can come to, started and asked to stop, or with one of its threads
-- ended, its threads make at most 16 steps, whatever their order, where a round of a loop is one; and
-- as long as the callback has not been called, some thread can make the next. So if every round
-- returns, both threads end, and the callback is called once.
pub stop_ends :
    {reading writing : Bool} {s t : Life} {k : ℕ}
    → Reach reading writing s
    → IsEnding s
    → Run s k t
    → (k ≤ 16) × (((t.guard ≡ ended) × (t.callbacks ≡ 1)) ⊎ CanStep t)
stop_ends {s = s} {t = t} r h run =
    let (inv, h', l) = Run-bounded run (Reach-Inv r) h in
    (omega (arith, rank-le s h), by_progress inv (progress t t.guard refl inv h'))
  where
    by_progress :
        Inv t → (t.guard ≡ ended) ⊎ CanStep t → ((t.guard ≡ ended) × (t.callbacks ≡ 1)) ⊎ CanStep t
    by_progress inv (inl e) = inl (e, ground arith)
    by_progress inv (inr steps) = inr steps
