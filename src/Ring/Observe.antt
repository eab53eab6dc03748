-- ===== src/Ring/Observe.antt =====
-- What a caller can learn of a ring of src/containers/RingQueue.cpp by calling it.
use mathlib.Core.Logic.{◌↔◌}
use shovel_server.Base.{
  ℕ, ◌^◌, ◌<◌, min, ◌≡◌, refl, sym, ap, ◌∙◌, subst, Option, none, some, List, [], ◌∷◌, append-nil,
  arith, Option-cases, length, drop, replicate, All, length-replicate, drop-length, take_all,
  memcpy,
}
use shovel_server.Ring.{
  RingQueue, Op, put_op, get_op, peek_op, Reply, step, put, get, peek, ok, full, empty, Status,
  get_status, size, capacity,
}
use shovel_server.Ring.Capacity.{capacity-step}
use shovel_server.Ring.Fifo
use shovel_server.Ring.Inv.{Represents}
use shovel_server.Ring.Refine.{IsFit, step_refines_at}

-- A message that a caller can pass: its size is a uint16_t.
abbrev pub IsShort : List ℕ → Type 0
IsShort m = length m < 2 ^ 16

-- A call of a public method: `put`, `get` and `peek`, or one of those that only look.
pub data Call : Type 0 where
  calls : Op → Call
  asks_status asks_size asks_capacity : Call

-- What the caller sees of it.
pub data Seen : Type 0 where
  replied : Reply → Seen
  status_is : Status → Seen
  size_is capacity_is : ℕ → Seen

abbrev pub IsFitCall : Call → Type 0
IsFitCall (calls op) = IsFit op
IsFitCall _ = Unit

unfoldable pub answer : RingQueue → Call → Option (Seen × RingQueue)
answer q (calls op) = elim (step q op) [ none ↦ none | some (r, q') ↦ some (replied r, q') ]
answer q asks_status = some (status_is (get_status q), q)
answer q asks_size = some (size_is (size q), q)
answer q asks_capacity = some (capacity_is (capacity q), q)

-- What a caller sees of some calls, one after another.
unfoldable pub answers : RingQueue → List Call → Option (List Seen)
unfolding answer
answers q [] = some []
answers q (c ∷ cs) = elim (answer q c) [
  | none ↦ none
  | some (x, q') ↦ elim (answers q' cs) [ none ↦ none | some xs ↦ some (x ∷ xs) ]
]

-- No calls tell the two rings apart.
abbrev pub SameReplies : RingQueue → RingQueue → Type 0
SameReplies q q' = (cs : List Call) → All IsFitCall cs → answers q cs ≡ answers q' cs

-- The same of a list of messages, a status and a capacity, in place of a ring of `count` cells.
abbrev Known : Type 0
Known = List (List ℕ) × Status × ℕ

told : ℕ → Known → Call → Seen × Known
told count (ms, st, cap) (calls op) =
    let (r, ms') = Fifo.step count ms op in (replied r, (ms', r.2, cap))
told count (ms, st, cap) asks_status = (status_is st, (ms, st, cap))
told count (ms, st, cap) asks_size = (size_is (length ms), (ms, st, cap))
told count (ms, st, cap) asks_capacity = (capacity_is cap, (ms, st, cap))

tells : ℕ → Known → List Call → List Seen
unfolding told
tells count x [] = []
tells count x (c ∷ cs) = let (seen, x') = told count x c in seen ∷ tells count x' cs

abbrev SameTold : ℕ → Known → Known → Type 0
SameTold count x y = (cs : List Call) → All IsFitCall cs → tells count x cs ≡ tells count y cs

-- A ring of `count` cells is in the state.
abbrev IsIn : ℕ → RingQueue → Known → Type 0
IsIn count q (ms, st, cap) =
    (q.total_count ≡ count) × Represents q ms × (get_status q ≡ st) × (capacity q ≡ cap)

status-put :
    (q : RingQueue) (buf : List ℕ) (n : ℕ) {r : Reply} {q' : RingQueue}
    → step q (put_op buf n) ≡ some (r, q')
    → get_status q' ≡ r.2
unfolding step get_status
status-put q buf n e = ground (arith, Option-cases (put q buf n))

status-get :
    (q : RingQueue) (buf : List ℕ) (n : ℕ) {r : Reply} {q' : RingQueue}
    → step q (get_op buf n) ≡ some (r, q')
    → get_status q' ≡ r.2
unfolding step get_status
status-get q buf n e = ground (arith, Option-cases (get q buf n))

status-peek :
    (q : RingQueue) (buf : List ℕ) (n : ℕ) {r : Reply} {q' : RingQueue}
    → step q (peek_op buf n) ≡ some (r, q')
    → get_status q' ≡ r.2
unfolding step get_status
status-peek q buf n e = ground (arith, Option-cases (peek q buf n))

status-step :
    (q : RingQueue) (op : Op) {r : Reply} {q' : RingQueue}
    → step q op ≡ some (r, q')
    → get_status q' ≡ r.2
status-step q (put_op buf n) e = status-put q buf n e
status-step q (get_op buf n) e = status-get q buf n e
status-step q (peek_op buf n) e = status-peek q buf n e

answer-told :
    (count : ℕ) (q : RingQueue) (x : Known) (c : Call)
    → IsIn count q x
    → IsFitCall c
    → (q' : RingQueue) × (answer q c ≡ some ((told count x c).0, q'))
      × IsIn count q' (told count x c).1
unfolding answer told size
answer-told count q (ms, st, cap) (calls op) (t, r, s, k) f =
    let (q', e, r', t') = step_refines_at op count q ms t r f in
    (q', rw (answer, e) refl, (t', r', status-step q op e, capacity-step q op e ∙ k))
answer-told count q (ms, st, cap) asks_status (t, r, s, k) f = (q, rw s refl, (t, r, s, k))
answer-told count q (ms, st, cap) asks_size (t, r, s, k) f = (q, rw (r.counted) refl, (t, r, s, k))
answer-told count q (ms, st, cap) asks_capacity (t, r, s, k) f = (q, rw k refl, (t, r, s, k))

answers-tells :
    (cs : List Call) (count : ℕ) (q : RingQueue) (x : Known)
    → IsIn count q x
    → All IsFitCall cs
    → answers q cs ≡ some (tells count x cs)
unfolding answers tells
answers-tells [] count q x i f = refl
answers-tells (c ∷ cs) count q x i (f, fs) =
    let (q', e, i') = answer-told count q x c i f in
    rw (answers, e, answers-tells cs count q' (told count x c).1 i' fs) refl

abbrev asks_for : ℕ → Call
asks_for n = calls (get_op (replicate n 0) n)

asks_for-IsFit : (n : ℕ) → n < 2 ^ 16 → IsFitCall (asks_for n)
asks_for-IsFit n h = let zero : ℕ = 0 in (omega (arith, length-replicate n zero), h)

abbrev first_reply : List Seen → ℕ × List ℕ × Status
first_reply (replied r ∷ xs) = r
first_reply _ = (0, [], full)

abbrev first_status : List Seen → Status
first_status (status_is s ∷ xs) = s
first_status _ = ok

abbrev first_capacity : List Seen → ℕ
first_capacity (capacity_is n ∷ xs) = n
first_capacity _ = 0

one_reply :
    (count : ℕ) (m : List ℕ) (ms : List (List ℕ)) (s : Status) (cap n : ℕ)
    → first_reply (tells count (m ∷ ms, s, cap) (asks_for n ∷ []))
      ≡ (min n (length m), memcpy (replicate n 0) m (min n (length m)), ok)
unfolding tells told Fifo.step Fifo.get
one_reply count m ms s cap n = refl

memcpy-whole : (n : ℕ) (m : List ℕ) → length m ≡ n → memcpy (replicate n 0) m n ≡ m
unfolding memcpy
memcpy-whole n m h =
    let zero : ℕ = 0 in
    let none_left : drop n (replicate n zero) ≡ [] =
      subst (λ k. drop k (replicate n zero) ≡ []) (length-replicate n zero)
        (drop-length (replicate n zero)) in
    rw (take_all n m (omega (arith, h)), none_left) (append-nil m)

same_heads :
    (count : ℕ) (m m' : List ℕ) (ms ms' : List (List ℕ)) (s s' : Status) (cap cap' : ℕ)
    → IsShort m
    → IsShort m'
    → SameTold count (m ∷ ms, s, cap) (m' ∷ ms', s', cap')
    → m ≡ m'
same_heads count m m' ms ms' s s' cap cap' h h' same =
    let at : (n : ℕ)
        → n < 2 ^ 16
        → (min n (length m), memcpy (replicate n 0) m (min n (length m)), ok)
          ≡ (min n (length m'), memcpy (replicate n 0) m' (min n (length m')), ok) =
      λ n f.
        sym (one_reply count m ms s cap n)
        ∙ (ap first_reply (same (asks_for n ∷ []) (asks_for-IsFit n f, tt))
            ∙ one_reply count m' ms' s' cap' n) in
    let l : length m ≡ length m' =
      omega (arith, ap (λ r. r.0) (at (length m) h), ap (λ r. r.0) (at (length m') h')) in
    let n = length m in
    let whole : memcpy (replicate n 0) m (min n (length m))
        ≡ memcpy (replicate n 0) m' (min n (length m')) =
      ap (λ r. r.1) (at n h) in
    let k : min n (length m) ≡ n = omega arith in
    let k' : min n (length m') ≡ n = omega (arith, l) in
    sym (memcpy-whole n m refl) ∙ (rw (k, k') at whole ∙ memcpy-whole n m' (sym l))

rest_of : List Seen → List Seen
rest_of [] = []
rest_of (x ∷ xs) = xs

same_rests :
    (count : ℕ) (m m' : List ℕ) (ms ms' : List (List ℕ)) (s s' : Status) (cap cap' : ℕ)
    → SameTold count (m ∷ ms, s, cap) (m' ∷ ms', s', cap')
    → SameTold count (ms, ok, cap) (ms', ok, cap')
unfolding tells told Fifo.step Fifo.get rest_of
same_rests count m m' ms ms' s s' cap cap' same cs f =
    ap rest_of (same (asks_for 0 ∷ cs) (asks_for-IsFit 0 (omega arith), f))

same_messages :
    (count : ℕ) (ms ms' : List (List ℕ)) (s s' : Status) (cap cap' : ℕ)
    → All IsShort ms
    → All IsShort ms'
    → SameTold count (ms, s, cap) (ms', s', cap')
    → ms ≡ ms'
unfolding tells told Fifo.step Fifo.get
same_messages count [] [] s s' cap cap' h h' same = refl
same_messages count [] (m ∷ ms') s s' cap cap' h h' same =
    let e : empty ≡ ok =
      ap (λ r. (first_reply r).2) (same (asks_for 0 ∷ []) (asks_for-IsFit 0 (omega arith), tt)) in
    absurd cc
same_messages count (m ∷ ms) [] s s' cap cap' h h' same =
    let e : ok ≡ empty =
      ap (λ r. (first_reply r).2) (same (asks_for 0 ∷ []) (asks_for-IsFit 0 (omega arith), tt)) in
    absurd cc
same_messages count (m ∷ ms) (m' ∷ ms') s s' cap cap' (h, hs) (h', hs') same =
    cons (same_heads count m m' ms ms' s s' cap cap' h h' same) (
      same_messages count ms ms' ok ok cap cap' hs hs'
        (same_rests count m m' ms ms' s s' cap cap' same))
  where
    cons : {x y : List ℕ} {xs ys : List (List ℕ)} → x ≡ y → xs ≡ ys → x ∷ xs ≡ y ∷ ys
    cons a b = cc

same_told :
    (count : ℕ) (ms ms' : List (List ℕ)) (s s' : Status) (cap cap' : ℕ)
    → SameTold count (ms, s, cap) (ms', s', cap')
    → (s ≡ s') × (cap ≡ cap')
unfolding tells told
same_told count ms ms' s s' cap cap' same = (
  ap first_status (same (asks_status ∷ []) (tt, tt)),
  ap first_capacity (same (asks_capacity ∷ []) (tt, tt)),
)

-- Two rings of the same number of cells, whose messages a caller can have passed, give the same replies to
-- all calls of `put`, `get`, `peek`, `get_status`, `size` and `capacity`, one after another, when they hold
-- the same messages and have the same status and the same capacity, and only then.
pub SameReplies-same_state :
    (count : ℕ) (q q' : RingQueue) (ms ms' : List (List ℕ))
    → q.total_count ≡ count
    → q'.total_count ≡ count
    → Represents q ms
    → Represents q' ms'
    → All IsShort ms
    → All IsShort ms'
    → SameReplies q q' ↔ ((ms ≡ ms') × (get_status q ≡ get_status q') × (capacity q ≡ capacity q'))
SameReplies-same_state count q q' ms ms' t t' r r' h h' =
    let x : Known = (ms, get_status q, capacity q) in
    let x' : Known = (ms', get_status q', capacity q') in
    let by =
      λ (cs : List Call) (f : All IsFitCall cs). answers-tells cs count q x (t, r, refl, refl) f in
    let by' = λ (cs : List Call) (f : All IsFitCall cs).
      answers-tells cs count q' x' (t', r', refl, refl) f in
    (
      λ same.
          let told_same : SameTold count x x' =
            λ cs f. let e = sym (by cs f) ∙ (same cs f ∙ by' cs f) in cc in
          let told_state =
            same_told count ms ms' (get_status q) (get_status q') (capacity q) (capacity q')
              told_same in
          (
            same_messages count ms ms' (get_status q) (get_status q') (capacity q) (capacity q') h
                h' told_same,
            told_state.0,
            told_state.1,
          ),
      λ (e, s, k) cs f. by cs f ∙ (rw (e, s, k) refl ∙ sym (by' cs f)),
    )
