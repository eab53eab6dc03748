-- ===== src/Ring/View.antt =====
-- The rings of src/containers/RingQueue.cpp up to what their callers can tell apart.
use native.Mathlib.Bridge.{le_prop}
use mathlib.Core.Logic.{◌↔◌}
use mathlib.Core.HLevel.{×_prop, prop→set, Σ_set, Σ_prop_path}
use mathlib.Core.Equiv.{Iso}
use mathlib.Core.Quot
use mathlib.Core.Quot.{Quot, Quot-set}
use shovel_server.Base.{
  ℕ, ◌+◌, ◌^◌, ◌≤◌, ◌<◌, ◌≡◌, refl, sym, ◌∙◌, subst, true, List, [], ◌∷◌, ◌++◌, append_assoc,
  append-nil, arith, ltb, lt→ltb, length, All, length-append, take-length,
}
use shovel_server.Ring.{RingQueue, Op, put_op, init, Status, get_status, set_status, capacity}
use shovel_server.Ring.Capacity.{capacity-run}
use shovel_server.Ring.Holding.{set_status-Represents}
use shovel_server.Ring.Fifo
use shovel_server.Ring.Inv.{Represents}
use shovel_server.Ring.Refine.{IsFit, init-Represents, run_refines_at}
use shovel_server.Ring.Observe.{IsShort, SameReplies, SameReplies-same_state}

-- A ring of `count` cells, with the messages that it holds. It reports the capacity 0, as a ring that has
-- been constructed does after any calls.
pub record Filled (count : ℕ) : Type 0 where
  pub ring : RingQueue
  pub held : List (List ℕ)
  pub total : ring.total_count ≡ count
  pub no_capacity : capacity ring ≡ 0
  pub represents : Represents ring held
  pub short : All IsShort held

-- No calls tell the rings of two states apart.
abbrev pub Interchangeable : (count : ℕ) → Filled count → Filled count → Type 0
Interchangeable count x y = SameReplies x.ring y.ring

abbrev pub View : ℕ → Type 0
View count = Quot (Interchangeable count)

-- What a queue of `count` messages can hold.
abbrev pub IsMessages : ℕ → List (List ℕ) → Type 0
IsMessages count ms = (length ms ≤ count) × All IsShort ms

abbrev pub Messages : ℕ → Type 0
Messages count = (ms : List (List ℕ)) × IsMessages count ms

All-IsShort-prop : (ms : List (List ℕ)) → IsProp (All IsShort ms)
All-IsShort-prop [] = hlevel
All-IsShort-prop (m ∷ ms) = ×_prop le_prop (All-IsShort-prop ms)

IsMessages-prop : (count : ℕ) (ms : List (List ℕ)) → IsProp (IsMessages count ms)
IsMessages-prop count ms = ×_prop le_prop (All-IsShort-prop ms)

Messages-set : (count : ℕ) → IsSet (Messages count)
Messages-set count =
    Σ_set {A = List (List ℕ)} {B = IsMessages count} (hlevel)
      (λ ms. prop→set (IsMessages-prop count ms))

Messages-ext : (count : ℕ) (x y : Messages count) → x.0 ≡ y.0 → x ≡ y
Messages-ext count x y h =
    Σ_prop_path {A = List (List ℕ)} {B = IsMessages count} (λ ms. IsMessages-prop count ms) {u = x}
      {v = y} h

Status-set : IsSet Status
Status-set = hlevel

-- What a ring keeps: its messages and its status.
abbrev pub Kept : ℕ → Type 0
Kept count = Messages count × Status

Kept-set : (count : ℕ) → IsSet (Kept count)
Kept-set count = Σ_set {A = Messages count} {B = λ m. Status} (Messages-set count) (λ m. Status-set)

Kept-ext : (count : ℕ) (x y : Kept count) → x.0.0 ≡ y.0.0 → x.1 ≡ y.1 → x ≡ y
Kept-ext count (m, s) (m', s') h e = let same : m ≡ m' = Messages-ext count m m' h in cc

kept_by : (count : ℕ) → Filled count → Kept count
kept_by count x = (
  (x.held, (subst (λ n. length x.held ≤ n) x.total x.represents.bounded, x.short)),
  get_status x.ring,
)

same_kept :
    (count : ℕ) (x y : Filled count)
    → Interchangeable count x y ↔ ((x.held ≡ y.held) × (get_status x.ring ≡ get_status y.ring))
same_kept count x y =
    let both =
      SameReplies-same_state count x.ring y.ring x.held y.held x.total y.total x.represents
        y.represents x.short y.short in
    (
      λ same. let (h, s, k) = both.0 same in (h, s),
      λ (h, s). both.1 (h, s, x.no_capacity ∙ sym y.no_capacity),
    )

pub kept_in : (count : ℕ) → View count → Kept count
unfolding kept_by
kept_in count = Quot.lift (Kept-set count) (kept_by count) (λ x y same.
    let (h, s) = (same_kept count x y).0 same in
    Kept-ext count (kept_by count x) (kept_by count y) h s)

-- A ring that has been filled with the messages.
put_ops : List (List ℕ) → List Op
put_ops [] = []
put_ops (m ∷ ms) = put_op m (length m) ∷ put_ops ms

put_ops-IsFit : (ms : List (List ℕ)) → All IsShort ms → All IsFit (put_ops ms)
unfolding put_ops
put_ops-IsFit [] h = tt
put_ops-IsFit (m ∷ ms) (h, hs) = ((omega arith, h), put_ops-IsFit ms hs)

put_ops-fill :
    (count : ℕ) (before ms : List (List ℕ))
    → length before + length ms ≤ count
    → (Fifo.run count before (put_ops ms)).1 ≡ before ++ ms
unfolding put_ops Fifo.run Fifo.step Fifo.put
put_ops-fill count before [] h = sym (append-nil before)
put_ops-fill count before (m ∷ ms) h =
    let room : ltb (length before) count ≡ true = lt→ltb (length before) count (omega (arith, h)) in
    rw (Fifo.run, Fifo.step, Fifo.put, put_ops, room, take-length m)
      (put_ops-fill count (before ++ m ∷ []) ms (omega (arith, h, length-append before (m ∷ [])))
        ∙ append_assoc before (m ∷ []) ms)

state_of : (count : ℕ) → count < 2 ^ 32 → Kept count → Filled count
unfolding init get_status capacity
state_of count small ((ms, (l, h)), s) =
    let (q, e, r, t) =
      run_refines_at (put_ops ms) count (init count 0) [] refl (init-Represents count 0 small)
        (put_ops-IsFit ms h) in
    record {
      ring = set_status q s;
      held = ms;
      total = t;
      no_capacity = capacity-run count 0 (put_ops ms) e;
      represents =
          set_status-Represents q ms s
            (subst (Represents q) (put_ops-fill count [] ms (omega (arith, l))) r);
      short = h;
    }

view_of : (count : ℕ) → count < 2 ^ 32 → Kept count → View count
view_of count small k = Quot.mk (state_of count small k)

view-Iso : (count : ℕ) → count < 2 ^ 32 → Iso (View count) (Kept count)
unfolding kept_in view_of kept_by state_of get_status
view-Iso count small = record {
  fun = kept_in count;
  inv = view_of count small;
  rinv = λ k. Kept-ext count (kept_in count (view_of count small k)) k refl refl;
  linv =
      Quot.ind (λ b. Quot-set _ _)
        (λ x.
          Quot.sound ((same_kept count (state_of count small (kept_by count x)) x).1 (refl, refl)));
}
