-- ===== src/Ring/Inv.antt =====
-- When a ring holds a list of messages, and what a write to one of its cells changes.
use shovel_server.Base.{
  ℕ, ◌+◌, ◌-◌, ◌^◌, ◌≤◌, ◌<◌, ◌≡◌, subst, ◌⊎◌, Option, none, some, List, [], ◌∷◌, ◌++◌, arith, ◌==◌,
  if◌then◌else◌, length, get_elem?, set, get_elem?-set_ne,
}
use shovel_server.Ring.{RingQueue, advance}
use shovel_server.Ring.Cell.{Bag, payload}

abbrev pub payload_at : List Bag → ℕ → Option (List ℕ)
payload_at v i = elim (get_elem? v i) [ none ↦ none | some b ↦ payload b ]

-- The index after `i`, in a ring of `cap` cells.
abbrev pub next : ℕ → ℕ → ℕ
next cap i = if i + 1 == cap then 0 else i + 1

-- The cells from index `i` on hold the messages, in order, going round at `cap`.
abbrev pub Holds : List Bag → ℕ → ℕ → List (List ℕ) → Type 0
Holds v cap i [] = Unit {0}
Holds v cap i (m ∷ ms) = (payload_at v i ≡ some m) × Holds v cap (next cap i) ms

-- `j` is `d` cells after `i`.
abbrev pub At : ℕ → ℕ → ℕ → ℕ → Type 0
At cap i d j = (j ≡ i + d) ⊎ (j + cap ≡ i + d)

-- The ring holds the messages `ms`, oldest first.
pub record Represents (q : RingQueue) (ms : List (List ℕ)) : Type 0 where
  pub cells_count : length q.ring_vector ≡ q.total_count
  pub small : q.total_count < 2 ^ 32
  pub counted : q.base.size ≡ length ms
  pub bounded : length ms ≤ q.total_count
  pub in_range : (q.index_in < q.total_count) ⊎ ((q.total_count ≡ 0) × (q.index_in ≡ 0))
  pub out_range : (q.index_out < q.total_count) ⊎ ((q.total_count ≡ 0) × (q.index_out ≡ 0))
  pub distance : At q.total_count q.index_out (length ms) q.index_in
  pub held : Holds q.ring_vector q.total_count q.index_out ms

pub advance-next : (cap i : ℕ) → cap < 2 ^ 32 → i < cap → advance cap i ≡ next cap i
advance-next cap i h k = ground arith

module _ (v : List Bag) (cap : ℕ) where
  -- A write behind the last message changes none.
  pub Holds-set :
      (j : ℕ) (b : Bag) (ms : List (List ℕ)) (i d : ℕ)
      → i < cap
      → length ms ≤ d
      → d < cap
      → j < cap
      → At cap i d j
      → Holds v cap i ms
      → Holds (set v j b) cap i ms
  Holds-set j b [] i d hi hd hc hj at h = tt
  Holds-set j b (m ∷ ms) i d hi hd hc hj at h = (
    rw (get_elem?-set_ne v j i b (λ e. ground arith), payload_at) h.0,
    Holds-set j b ms (next cap i) (d - 1) (ground arith) (omega arith) (omega arith) hj
        (ground arith) h.1,
  )

  pub Holds-append :
      (m : List ℕ) (ms : List (List ℕ)) (i j : ℕ)
      → i < cap
      → length ms < cap
      → At cap i (length ms) j
      → j < cap
      → Holds v cap i ms
      → payload_at v j ≡ some m
      → Holds v cap i (ms ++ m ∷ [])
  Holds-append m [] i j hi hc at hj h e = (subst (λ k. payload_at v k ≡ some m) (omega arith) e, tt)
  Holds-append m (x ∷ ms) i j hi hc at hj h e =
      (h.0, Holds-append m ms (next cap i) j (ground arith) (omega arith) (ground arith) hj h.1 e)
