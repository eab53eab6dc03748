-- ===== src/Ring/Spsc/Invariant.antt =====
-- What the ring of src/containers/RingQueue.cpp holds while one thread puts and one gets, and what
-- the two leave of it in each step.
use shovel_server.Base.{
  ℕ, ◌^◌, ◌≤◌, ◌<◌, min, ◌≡◌, ap, ◌≢◌, ◌⊎◌, some, List, [], ◌∷◌, ◌++◌, arith, length, set, take,
  length-append, memcpy,
}
use shovel_server.Ring.Cell.{Bag}
use shovel_server.Ring.Inv.{payload_at, next, Holds, At, Holds-set, Holds-append}
use shovel_server.Ring.Spsc.{
  Put, Ask, gets, peeks, Producer, checking, storing, Answer, Consumer, looking, reading,
}

-- The sizes that a caller may pass: a uint16_t within its buffer.
abbrev pub PutFits : Put → Type 0
PutFits p = (p.size ≤ length p.buf) × (p.size < 2 ^ 16)

abbrev pub AskFits : Ask → Type 0
AskFits (gets buf n) = n < 2 ^ 16
AskFits (peeks buf n) = n < 2 ^ 16

-- The cell `j` behind the messages, of which there are `count`, is the producer's to write.
abbrev pub Stored : Producer → List Bag → ℕ → ℕ → ℕ → Type 0
Stored Producer.idle v cap j count = Unit {0}
Stored (checking p) v cap j count = PutFits p
Stored (storing p) v cap j count = PutFits p × (count < cap)
Stored (Producer.advancing p r) v cap j count =
    (r ≡ p.size) × (count < cap) × (payload_at v j ≡ some (take p.size p.buf))
Stored (Producer.counting p r) v cap j count =
    (r ≡ p.size) × (count < cap) × (payload_at v j ≡ some (take p.size p.buf))
Stored (Producer.refusing p) v cap j count = Unit
Stored (Producer.returning p r) v cap j count = Unit

-- What `get` has handed out of the oldest message.
abbrev pub answer_of : List ℕ → List ℕ → ℕ → Answer
answer_of m buf n = (min n (length m), memcpy buf m (min n (length m)))

-- The oldest message is handed out, and its cell is empty; the others are held.
abbrev pub Emptied : Ask → Answer → List Bag → ℕ → ℕ → List (List ℕ) → Type 0
Emptied (peeks buf n) r v cap i ms = ⊥
Emptied (gets buf n) r v cap i ms =
    (m : List ℕ) × (ms' : List (List ℕ)) × (ms ≡ m ∷ ms')
    × (r ≡ answer_of m buf n)
    × Holds v cap (next cap i) ms'

-- The cells from `i` on hold the messages `ms`, but for what the consumer has done to the first.
abbrev pub Held : Consumer → List Bag → ℕ → ℕ → List (List ℕ) → Type 0
Held Consumer.idle v cap i ms = Holds v cap i ms
Held (looking a) v cap i ms = AskFits a × Holds v cap i ms
Held (reading a) v cap i ms = AskFits a × (0 < length ms) × Holds v cap i ms
Held (Consumer.advancing a r) v cap i ms = Emptied a r v cap i ms
Held (Consumer.counting a r) v cap i ms = Emptied a r v cap i ms
Held (Consumer.refusing a) v cap i ms = Holds v cap i ms
Held (Consumer.returning a r) v cap i ms = Holds v cap i ms

-- The indices: a thread that has still to count has moved its own.
abbrev pub InAt : Producer → ℕ → ℕ → ℕ → Type 0
InAt (Producer.counting p r) cap j index = index ≡ next cap j
InAt _ cap j index = index ≡ j

abbrev pub OutAt : Consumer → ℕ → ℕ → ℕ → Type 0
OutAt (Consumer.counting a r) cap i index = index ≡ next cap i
OutAt _ cap i index = index ≡ i

abbrev pub InRange : ℕ → ℕ → Type 0
InRange cap i = (i < cap) ⊎ ((cap ≡ 0) × (i ≡ 0))

-- With the producer at `p` and the consumer at `c`, `size` counts the messages `ms`, which start at
-- `first` and end before `last`.
pub record Inv (cap : ℕ) (v : List Bag) (index_in index_out size : ℕ) (p : Producer) (c : Consumer)
    (ms : List (List ℕ)) : Type 0 where
  pub first : ℕ
  pub last : ℕ
  pub cells_count : length v ≡ cap
  pub small : cap < 2 ^ 32
  pub counted : size ≡ length ms
  pub bounded : length ms ≤ cap
  pub first_range : InRange cap first
  pub last_range : InRange cap last
  pub in_at : InAt p cap last index_in
  pub out_at : OutAt c cap first index_out
  pub distance : At cap first (length ms) last
  pub stored : Stored p v cap last (length ms)
  pub held : Held c v cap first ms

-- The two threads are never at one cell.
pub apart : (cap i d j : ℕ) → At cap i d j → 0 < d → d < cap → i ≢ j
apart cap i d j at p q = λ e. absurd (omega (arith, e))

-- A write to the cell behind the messages.
Holds-store :
    (v : List Bag) (cap i j : ℕ) (b : Bag) (ms : List (List ℕ))
    → InRange cap i
    → InRange cap j
    → At cap i (length ms) j
    → length ms < cap
    → Holds v cap i ms
    → Holds (set v j b) cap i ms
Holds-store v cap i j b ms hi hj at room h =
    Holds-set v cap j b ms i (length ms) (omega arith) (omega arith) room (omega arith) at h

Emptied-store :
    (v : List Bag) (cap i j : ℕ) (b : Bag) (ms : List (List ℕ)) (a : Ask) (r : Answer)
    → InRange cap i
    → InRange cap j
    → At cap i (length ms) j
    → length ms < cap
    → Emptied a r v cap i ms
    → Emptied a r (set v j b) cap i ms
Emptied-store v cap i j b ms (gets buf n) r hi hj at room (m, ms', e, q, h) = (
  m,
  ms',
  e,
  q,
  Holds-set v cap j b ms' (next cap i) (length ms') (ground arith) (omega arith)
      (omega (arith, ap length e)) (omega arith) (ground (arith, ap length e)) h,
)
Emptied-store v cap i j b ms (peeks buf n) r hi hj at room h = absurd h

pub Held-store :
    (v : List Bag) (cap i j : ℕ) (b : Bag) (ms : List (List ℕ)) (c : Consumer)
    → InRange cap i
    → InRange cap j
    → At cap i (length ms) j
    → length ms < cap
    → Held c v cap i ms
    → Held c (set v j b) cap i ms
Held-store v cap i j b ms Consumer.idle hi hj at room h = Holds-store v cap i j b ms hi hj at room h
Held-store v cap i j b ms (Consumer.refusing a) hi hj at room h =
    Holds-store v cap i j b ms hi hj at room h
Held-store v cap i j b ms (Consumer.returning a r) hi hj at room h =
    Holds-store v cap i j b ms hi hj at room h
Held-store v cap i j b ms (looking a) hi hj at room (f, h) =
    (f, Holds-store v cap i j b ms hi hj at room h)
Held-store v cap i j b ms (reading a) hi hj at room (f, l, h) =
    (f, l, Holds-store v cap i j b ms hi hj at room h)
Held-store v cap i j b ms (Consumer.advancing a r) hi hj at room h =
    Emptied-store v cap i j b ms a r hi hj at room h
Held-store v cap i j b ms (Consumer.counting a r) hi hj at room h =
    Emptied-store v cap i j b ms a r hi hj at room h

Holds-count :
    (v : List Bag) (cap i j : ℕ) (m : List ℕ) (ms : List (List ℕ))
    → InRange cap i
    → InRange cap j
    → At cap i (length ms) j
    → length ms < cap
    → payload_at v j ≡ some m
    → Holds v cap i ms
    → Holds v cap i (ms ++ m ∷ [])
Holds-count v cap i j m ms hi hj at room e h =
    Holds-append v cap m ms i j (omega arith) room at (omega arith) h e

Emptied-count :
    (v : List Bag) (cap i j : ℕ) (m : List ℕ) (ms : List (List ℕ)) (a : Ask) (r : Answer)
    → InRange cap i
    → InRange cap j
    → At cap i (length ms) j
    → length ms < cap
    → payload_at v j ≡ some m
    → Emptied a r v cap i ms
    → Emptied a r v cap i (ms ++ m ∷ [])
Emptied-count v cap i j m ms (gets buf n) r hi hj at room e (x, ms', s, q, h) = (
  x,
  ms' ++ m ∷ [],
  ap (λ t. t ++ m ∷ []) s,
  q,
  Holds-append v cap m ms' (next cap i) j (ground arith) (omega (arith, ap length s))
      (ground (arith, ap length s)) (omega arith) h e,
)
Emptied-count v cap i j m ms (peeks buf n) r hi hj at room e h = absurd h

pub Held-count :
    (v : List Bag) (cap i j : ℕ) (m : List ℕ) (ms : List (List ℕ)) (c : Consumer)
    → InRange cap i
    → InRange cap j
    → At cap i (length ms) j
    → length ms < cap
    → payload_at v j ≡ some m
    → Held c v cap i ms
    → Held c v cap i (ms ++ m ∷ [])
Held-count v cap i j m ms Consumer.idle hi hj at room e h =
    Holds-count v cap i j m ms hi hj at room e h
Held-count v cap i j m ms (Consumer.refusing a) hi hj at room e h =
    Holds-count v cap i j m ms hi hj at room e h
Held-count v cap i j m ms (Consumer.returning a r) hi hj at room e h =
    Holds-count v cap i j m ms hi hj at room e h
Held-count v cap i j m ms (looking a) hi hj at room e (f, h) =
    (f, Holds-count v cap i j m ms hi hj at room e h)
Held-count v cap i j m ms (reading a) hi hj at room e (f, l, h) =
    (f, omega (arith, length-append ms (m ∷ [])), Holds-count v cap i j m ms hi hj at room e h)
Held-count v cap i j m ms (Consumer.advancing a r) hi hj at room e h =
    Emptied-count v cap i j m ms a r hi hj at room e h
Held-count v cap i j m ms (Consumer.counting a r) hi hj at room e h =
    Emptied-count v cap i j m ms a r hi hj at room e h
