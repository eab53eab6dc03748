-- ===== src/Ring/Spsc/Consuming.antt =====
-- The steps of `RingQueue::get` and `RingQueue::peek` beside a thread that puts.
use shovel_server.Base.{
  ℕ, ◌-◌, ◌≤◌, ◌<◌, min, ◌≡◌, refl, sym, ap, ◌∙◌, subst, ◌≢◌, inl, inr, some, List, ◌∷◌, arith,
  Option-cases, length, get_elem?, set, length-set, get_elem?-set_ne, memcpy, to_uint16, decrement,
}
use shovel_server.Ring.{advance}
use shovel_server.Ring.Cell
use shovel_server.Ring.Cell.{Bag, payload, get_lem, peek-get}
use shovel_server.Ring.Inv.{payload_at, next, Holds, Holds-set, advance-next}
use shovel_server.Ring.Spsc.{
  Ask, gets, peeks, Producer, checking, storing, Consumer, looking, reading, Answer,
}
use shovel_server.Ring.Spsc.Invariant.{AskFits, Stored, OutAt, Held, Inv, answer_of, apart}

-- The cell of the oldest message.
oldest :
    (v : List Bag) (cap i : ℕ) (m : List ℕ) (ms : List (List ℕ))
    → Holds v cap i (m ∷ ms)
    → (b : Bag) × (get_elem? v i ≡ some b) × (payload b ≡ some m)
oldest v cap i m ms h = elim (Option-cases (get_elem? v i)) [
  | inl e ↦ ground (arith, h.0)
  | inr (b, e) ↦ (b, e, ground (arith, h.0))
]

-- The producer's cell is another.
Stored-take :
    (v : List Bag) (cap i j count : ℕ) (b : Bag) (p : Producer)
    → (count < cap → i ≢ j)
    → Stored p v cap j count
    → Stored p (set v i b) cap j count
Stored-take v cap i j count b Producer.idle a h = tt
Stored-take v cap i j count b (checking p) a h = h
Stored-take v cap i j count b (Producer.refusing p) a h = h
Stored-take v cap i j count b (Producer.returning p r) a h = h
Stored-take v cap i j count b (storing p) a h = h
Stored-take v cap i j count b (Producer.advancing p r) a (e, room, h) =
    (e, room, rw (get_elem?-set_ne v i j b (a room), payload_at) h)
Stored-take v cap i j count b (Producer.counting p r) a (e, room, h) =
    (e, room, rw (get_elem?-set_ne v i j b (a room), payload_at) h)

Stored-fewer :
    (v : List Bag) (cap j count count' : ℕ) (p : Producer)
    → count' ≤ count
    → Stored p v cap j count
    → Stored p v cap j count'
Stored-fewer v cap j count count' Producer.idle l h = tt
Stored-fewer v cap j count count' (checking p) l h = h
Stored-fewer v cap j count count' (Producer.refusing p) l h = h
Stored-fewer v cap j count count' (Producer.returning p r) l h = h
Stored-fewer v cap j count count' (storing p) l (f, room) = (f, omega arith)
Stored-fewer v cap j count count' (Producer.advancing p r) l (e, room, h) = (e, omega arith, h)
Stored-fewer v cap j count count' (Producer.counting p r) l (e, room, h) = (e, omega arith, h)

module _ (cap : ℕ) (v : List Bag) (index_in index_out size : ℕ) (p : Producer)
    (ms : List (List ℕ)) where
  -- A step that only moves the consumer to a place where its index is the same.
  moves :
      (c c' : Consumer)
      → ((i : ℕ) → OutAt c cap i index_out → OutAt c' cap i index_out)
      → ((i : ℕ) → Held c v cap i ms → Held c' v cap i ms)
      → Inv cap v index_in index_out size p c ms
      → Inv cap v index_in index_out size p c' ms
  moves c c' f g inv = record {
    first = inv.first;
    last = inv.last;
    cells_count = inv.cells_count;
    small = inv.small;
    counted = inv.counted;
    bounded = inv.bounded;
    first_range = inv.first_range;
    last_range = inv.last_range;
    in_at = inv.in_at;
    out_at = f inv.first inv.out_at;
    distance = inv.distance;
    stored = inv.stored;
    held = g inv.first inv.held;
  }

  pub ask_begun :
      (a : Ask)
      → AskFits a
      → Inv cap v index_in index_out size p Consumer.idle ms
      → Inv cap v index_in index_out size p (looking a) ms
  ask_begun a f inv = moves Consumer.idle (looking a) (λ i e. e) (λ i h. (f, h)) inv

  pub ask_empty :
      (a : Ask)
      → Inv cap v index_in index_out size p (looking a) ms
      → Inv cap v index_in index_out size p (Consumer.refusing a) ms
  ask_empty a inv = moves (looking a) (Consumer.refusing a) (λ i e. e) (λ i h. h.1) inv

  pub ask_refused :
      (a : Ask) (r : Answer)
      → Inv cap v index_in index_out size p (Consumer.refusing a) ms
      → Inv cap v index_in index_out size p (Consumer.returning a r) ms
  ask_refused a r inv =
      moves (Consumer.refusing a) (Consumer.returning a r) (λ i e. e) (λ i h. h) inv

  pub ask_returned :
      (a : Ask) (r : Answer)
      → Inv cap v index_in index_out size p (Consumer.returning a r) ms
      → Inv cap v index_in index_out size p Consumer.idle ms
  ask_returned a r inv = moves (Consumer.returning a r) Consumer.idle (λ i e. e) (λ i h. h) inv

  pub ask_looked :
      (a : Ask)
      → 0 < size
      → Inv cap v index_in index_out size p (looking a) ms
      → Inv cap v index_in index_out size p (reading a) ms
  ask_looked a l inv =
      moves (looking a) (reading a) (λ i e. e) (λ i h. (h.0, omega (arith, inv.counted), h.1)) inv

  pub ask_advanced :
      (a : Ask) (r : Answer)
      → Inv cap v index_in index_out size p (Consumer.advancing a r) ms
      → 0 < length ms
      → Inv cap v index_in (advance cap index_out) size p (Consumer.counting a r) ms
  ask_advanced a r inv l = record {
    first = inv.first;
    last = inv.last;
    cells_count = inv.cells_count;
    small = inv.small;
    counted = inv.counted;
    bounded = inv.bounded;
    first_range = inv.first_range;
    last_range = inv.last_range;
    in_at = inv.in_at;
    out_at =
        ap (advance cap) inv.out_at
        ∙ advance-next cap inv.first inv.small (omega (arith, inv.first_range, inv.bounded));
    distance = inv.distance;
    stored = inv.stored;
    held = inv.held;
  }

module _ (cap : ℕ) (v : List Bag) (index_in index_out size : ℕ) (p : Producer) (m : List ℕ)
    (ms : List (List ℕ)) where
  pub peek_read :
      (buf : List ℕ) (n : ℕ)
      → Inv cap v index_in index_out size p (reading (peeks buf n)) (m ∷ ms)
      → (b : Bag) × (get_elem? v index_out ≡ some b)
        × (to_uint16 (Cell.peek b buf n).0 ≡ min n (length m))
        × ((Cell.peek b buf n).1 ≡ memcpy buf m (min n (length m)))
        × Inv cap v index_in index_out size p
            (Consumer.returning (peeks buf n) (answer_of m buf n))
            (m ∷ ms)
  peek_read buf n inv =
      let (small, l, h) = inv.held in
      let (b, e, k) = oldest v cap inv.first m ms h in
      let (s, o) = get_lem b m buf n k in
      let (s', o') = peek-get b buf n in
      (
        b,
        ap (get_elem? v) inv.out_at ∙ e,
        rw (s' ∙ s) (omega arith),
        o' ∙ o,
        moves cap v index_in index_out size p (m ∷ ms) (reading (peeks buf n))
            (Consumer.returning (peeks buf n) (answer_of m buf n)) (λ i e. e) (λ i h. h.2) inv,
      )

  pub get_read :
      (buf : List ℕ) (n : ℕ)
      → Inv cap v index_in index_out size p (reading (gets buf n)) (m ∷ ms)
      → (b : Bag) × (get_elem? v index_out ≡ some b)
        × (to_uint16 (Cell.get b buf n).0 ≡ min n (length m))
        × ((Cell.get b buf n).1 ≡ memcpy buf m (min n (length m)))
        × Inv cap
            (set v index_out (Cell.get b buf n).2)
            index_in
            index_out
            size
            p
            (Consumer.advancing (gets buf n) (answer_of m buf n))
            (m ∷ ms)
  get_read buf n inv =
      let (small, l, h) = inv.held in
      let (b, e, k) = oldest v cap inv.first m ms h in
      let (s, o) = get_lem b m buf n k in
      let b' = (Cell.get b buf n).2 in
      (
        b,
        ap (get_elem? v) inv.out_at ∙ e,
        rw s (omega arith),
        o,
        record {
          first = inv.first;
          last = inv.last;
          cells_count = length-set v index_out b' ∙ inv.cells_count;
          small = inv.small;
          counted = inv.counted;
          bounded = inv.bounded;
          first_range = inv.first_range;
          last_range = inv.last_range;
          in_at = inv.in_at;
          out_at = inv.out_at;
          distance = inv.distance;
          stored =
              subst (λ i. Stored p (set v i b') cap inv.last (length (m ∷ ms))) (sym inv.out_at)
                (Stored-take v cap inv.first inv.last (length (m ∷ ms)) b' p
                  (λ room.
                    apart cap inv.first (length (m ∷ ms)) inv.last inv.distance (omega arith) room)
                  inv.stored);
          held = (
            m,
            ms,
            refl,
            refl,
            subst (λ i. Holds (set v i b') cap (next cap inv.first) ms) (sym inv.out_at)
                (Holds-set v cap inv.first b' ms (next cap inv.first) (cap - 1)
                  (ground (arith, inv.first_range, inv.bounded)) (omega (arith, inv.bounded))
                  (omega (arith, inv.bounded)) (omega (arith, inv.first_range, inv.bounded))
                  (ground (arith, inv.first_range, inv.bounded)) h.1),
          );
        },
      )

  pub get_counted :
      (buf : List ℕ) (n : ℕ) (r : Answer)
      → Inv cap v index_in index_out size p (Consumer.counting (gets buf n) r) (m ∷ ms)
      → (r ≡ answer_of m buf n)
        × Inv cap v index_in index_out (decrement size) p (Consumer.returning (gets buf n) r) ms
  get_counted buf n r inv =
      let (x, ms', e, q, h) = inv.held in
      let same : x ≡ m = cc in
      let same_ms : ms' ≡ ms = cc in
      (
        subst (λ t. r ≡ answer_of t buf n) same q,
        record {
          first = next cap inv.first;
          last = inv.last;
          cells_count = inv.cells_count;
          small = inv.small;
          counted = omega (arith, inv.counted, inv.small, inv.bounded);
          bounded = omega (arith, inv.bounded);
          first_range = ground (arith, inv.first_range, inv.bounded);
          last_range = inv.last_range;
          in_at = inv.in_at;
          out_at = inv.out_at;
          distance = ground (arith, inv.distance, inv.first_range, inv.last_range, inv.bounded);
          stored =
              Stored-fewer v cap inv.last (length (m ∷ ms)) (length ms) p (omega arith) inv.stored;
          held = subst (Holds v cap (next cap inv.first)) same_ms h;
        },
      )
