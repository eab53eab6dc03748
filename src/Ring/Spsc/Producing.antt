-- ===== src/Ring/Spsc/Producing.antt =====
-- The steps of `RingQueue::put` beside a thread that gets.
use shovel_server.Base.{
  ℕ, ◌<◌, ◌≡◌, refl, sym, ap, ◌∙◌, subst, some, List, [], ◌∷◌, ◌++◌, arith, length, get_elem?, set,
  take, length-append, length-set, get_elem?-set_self, get_elem?-lt, to_uint16, increment,
}
use shovel_server.Ring.{advance}
use shovel_server.Ring.Cell
use shovel_server.Ring.Cell.{Bag, payload-put}
use shovel_server.Ring.Inv.{payload_at, next, advance-next}
use shovel_server.Ring.Spsc.{Put, Producer, checking, storing, Consumer}
use shovel_server.Ring.Spsc.Invariant.{PutFits, Stored, InAt, Inv, Held, Held-store, Held-count}

module _ (cap : ℕ) (v : List Bag) (index_in index_out size : ℕ) (c : Consumer)
    (ms : List (List ℕ)) where
  -- A step that only moves the producer to a place where its index is the same.
  moves :
      (p p' : Producer)
      → ((j : ℕ) → InAt p cap j index_in → InAt p' cap j index_in)
      → ((j : ℕ) → Stored p v cap j (length ms) → Stored p' v cap j (length ms))
      → Inv cap v index_in index_out size p c ms
      → Inv cap v index_in index_out size p' c ms
  moves p p' f g inv = record {
    first = inv.first;
    last = inv.last;
    cells_count = inv.cells_count;
    small = inv.small;
    counted = inv.counted;
    bounded = inv.bounded;
    first_range = inv.first_range;
    last_range = inv.last_range;
    in_at = f inv.last inv.in_at;
    out_at = inv.out_at;
    distance = inv.distance;
    stored = g inv.last inv.stored;
    held = inv.held;
  }

  pub put_begun :
      (p : Put)
      → PutFits p
      → Inv cap v index_in index_out size Producer.idle c ms
      → Inv cap v index_in index_out size (checking p) c ms
  put_begun p f inv = moves Producer.idle (checking p) (λ j e. e) (λ j h. f) inv

  pub put_full :
      (p : Put)
      → Inv cap v index_in index_out size (checking p) c ms
      → Inv cap v index_in index_out size (Producer.refusing p) c ms
  put_full p inv = moves (checking p) (Producer.refusing p) (λ j e. e) (λ j h. tt) inv

  pub put_refused :
      (p : Put) (r : ℕ)
      → Inv cap v index_in index_out size (Producer.refusing p) c ms
      → Inv cap v index_in index_out size (Producer.returning p r) c ms
  put_refused p r inv =
      moves (Producer.refusing p) (Producer.returning p r) (λ j e. e) (λ j h. tt) inv

  pub put_returned :
      (p : Put) (r : ℕ)
      → Inv cap v index_in index_out size (Producer.returning p r) c ms
      → Inv cap v index_in index_out size Producer.idle c ms
  put_returned p r inv = moves (Producer.returning p r) Producer.idle (λ j e. e) (λ j h. tt) inv

  pub put_checked :
      (p : Put)
      → size < cap
      → Inv cap v index_in index_out size (checking p) c ms
      → Inv cap v index_in index_out size (storing p) c ms
  put_checked p room inv =
      moves (checking p) (storing p) (λ j e. e) (λ j h. (h, omega (arith, inv.counted))) inv

  pub put_stored :
      (p : Put)
      → Inv cap v index_in index_out size (storing p) c ms
      → (b : Bag) × (get_elem? v index_in ≡ some b)
        × (to_uint16 (Cell.put b p.buf p.size).0 ≡ p.size)
        × Inv cap
            (set v index_in (Cell.put b p.buf p.size).1)
            index_in
            index_out
            size
            (Producer.advancing p p.size)
            c
            ms
  put_stored p inv =
      let ((fits, small), room) = inv.stored in
      let (b, e) =
        get_elem?-lt v index_in (omega (arith, inv.in_at, inv.last_range, inv.cells_count)) in
      let (r, h) = payload-put b p.buf p.size fits in
      let b' = (Cell.put b p.buf p.size).1 in
      let k : payload_at (set v index_in b') index_in ≡ some (take p.size p.buf) =
        rw
          (
            get_elem?-set_self v index_in b'
                (omega (arith, inv.in_at, inv.last_range, inv.cells_count)),
            payload_at,
          )
          h in
      (
        b,
        e,
        rw r (omega arith),
        record {
          first = inv.first;
          last = inv.last;
          cells_count = length-set v index_in b' ∙ inv.cells_count;
          small = inv.small;
          counted = inv.counted;
          bounded = inv.bounded;
          first_range = inv.first_range;
          last_range = inv.last_range;
          in_at = inv.in_at;
          out_at = inv.out_at;
          distance = inv.distance;
          stored = (
            refl,
            room,
            subst (λ j. payload_at (set v index_in b') j ≡ some (take p.size p.buf)) inv.in_at k,
          );
          held =
              subst (λ j. Held c (set v j b') cap inv.first ms) (sym inv.in_at)
                (Held-store v cap inv.first inv.last b' ms c inv.first_range inv.last_range
                  inv.distance room inv.held);
        },
      )

  pub put_advanced :
      (p : Put) (r : ℕ)
      → Inv cap v index_in index_out size (Producer.advancing p r) c ms
      → Inv cap v (advance cap index_in) index_out size (Producer.counting p r) c ms
  put_advanced p r inv = record {
    first = inv.first;
    last = inv.last;
    cells_count = inv.cells_count;
    small = inv.small;
    counted = inv.counted;
    bounded = inv.bounded;
    first_range = inv.first_range;
    last_range = inv.last_range;
    in_at =
        ap (advance cap) inv.in_at
        ∙ advance-next cap inv.last inv.small (omega (arith, inv.last_range, inv.stored.1));
    out_at = inv.out_at;
    distance = inv.distance;
    stored = inv.stored;
    held = inv.held;
  }

  pub put_counted :
      (p : Put) (r : ℕ)
      → Inv cap v index_in index_out size (Producer.counting p r) c ms
      → Inv cap v index_in index_out
          (increment size)
          (Producer.returning p r)
          c
          (ms ++ take p.size p.buf ∷ [])
  put_counted p r inv =
      let (e, room, h) = inv.stored in
      let m = take p.size p.buf in
      record {
        first = inv.first;
        last = next cap inv.last;
        cells_count = inv.cells_count;
        small = inv.small;
        counted = omega (arith, inv.counted, inv.small, length-append ms (m ∷ []));
        bounded = omega (arith, length-append ms (m ∷ []));
        first_range = inv.first_range;
        last_range = ground (arith, inv.last_range);
        in_at = inv.in_at;
        out_at = inv.out_at;
        distance =
            ground
              (arith, inv.distance, inv.first_range, inv.last_range, length-append ms (m ∷ []));
        stored = tt;
        held =
            Held-count v cap inv.first inv.last m ms c inv.first_range inv.last_range inv.distance
              room h inv.held;
      }
