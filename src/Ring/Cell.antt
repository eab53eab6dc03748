-- ===== src/Ring/Cell.antt =====
-- `RingQueue::bag`, one cell of the ring (src/containers/RingQueue.h). The messages that `get` and
-- `peek` print when the caller's size is too small are left out.
use shovel_server.Base.{
  ℕ, ◌≤◌, min, ◌≡◌, inl, inr, Bool, true, false, ◌&&◌, not, Option, none, some, List, arith, ltb,
  leb, if◌then◌else◌, Bool-cases, length, take, replicate, length-take, memcpy, resize,
  length-memcpy, take-memcpy, length-resize, memcpy-take,
}

pub record Bag : Type 0 where
  pub cells : List ℕ  -- `data`
  pub init_cell_size : ℕ
  pub data_size : ℕ
  pub has_data : Bool

unfoldable pub init : ℕ → Bag
init cell_size = record {
  cells = resize cell_size (replicate cell_size 0);
  init_cell_size = cell_size;
  data_size = 0;
  has_data = false;
}

-- The result and the bag afterwards.
unfoldable pub put : Bag → List ℕ → ℕ → ℕ × Bag
put b in_data put_data_size =
    let cells =
      if ltb (length b.cells) put_data_size then resize put_data_size b.cells else b.cells in
    (
      put_data_size,
      record b {
        cells = memcpy cells in_data put_data_size;
        has_data = true;
        data_size = put_data_size;
      },
    )

-- The result, the caller's buffer and the bag afterwards.
unfoldable pub get : Bag → List ℕ → ℕ → ℕ × List ℕ × Bag
get b out_data size = if not b.has_data then (0, out_data, b) else (
  min size b.data_size,
  memcpy out_data b.cells (min size b.data_size),
  record b { has_data = false; data_size = 0 },
)

-- The result and the caller's buffer afterwards: the bag stays as it is.
unfoldable pub peek : Bag → List ℕ → ℕ → ℕ × List ℕ
peek b buf size =
    if not b.has_data
    then (0, buf)
    else (min size b.data_size, memcpy buf b.cells (min size b.data_size))

-- The message that a bag holds.
abbrev pub payload : Bag → Option (List ℕ)
payload b =
    if b.has_data && leb b.data_size (length b.cells) then some (take b.data_size b.cells) else none

payload-eq_some :
    (b : Bag) {m : List ℕ}
    → payload b ≡ some m
    → (b.has_data ≡ true) × (b.data_size ≤ length b.cells) × (take b.data_size b.cells ≡ m)
payload-eq_some b e = ground arith

-- What is put in a bag is what it holds.
pub payload-put :
    (b : Bag) (in_data : List ℕ) (n : ℕ)
    → n ≤ length in_data
    → ((put b in_data n).0 ≡ n) × (payload (put b in_data n).1 ≡ some (take n in_data))
unfolding put
payload-put b in_data n h = elim (Bool-cases (ltb (length b.cells) n)) [
  | inl small ↦ rw small (
      ground (
        arith,
        length-resize n b.cells,
        length-memcpy (resize n b.cells) in_data n h,
        take-memcpy (resize n b.cells) in_data n h,
      ))
  | inr large ↦
      rw large (ground (arith, length-memcpy b.cells in_data n h, take-memcpy b.cells in_data n h))
]

-- A bag that holds a message hands out as much of it as the caller has room for, and is empty then.
pub get_lem :
    (b : Bag) (m out : List ℕ) (size : ℕ)
    → payload b ≡ some m
    → ((get b out size).0 ≡ min size (length m))
      × ((get b out size).1 ≡ memcpy out m (min size (length m)))
unfolding get
get_lem b m out size e = ground (
  arith,
  payload-eq_some b {m = m} e,
  length-take b.data_size b.cells,
  memcpy-take out b.cells (min size b.data_size) b.data_size (omega arith),
)

-- `peek` shows what `get` would hand out.
pub peek-get :
    (b : Bag) (out : List ℕ) (size : ℕ)
    → ((peek b out size).0 ≡ (get b out size).0) × ((peek b out size).1 ≡ (get b out size).1)
unfolding peek get
peek-get b out size = ground arith
