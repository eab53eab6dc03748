-- ===== src/Parser/Steps.antt =====
-- The loop of `_parse_data`, one datagram or one skipped byte at a time.
use shovel_server.Base.{
  ℕ, zero, suc, ◌≤◌, ◌<◌, ◌≡◌, refl, sym, ap, ◌∙◌, false, List, [], ◌∷◌, ◌++◌, arith, lt→ltb,
  le→ltb, lt→leb, length, get_or, take, drop, length-take, take-append_of_le, take-drop-append,
}
use shovel_server.Parser.{
  Parser, state_nodata, state_receiving_header, state_receiving_data, state_receiving_wait_new_data,
  state_receiving_complete, state_error, head_main_word, head_size, sizeof_data_head, is_empty,
  parse_data, round, round_in, continues, breaks, undefined, done, undefined_behaviour,
  receiving_header, set_state,
}
use shovel_server.Parser.Spec.{IsHead, is_head}

pub nonempty : (b : List ℕ) → 0 < length b → is_empty b ≡ false
nonempty [] h = absurd (omega arith)
nonempty (x ∷ b) h = refl

module _ (fuel : ℕ) (p : Parser) (out : List (List ℕ)) (h : 0 < length p.parsing_buffer) where
  loop_continues :
      (p' : Parser) (out' : List (List ℕ))
      → round p out ≡ continues p' out'
      → parse_data (suc fuel) p out ≡ parse_data fuel p' out'
  unfolding parse_data
  loop_continues p' out' e = rw (nonempty p.parsing_buffer h, e, parse_data)

  loop_breaks :
      (p' : Parser) (out' : List (List ℕ))
      → round p out ≡ breaks p' out'
      → parse_data (suc fuel) p out ≡ done p' out'
  unfolding parse_data
  loop_breaks p' out' e = rw (nonempty p.parsing_buffer h, e, parse_data)

  loop_undefined : round p out ≡ undefined → parse_data (suc fuel) p out ≡ undefined_behaviour
  unfolding parse_data
  loop_undefined e = rw (nonempty p.parsing_buffer h, e, parse_data)

get_or-take : (n i : ℕ) (b : List ℕ) → i < n → get_or (take n b) i 0 ≡ get_or b i 0
get_or-take zero i b h = absurd (omega arith)
get_or-take (suc n) i [] h = refl
get_or-take (suc n) zero (x ∷ b) h = refl
get_or-take (suc n) (suc i) (x ∷ b) h = get_or-take n i b (omega arith)

-- The head of a copy of the first bytes is the head of the bytes.
pub head-take :
    (b : List ℕ) (n : ℕ)
    → 12 ≤ n
    → (head_main_word (take n b) ≡ head_main_word b)
      × (head_size (take n b) ≡ head_size b)
      × (get_or (take n b) 0 0 ≡ get_or b 0 0)
head-take b n h = (
  rw (at 0 (omega arith), at 1 (omega arith), at 2 (omega arith), at 3 (omega arith)),
  rw (at 8 (omega arith), at 9 (omega arith)),
  at 0 (omega arith),
)
  where
    at : (i : ℕ) → i < 12 → get_or (take n b) i 0 ≡ get_or b i 0
    at i k = get_or-take n i b (omega arith)

-- More bytes behind a head do not change it.
pub head-append :
    (a b : List ℕ)
    → 12 ≤ length a
    → (head_main_word (a ++ b) ≡ head_main_word a)
      × (head_size (a ++ b) ≡ head_size a)
      × (get_or (a ++ b) 0 0 ≡ get_or a 0 0)
head-append a b h =
    let (w, s, f) = head-take (a ++ b) 12 (omega arith) in
    let (w', s', f') = head-take a 12 (omega arith) in
    let e : take 12 (a ++ b) ≡ take 12 a = take-append_of_le 12 a b h in
    (
      sym w ∙ ap head_main_word e ∙ w',
      sym s ∙ ap head_size e ∙ s',
      sym f ∙ ap (λ t. get_or t 0 0) e ∙ f',
    )

pub IsHead-append : (a b : List ℕ) → 12 ≤ length a → IsHead a → IsHead (a ++ b)
IsHead-append a b h k = let (w, s, f) = head-append a b h in rw (w, s, f) k

pub is_head-append : (a b : List ℕ) → 12 ≤ length a → is_head a ≡ false → is_head (a ++ b) ≡ false
is_head-append a b h k = let (w, s, f) = head-append a b h in rw (w, s, f) k

-- The parser with the bytes `b` to read and nothing begun.
abbrev pub start : List ℕ → Parser
start b = record { parsing_buffer = b; state = state_nodata; tmp_dg_buf = [] }

-- The parser with the head of `b` read.
abbrev pub head_read : List ℕ → Parser
head_read b = record {
  parsing_buffer = b;
  state = state_receiving_data;
  tmp_dg_buf = take sizeof_data_head b;
}

module _ (b : List ℕ) (out : List (List ℕ)) (fuel : ℕ) (long : 12 ≤ length b) where
  header_round : round (start b) out ≡ continues (set_state (start b) state_receiving_header) out
  unfolding round_in
  header_round = ground arith

  pub read_head :
      IsHead b → parse_data (suc (suc fuel)) (start b) out ≡ parse_data fuel (head_read b) out
  unfolding round_in
  read_head h =
      loop_continues (suc fuel) (start b) out (omega arith)
        (set_state (start b) state_receiving_header) out header_round
      ∙ loop_continues fuel (set_state (start b) state_receiving_header) out (omega arith)
          (head_read b) out (ground (arith, head-take b 12 (omega arith)))

  abbrev in_header : Parser
  in_header = set_state (start b) state_receiving_header

  rejected :
      is_head b ≡ false
      → ((receiving_header in_header).state ≡ state_error)
        × ((receiving_header in_header).parsing_buffer ≡ b)
  unfolding receiving_header
  rejected e = ground (arith, head-take b 12 (omega arith))

  pub skip_byte :
      is_head b ≡ false
      → parse_data (suc (suc (suc fuel))) (start b) out ≡ parse_data fuel (start (drop 1 b)) out
  skip_byte e =
      loop_continues (suc (suc fuel)) (start b) out (omega arith) in_header out header_round
      ∙ loop_continues (suc fuel) in_header out (omega arith) (receiving_header in_header) out
          (unfold round_in in refl)
      ∙ loop_continues fuel (receiving_header in_header) out (rw (rejected e).1 (omega arith))
          (start (drop 1 b)) out (unfold round_in in rw ((rejected e).0, (rejected e).1))

  copied : (head_size (take 12 b) ≡ head_size b) × (length (take 12 b) ≡ 12)
  copied = ((head-take b 12 (omega arith)).1, omega (arith, length-take 12 b))

  data_round_complete :
      12 ≤ head_size b
      → head_size b ≤ length b
      → round (head_read b) out
        ≡ continues
            (record {
              parsing_buffer = b;
              state = state_receiving_complete;
              tmp_dg_buf = take (head_size b) b;
            })
            out
  unfolding round_in
  data_round_complete l k =
      rw (copied.0, copied.1, le→ltb (length b) (head_size b) k, le→ltb (head_size b) 12 l)
        (ap
          (λ t.
            continues
              (record { parsing_buffer = b; state = state_receiving_complete; tmp_dg_buf = t }) out)
          (take-drop-append 12 (head_size b) b l))

  complete_round :
      head_size b ≤ length b
      → round
          (record {
            parsing_buffer = b;
            state = state_receiving_complete;
            tmp_dg_buf = take (head_size b) b;
          })
          out
        ≡ continues (start (drop (head_size b) b)) (out ++ take (head_size b) b ∷ [])
  unfolding round_in
  complete_round k =
      let e : length (take (head_size b) b) ≡ head_size b =
        omega (arith, length-take (head_size b) b) in
      rw e

  data_round_waits :
      length b < head_size b
      → round (head_read b) out
        ≡ continues (set_state (head_read b) state_receiving_wait_new_data) out
  unfolding round_in
  data_round_waits w = rw (copied.0, lt→ltb (length b) (head_size b) w)

  data_round_undefined : head_size b < 12 → round (head_read b) out ≡ undefined
  unfolding round_in
  data_round_undefined w =
      rw (
        copied.0,
        copied.1,
        le→ltb (length b) (head_size b) (omega arith),
        lt→ltb (head_size b) 12 w,
      )

  -- With the head read, the datagram is there, is waited for, or has a size that is none.
  pub take_datagram :
      12 ≤ head_size b
      → head_size b ≤ length b
      → parse_data (suc (suc fuel)) (head_read b) out
        ≡ parse_data fuel (start (drop (head_size b) b)) (out ++ take (head_size b) b ∷ [])
  take_datagram l k =
      loop_continues (suc fuel) (head_read b) out (omega arith)
        (record {
          parsing_buffer = b;
          state = state_receiving_complete;
          tmp_dg_buf = take (head_size b) b;
        })
        out (data_round_complete l k)
      ∙ loop_continues fuel _ out (omega arith) (start (drop (head_size b) b))
          (out ++ take (head_size b) b ∷ []) (complete_round k)

  pub wait_datagram :
      length b < head_size b
      → parse_data (suc (suc fuel)) (head_read b) out ≡ done (head_read b) out
  wait_datagram w =
      loop_continues (suc fuel) (head_read b) out (omega arith)
        (set_state (head_read b) state_receiving_wait_new_data) out (data_round_waits w)
      ∙ loop_breaks fuel (set_state (head_read b) state_receiving_wait_new_data) out (omega arith)
          (head_read b) out (unfold round_in in refl)

  pub broken_datagram :
      head_size b < 12 → parse_data (suc fuel) (head_read b) out ≡ undefined_behaviour
  broken_datagram w = loop_undefined fuel (head_read b) out (omega arith) (data_round_undefined w)

-- The loop stops where too few bytes for a head are left.
pub short_stop :
    (b : List ℕ) (out : List (List ℕ)) (fuel : ℕ)
    → length b < 12
    → parse_data (suc fuel) (start b) out ≡ done (start b) out
unfolding parse_data
short_stop [] out fuel h = refl
short_stop (x ∷ b) out fuel h =
    loop_breaks fuel (start (x ∷ b)) out (omega arith) (start (x ∷ b)) out
      (rw (lt→leb 12 (suc (length b)) h))
