-- ===== src/Parser.antt =====
-- src/parsers/ParserBase.h, ParserExample.h and ParserExample.cpp: cutting a byte stream into
-- datagrams. A byte is a number below 256. `none` stands for undefined behaviour of the source.
-- The platform is little-endian with 8-byte pointers, as the x86-64 builds of the source are.
pub mod Spec
pub mod Steps
pub mod Refine
pub mod Stream
pub mod Print
pub mod Bounds
mod Main
mod Tests
use shovel_server.Base.{
  ℕ, zero, suc, ◌+◌, ◌-◌, ◌*◌, ◌/◌, ◌%◌, Bool, true, false, ◌||◌, not, Option, none, some, List, [],
  ◌∷◌, ◌++◌, ltb, leb, ◌==◌, if◌then◌else◌, length, get_or, take, drop,
}

-- ParserExample::data_head, as its 12 bytes are laid out: a uint32_t and four uint16_t.
abbrev pub sizeof_data_head : ℕ
sizeof_data_head = 12

-- `sizeof(head)` in _receiving_header, where `head` is a pointer.
abbrev pub sizeof_head_pointer : ℕ
sizeof_head_pointer = 8

abbrev pub main_word : ℕ
main_word = 0xffffffff

-- The little-endian number at an offset.
abbrev pub uint16_at : List ℕ → ℕ → ℕ
uint16_at bytes i = get_or bytes i 0 + 256 * get_or bytes (i + 1) 0

abbrev pub uint32_at : List ℕ → ℕ → ℕ
uint32_at bytes i = uint16_at bytes i + 65536 * uint16_at bytes (i + 2)

-- head->main_word and head->size
abbrev pub head_main_word : List ℕ → ℕ
head_main_word bytes = uint32_at bytes 0

abbrev pub head_size : List ℕ → ℕ
head_size bytes = uint16_at bytes 8

-- PARSER_EXAMPLE_STATE
pub data State : Type 0 where
  state_nodata state_receiving_header state_receiving_data state_receiving_wait_new_data : State
  state_receiving_complete state_error : State

pub record Parser : Type 0 where
  pub parsing_buffer : List ℕ
  pub state : State
  pub tmp_dg_buf : List ℕ

unfoldable pub init : Parser
init = record { parsing_buffer = []; state = state_nodata; tmp_dg_buf = [] }

abbrev pub set_state : Parser → State → Parser
set_state p s = record p { state = s }

unfoldable pub receiving_header : Parser → Parser
receiving_header p =
    if not (get_or p.parsing_buffer 0 0 == main_word % 256)
    then set_state p state_error
    else let tmp = take sizeof_data_head p.parsing_buffer in
      record p {
        tmp_dg_buf = tmp;
        state =
            if not (head_main_word tmp == main_word) || ltb (head_size tmp) sizeof_head_pointer
            then state_error
            else state_receiving_data;
      }

-- The inserted range runs from the size of the temporary buffer to the size of the datagram. It is
-- no range, and the insertion undefined, if the second is smaller.
unfoldable pub receiving_data : Parser → Option Parser
receiving_data p =
    let size = head_size p.tmp_dg_buf in
    if ltb (length p.parsing_buffer) size
    then some (set_state p state_receiving_wait_new_data)
    else if ltb size (length p.tmp_dg_buf)
    then none
    else some (record p {
      tmp_dg_buf = p.tmp_dg_buf ++ drop (length p.tmp_dg_buf) (take size p.parsing_buffer);
      state = state_receiving_complete;
    })

unfoldable pub receiving_complete : Parser → List (List ℕ) → Parser × List (List ℕ)
receiving_complete p out = (
  record {
    parsing_buffer = drop (length p.tmp_dg_buf) p.parsing_buffer;
    state = state_nodata;
    tmp_dg_buf = [];
  },
  out ++ p.tmp_dg_buf ∷ [],
)

-- One round of the loop in _parse_data.
pub data Round : Type 0 where
  continues : Parser → List (List ℕ) → Round
  breaks : Parser → List (List ℕ) → Round
  undefined : Round

unfoldable pub receive : Option Parser → List (List ℕ) → Round
receive none out = undefined
receive (some p) out = continues p out

unfoldable pub round_in : State → Parser → List (List ℕ) → Round
unfolding receiving_header receiving_data receiving_complete receive
round_in state_nodata p out =
    if leb sizeof_data_head (length p.parsing_buffer)
    then continues (set_state p state_receiving_header) out
    else breaks p out
round_in state_receiving_header p out = continues (receiving_header p) out
round_in state_receiving_data p out = receive (receiving_data p) out
round_in state_receiving_wait_new_data p out = breaks (set_state p state_receiving_data) out
round_in state_receiving_complete p out =
    let (p', out') = receiving_complete p out in continues p' out'
round_in state_error p out =
    continues
      (record { parsing_buffer = drop 1 p.parsing_buffer; state = state_nodata; tmp_dg_buf = [] })
      out

abbrev pub round : Parser → List (List ℕ) → Round
round p out = round_in p.state p out

-- How the loop ends.
pub data Result : Type 0 where
  done : Parser → List (List ℕ) → Result
  undefined_behaviour : Result
  out_of_fuel : Result

abbrev pub is_empty : List ℕ → Bool
is_empty [] = true
is_empty (_ ∷ _) = false

-- while (!m_parsing_buffer.empty()) { … }, with fuel for its rounds.
unfoldable pub parse_data : ℕ → Parser → List (List ℕ) → Result
unfolding round_in
parse_data zero p out = out_of_fuel
parse_data (suc fuel) p out = elim (is_empty p.parsing_buffer) [
  | true ↦ done p out
  | false ↦ elim (round p out) [
    | continues p' out' ↦ parse_data fuel p' out'
    | breaks p' out' ↦ done p' out'
    | undefined ↦ undefined_behaviour
  ]
]

-- Enough rounds: five for each byte, and the states that may lie before the next byte goes.
abbrev pub fuel_for : List ℕ → ℕ
fuel_for bytes = 5 * length bytes + 6

-- ParserExample::put: the datagrams found are those of this call.
unfoldable pub put : Parser → List ℕ → Result
unfolding parse_data
put p bytes =
    parse_data (fuel_for (p.parsing_buffer ++ bytes))
      (record p { parsing_buffer = p.parsing_buffer ++ bytes }) []

-- ParserExample::prepare_data_for_sending. (The clock that the source reads there is not used.)
unfoldable pub prepare_data_for_sending : List ℕ → List ℕ
prepare_data_for_sending bytes =
    if ltb (65535 - sizeof_data_head) (length bytes)
    then []
    else let size = sizeof_data_head + length bytes in
      (0xff ∷ 0xff ∷ 0xff ∷ 0xff ∷ 1 ∷ 0 ∷ 1 ∷ 0 ∷ (size % 256) ∷ (size / 256) ∷ 0 ∷ 0 ∷ [])
      ++ bytes

-- ParserBase::put, which finds nothing and leaves the caller's vector of datagrams.
unfoldable pub base_put : List (List ℕ) → List ℕ → ℕ × List (List ℕ)
base_put dg_vector bytes = (length dg_vector, dg_vector)
