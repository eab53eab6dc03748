-- ===== src/Parser/Main.antt =====
-- src/parsers/main.cpp: a datagram behind some garbage, and what the program prints of what the parser
-- finds in it.
use shovel_server.Base.{
  ℕ, zero, suc, ◌+◌, ◌/◌, ◌%◌, Option, none, some, List, [], ◌∷◌, ◌++◌, map, length, memcpy, resize,
}
use shovel_server.Parser.{put, init, done, main_word, uint16_at, uint32_at, sizeof_data_head}

-- ParserExample::data_head, and its constructor.
pub record DataHead : Type 0 where
  pub main_word : ℕ
  pub msg_type : ℕ
  pub msg_ver : ℕ
  pub size : ℕ
  pub reserv : ℕ

abbrev data_head : DataHead
data_head = record { main_word = main_word; msg_type = 0; msg_ver = 0; size = 0; reserv = 0 }

abbrev uint16_bytes : ℕ → List ℕ
uint16_bytes n = (n % 256) ∷ (n / 256 % 256) ∷ []

-- The twelve bytes of a head in memory.
unfoldable bytes_of : DataHead → List ℕ
bytes_of h =
    uint16_bytes (h.main_word % 65536)
    ++ uint16_bytes (h.main_word / 65536)
    ++ uint16_bytes h.msg_type
    ++ uint16_bytes h.msg_ver
    ++ uint16_bytes h.size
    ++ uint16_bytes h.reserv

-- for (int i = from; i < from + count; i++) garbage.push_back(i);
unfoldable garbage : ℕ → ℕ → List ℕ
garbage from zero = []
garbage from (suc count) = (from % 256) ∷ garbage (from + 1) count

abbrev head : DataHead
head = record data_head { main_word = 0xffffffff; msg_ver = 4; size = 56; msg_type = 33 }

-- `data` before the garbage is put in front of it.
unfoldable input : List ℕ
unfolding bytes_of
input = memcpy (resize 56 []) (bytes_of head) sizeof_data_head

-- dg_head->main_word, size, msg_type and msg_ver.
abbrev pub shown : List ℕ → ℕ × ℕ × ℕ × ℕ
shown dg = (uint32_at dg 0, uint16_at dg 8, uint16_at dg 4, uint16_at dg 6)

-- What main prints: the head as it is put in, the count of what is found, and the head of each.
unfoldable pub main : Option ((ℕ × ℕ × ℕ × ℕ) × ℕ × List (ℕ × ℕ × ℕ × ℕ))
unfolding input garbage
main = elim (put init (garbage 0 10 ++ input)) [
  | done parser for_parsed ↦ some (shown input, length for_parsed, map shown for_parsed)
  | _ ↦ none
]
