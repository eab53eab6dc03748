-- ===== src/Parser/Tests.antt =====
-- Runs of the parser, that of src/parsers/main.cpp among them, and the theorems at concrete inputs.
use shovel_server.Base.{
  ℕ, ◌<◌, ◌≡◌, refl, ◌⊎◌, some, List, [], ◌∷◌, ◌++◌, arith, length, replicate, All, memcpy, resize,
}
use shovel_server.Parser.{
  Parser, init, put, done, undefined_behaviour, prepare_data_for_sending, state_receiving_data,
}
use shovel_server.Parser.Main.{main}
use shovel_server.Parser.Spec.{Parses, Broken}
use shovel_server.Parser.Refine.{AtRest, init-AtRest, put_total}
use shovel_server.Parser.Stream.{put-append}
use shovel_server.Parser.Bounds.{IsByte, IsShort, put_bounded}
use shovel_server.Parser.Print.{concat, put-prepare, put_resynchronises, small_size_undefined}

-- A head of the given size, of message type 33 and version 4.
abbrev head_of : ℕ → List ℕ
head_of size = 0xff ∷ 0xff ∷ 0xff ∷ 0xff ∷ 33 ∷ 0 ∷ 4 ∷ 0 ∷ size ∷ 0 ∷ 0 ∷ 0 ∷ []

-- The datagram of parsers/main.cpp, and the garbage in front of it.
abbrev main_datagram : List ℕ
main_datagram = head_of 56 ++ replicate 44 0

abbrev garbage : List ℕ
garbage = 0 ∷ 1 ∷ 2 ∷ 3 ∷ 4 ∷ 5 ∷ 6 ∷ 7 ∷ 8 ∷ 9 ∷ []

main_run : put init (garbage ++ main_datagram) ≡ done init (main_datagram ∷ [])
unfolding put init
main_run = refl

-- The program finds its datagram.
program_run : main ≡ some ((0xffffffff, 56, 33, 4), 1, (0xffffffff, 56, 33, 4) ∷ [])
unfolding main put init resize memcpy
program_run = refl

put_resynchronises_example :
    put init (garbage ++ concat (main_datagram ∷ [])) ≡ done init (main_datagram ∷ [])
put_resynchronises_example = put_resynchronises garbage main_datagram [] (omega arith) (omega arith)

put-prepare_example :
    put init (concat (prepare_data_for_sending (7 ∷ 8 ∷ []) ∷ prepare_data_for_sending [] ∷ []))
    ≡ done init (prepare_data_for_sending (7 ∷ 8 ∷ []) ∷ prepare_data_for_sending [] ∷ [])
put-prepare_example = put-prepare ((7 ∷ 8 ∷ []) ∷ [] ∷ []) (omega arith)

-- The first 13 bytes of a datagram of 14, then the last one.
abbrev cut : List ℕ
cut = head_of 14 ++ 1 ∷ []

abbrev waits_for_more : Parser
waits_for_more = record {
  parsing_buffer = cut;
  state = state_receiving_data;
  tmp_dg_buf = head_of 14;
}

cut_run :
    (put init cut ≡ done waits_for_more [])
    × (put waits_for_more (2 ∷ []) ≡ done init ((cut ++ 2 ∷ []) ∷ []))
unfolding put init
cut_run = (refl, refl)

put_bounded_example :
    All IsShort []
    × (length waits_for_more.parsing_buffer < 65535)
    × All IsByte waits_for_more.parsing_buffer
unfolding init
put_bounded_example = put_bounded init waits_for_more cut [] init-AtRest tt (omega arith) cut_run.0

put-append_example :
    (p' : Parser) × (put init (cut ++ 2 ∷ []) ≡ done p' ((cut ++ 2 ∷ []) ∷ []))
    × (p'.parsing_buffer ≡ [])
    × AtRest p'
unfolding init
put-append_example =
    put-append init waits_for_more init cut (2 ∷ []) [] ((cut ++ 2 ∷ []) ∷ []) init-AtRest cut_run.0
      cut_run.1

put_total_example :
    ((p' : Parser) × (ms : List (List ℕ)) × (put init cut ≡ done p' ms)
      × AtRest p'
      × Parses cut ms p'.parsing_buffer)
    ⊎ ((put init cut ≡ undefined_behaviour) × Broken cut)
unfolding init
put_total_example = put_total init cut init-AtRest

small_size_undefined_example :
    put init (concat (main_datagram ∷ []) ++ head_of 8) ≡ undefined_behaviour
small_size_undefined_example =
    small_size_undefined (main_datagram ∷ []) (head_of 8) (omega arith) (omega arith) (omega arith)
      (omega arith)
