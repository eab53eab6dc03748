-- ===== src/Worker/Tests.antt =====
-- Runs of the worker's threads, and the theorems at concrete inputs.
use shovel_server.Base.{
  ℕ, ◌≡◌, refl, Bool, true, false, none, some, List, [], ◌∷◌, arith, pos, length, take, drop,
}
use shovel_server.Parser
use shovel_server.Parser.{init}
use shovel_server.Worker.{
  set_parser, Statistics, Attempt, ReadRound, Reading, goes_on, WriteRound, Writing, writes,
  thread_read_from_source, thread_write_to_source, get_connection_statistics,
}
use shovel_server.Worker.Reader.{Outcome, reader_delivers}
use shovel_server.SizedArray.{SizedArray}
use shovel_server.Worker.Source.{SourceRound, read_rounds, base_read_data_from_source}
use shovel_server.Worker.Sink.{Side, SinkRound, write_to_source, base_write_data_to_source}
use shovel_server.Worker.Writer.{Keeps, writer-Keeps, writer_ignores_stop}

abbrev no_traffic : Statistics
no_traffic = record {
  total_sent_bytes = 0;
  total_recv_bytes = 0;
  chunk_sent_bytes = 0;
  chunk_recv_bytes = 0;
  last_check_time_msec = 0;
}

-- A datagram of 14 bytes, and the round in which `bytes` come and the queue gives these answers.
abbrev datagram : List ℕ
datagram = 0xff ∷ 0xff ∷ 0xff ∷ 0xff ∷ 1 ∷ 0 ∷ 1 ∷ 0 ∷ 14 ∷ 0 ∷ 0 ∷ 0 ∷ 5 ∷ 6 ∷ []

abbrev comes : List ℕ → List Attempt → ReadRound
comes bytes attempts = record {
  goes_on = true;
  read_status = pos (length bytes);
  bytes = bytes;
  goes_on_after = true;
  attempts = attempts;
}

abbrev answers_with : ℕ → Attempt
answers_with n = record { put_status = n; goes_on = true; goes_on_behind = true }

abbrev new_reader : Reading
new_reader = record { parser = some init; statistics = no_traffic; queued = [] }

-- The datagram comes in two parts, and the queue is full at first.
abbrev two_parts : List ReadRound
two_parts =
    comes (take 5 datagram) []
    ∷ comes (drop 5 datagram) (answers_with 0 ∷ answers_with 14 ∷ [])
    ∷ []

abbrev counts_14 : Statistics
counts_14 = record no_traffic { total_recv_bytes = 14; chunk_recv_bytes = 14 }

two_parts_run :
    thread_read_from_source new_reader two_parts
    ≡ goes_on (record { parser = some init; statistics = counts_14; queued = datagram ∷ [] })
unfolding thread_read_from_source init Parser.put
two_parts_run = refl

chunk_is_reset :
    get_connection_statistics counts_14 99
    ≡ (counts_14, record no_traffic { total_recv_bytes = 14; last_check_time_msec = 99 })
unfolding get_connection_statistics
chunk_is_reset = refl

reader_delivers_example : Outcome [] two_parts (thread_read_from_source new_reader two_parts)
reader_delivers_example = reader_delivers no_traffic two_parts

-- Two messages, of which the destination takes the first at the second try.
abbrev two_messages : WriteRound
two_messages = record {
  goes_on = true;
  arrivals = (1 ∷ 2 ∷ []) ∷ (3 ∷ []) ∷ [];
  goes_on_after = true;
  answers = pos 0 ∷ pos 2 ∷ [];
}

abbrev new_writer : Writing
new_writer = record { statistics = no_traffic; pending = []; written = [] }

-- The queue is looked at again, and the destination gives only the answer 0.
abbrev no_answer : WriteRound
no_answer = record { goes_on = true; arrivals = []; goes_on_after = true; answers = pos 0 ∷ [] }

abbrev one_written : Writing
one_written = record {
  statistics = record no_traffic { total_sent_bytes = 2; chunk_sent_bytes = 2 };
  pending = (3 ∷ []) ∷ [];
  written = (1 ∷ 2 ∷ []) ∷ [];
}

two_messages_run :
    thread_write_to_source new_writer (two_messages ∷ no_answer ∷ []) ≡ writes one_written
unfolding thread_write_to_source
two_messages_run = refl

writer-Keeps_example :
    Keeps new_writer
      (two_messages ∷ no_answer ∷ [])
      (thread_write_to_source new_writer (two_messages ∷ no_answer ∷ []))
writer-Keeps_example = writer-Keeps (two_messages ∷ no_answer ∷ []) new_writer

-- In the rounds to come the thread would be asked to stop.
abbrev asked_to_stop : WriteRound
asked_to_stop = record no_answer { goes_on = false; goes_on_after = false }

writer_ignores_stop_example :
    thread_write_to_source one_written (no_answer ∷ asked_to_stop ∷ []) ≡ writes one_written
writer_ignores_stop_example =
    writer_ignores_stop one_written no_answer (asked_to_stop ∷ []) (3 ∷ []) [] refl refl refl
      (omega arith) (refl, tt)

abbrev has_empty : Writing
has_empty = record new_writer { pending = [] ∷ (7 ∷ []) ∷ [] }

-- Over the methods that a subclass overrides, nothing is read, and a message is tried for ever.
abbrev array : SizedArray
array = record { elements = []; data_size = 0 }

abbrev base_round : SourceRound Bool
base_round = record { goes_on = true; answer = true; goes_on_after = true; attempts = [] }

base_reads_nothing :
    thread_read_from_source new_reader
      (read_rounds base_read_data_from_source true array (base_round ∷ base_round ∷ []))
    ≡ goes_on new_reader
unfolding thread_read_from_source read_rounds base_read_data_from_source
base_reads_nothing = refl

abbrev base_side : Side Bool ℕ
base_side = record { state = true; buf = array; wire = [] }

abbrev base_write_round : SinkRound Bool
base_write_round = record {
  goes_on = true;
  arrivals = (7 ∷ []) ∷ [];
  goes_on_after = true;
  calls = true ∷ true ∷ [];
}

base_writes_nothing :
    (write_to_source base_write_data_to_source new_writer base_side (base_write_round ∷ [])).0
    ≡ writes (record new_writer { pending = (7 ∷ []) ∷ [] })
unfolding write_to_source base_write_data_to_source
base_writes_nothing = refl

parser_is_set : set_parser (some init) (record new_reader { parser = none }) ≡ new_reader
unfolding set_parser
parser_is_set = refl
