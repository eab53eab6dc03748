-- ===== src/LocalWorker/Tests.antt =====
-- Runs of a worker over a LocalSocket, and the theorem at a concrete input.
use shovel_server.Base.{
  ℕ, zero, suc, ◌≡◌, refl, true, some, List, [], ◌∷◌, map, arith, replicate, memcpy,
}
use shovel_server.SizedArray.{SizedArray, contents}
use shovel_server.LocalSocket.{
  Send, sent, send_fails, received, recv_fails, Recv, eagain, enoent, read, write,
}
use shovel_server.Worker.{Statistics, Writing, thread_read_from_source}
use shovel_server.Worker.Writer.{state_of}
use shovel_server.Worker.Sink.{Side, SinkRound, write_to_source}
use shovel_server.Worker.Sink.Rounds.{RunsAs}
use shovel_server.LocalWorker.{
  LocalWorker, write_data_to_source, read_data_from_source, local_write_to_source,
}
use shovel_server.Parser.{init}
use shovel_server.Worker.Source.{SourceRound, read_rounds}
use shovel_server.Worker.Source.Heard.{Hears}
use shovel_server.LocalWorker.Receiving.{local_source, local_reader-Hears}
use shovel_server.LocalWorker.Delivering.{local_datagrams_arrive}
use shovel_server.Parser.{prepare_data_for_sending}
use shovel_server.Parser.Print.{concat}
use shovel_server.Worker.Progress.{Accepts}
use shovel_server.Worker.Source.Heard.{heard}
use shovel_server.Worker.{Attempt, Reading, WriteState, goes_on}
use shovel_server.LocalSocket.{econnrefused}
use shovel_server.LocalWorker.Wire.{local_writer_sends}

abbrev worker : LocalWorker
worker = record { local_socket = some (record { fd = 4; buf_for_reading = [] }) }

abbrev array : SizedArray
array = record { elements = []; data_size = 0 }

one_datagram_read :
    contents (read_data_from_source (received (8 ∷ 9 ∷ [])) worker array).buf ≡ 8 ∷ 9 ∷ []
unfolding read_data_from_source read memcpy
one_datagram_read = refl

abbrev no_traffic : Statistics
no_traffic = record {
  total_sent_bytes = 0;
  total_recv_bytes = 0;
  chunk_sent_bytes = 0;
  chunk_recv_bytes = 0;
  last_check_time_msec = 0;
}

-- Two messages. The other side is not there at first.
abbrev two_messages : List (SinkRound Send)
two_messages =
    (record {
      goes_on = true;
      arrivals = (1 ∷ 2 ∷ []) ∷ (3 ∷ []) ∷ [];
      goes_on_after = true;
      calls = send_fails enoent ∷ sent 2 ∷ [];
    })
    ∷ (record { goes_on = true; arrivals = []; goes_on_after = true; calls = sent 1 ∷ [] })
    ∷ []

abbrev new_writer : Writing
new_writer = record { statistics = no_traffic; pending = []; written = [] }

abbrev new_side : Side LocalWorker (List ℕ)
new_side = record { state = worker; buf = array; wire = [] }

each_once :
    (local_write_to_source new_writer new_side two_messages).1.wire ≡ (1 ∷ 2 ∷ []) ∷ (3 ∷ []) ∷ []
unfolding write_to_source write_data_to_source write memcpy
each_once = refl

local_writer_sends_example :
    let end = local_write_to_source new_writer new_side two_messages in
    (end.1.wire ≡ (state_of end.0).written)
    × RunsAs write_data_to_source new_writer two_messages end.0
local_writer_sends_example =
    local_writer_sends two_messages no_traffic [] worker array
      ((tt, (omega arith, tt)), ((omega arith, tt), tt))

-- An empty datagram, and nothing for the time being, go by.
abbrev nothing_comes : List (SourceRound Recv)
nothing_comes =
    (record { goes_on = true; answer = received []; goes_on_after = true; attempts = [] })
    ∷ (record { goes_on = true; answer = recv_fails eagain; goes_on_after = true; attempts = [] })
    ∷ []

local_reader-Hears_example : Hears read_data_from_source local_source nothing_comes (
    thread_read_from_source
      (record { parser = some init; statistics = no_traffic; queued = [] })
      (read_rounds read_data_from_source worker array nothing_comes))
local_reader-Hears_example =
    local_reader-Hears nothing_comes worker array no_traffic (_, refl, λ e. cc)
      (omega arith, (tt, tt))

-- A datagram of two bytes and an empty one go out, the first at the second try, and arrive.
abbrev payload : List ℕ
payload = 5 ∷ 6 ∷ []

abbrev two_datagrams : List (SinkRound Send)
two_datagrams =
    (record {
      goes_on = true;
      arrivals = [];
      goes_on_after = true;
      calls = send_fails econnrefused ∷ sent 14 ∷ [];
    })
    ∷ (record { goes_on = true; arrivals = []; goes_on_after = true; calls = sent 12 ∷ [] })
    ∷ []

abbrev to_send : List (List ℕ)
to_send = prepare_data_for_sending payload ∷ prepare_data_for_sending [] ∷ []

abbrev end_of_writing : WriteState × Side LocalWorker (List ℕ)
end_of_writing =
    local_write_to_source (record { statistics = no_traffic; pending = to_send; written = [] })
      new_side two_datagrams

-- The queue takes a datagram.
abbrev taken : Attempt
taken = record { put_status = 14; goes_on = true; goes_on_behind = true }

taken-Accepts : (n : ℕ) → Accepts n (replicate n taken)
taken-Accepts zero = tt
taken-Accepts (suc n) = (refl, refl, taken-Accepts n)

abbrev calm : Recv → SourceRound Recv
calm answer = record {
  goes_on = true;
  answer = answer;
  goes_on_after = true;
  attempts = replicate 26 taken;
}

abbrev both_come : List (SourceRound Recv)
both_come =
    calm (recv_fails eagain)
    ∷ calm (received (0xff ∷ 0xff ∷ 0xff ∷ 0xff ∷ 1 ∷ 0 ∷ 1 ∷ 0 ∷ 14 ∷ 0 ∷ 0 ∷ 0 ∷ 5 ∷ 6 ∷ []))
    ∷ calm (received (0xff ∷ 0xff ∷ 0xff ∷ 0xff ∷ 1 ∷ 0 ∷ 1 ∷ 0 ∷ 12 ∷ 0 ∷ 0 ∷ 0 ∷ []))
    ∷ []

both-written :
    (state_of end_of_writing.0).written ≡ map prepare_data_for_sending (payload ∷ [] ∷ [])
unfolding write_to_source write_data_to_source write memcpy prepare_data_for_sending
both-written = refl

both-come : heard read_data_from_source local_source both_come ≡ concat end_of_writing.1.wire
unfolding write_to_source write_data_to_source write memcpy prepare_data_for_sending
both-come = refl

local_datagrams_arrive_example :
    (r : Reading) × (thread_read_from_source
        (record { parser = some init; statistics = no_traffic; queued = [] })
        (read_rounds read_data_from_source worker array both_come)
      ≡ goes_on r)
    × (r.queued ≡ (state_of end_of_writing.0).written)
local_datagrams_arrive_example =
    local_datagrams_arrive (payload ∷ [] ∷ []) two_datagrams to_send worker array both_come worker
      array no_traffic ((tt, (omega arith, tt)), ((omega arith, tt), tt)) both-written
      (omega arith, (omega arith, tt)) (_, refl, λ e. cc) both-come
      (
        (refl, refl, tt, tt, taken-Accepts 26),
        (
          (refl, refl, omega arith, tt, taken-Accepts 26),
          ((refl, refl, omega arith, tt, taken-Accepts 26), tt),
        ),
      )
