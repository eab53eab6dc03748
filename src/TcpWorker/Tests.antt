-- ===== src/TcpWorker/Tests.antt =====
-- Runs of a worker over a TCPSocket, and the theorems at concrete inputs.
use shovel_server.Base.{
  ℕ, zero, suc, ◌≡◌, refl, true, some, List, [], ◌∷◌, ◌++◌, map, arith, pos, replicate, memcpy,
}
use shovel_server.SizedArray.{SizedArray}
use shovel_server.TcpSocket.{Send, write, ok, eagain, received, recv_fails, Recv, sent, send_fails}
use shovel_server.Parser.{init, prepare_data_for_sending}
use shovel_server.Worker.{Statistics, Attempt, Reading, goes_on, thread_read_from_source, Writing}
use shovel_server.Worker.Progress.{Accepts}
use shovel_server.TcpWorker.{
  TcpWorker, read_data_from_source, write_data_to_source, tcp_write_to_source,
}
use shovel_server.TcpWorker.Receiving.{tcp_source, tcp_reader-Hears}
use shovel_server.TcpWorker.Arriving.{datagrams_arrive}
use shovel_server.TcpWorker.Sending.{tcp_sink}
use shovel_server.TcpWorker.Delivering.{written_datagrams_arrive}
use shovel_server.Worker.Writer.{state_of}
use shovel_server.TcpWorker.Wire.{tcp_writer-Sent}
use shovel_server.Worker.Source.{SourceRound, read_rounds}
use shovel_server.Worker.Source.Heard.{heard, Hears}
use shovel_server.Worker.Sink.{Side, SinkRound, write_to_source}
use shovel_server.Worker.Sink.Rounds.{RunsAs}
use shovel_server.Worker.Sink.Sent.{Sent}

abbrev worker : TcpWorker
worker = record {
  net_socket =
      some (record { descr = pos 5; status = ok; sin_port = 80; sin_addr = 1; read_buf = [] });
  read_count = 0;
}

abbrev array : SizedArray
array = record { elements = []; data_size = 0 }

abbrev no_traffic : Statistics
no_traffic = record {
  total_sent_bytes = 0;
  total_recv_bytes = 0;
  chunk_sent_bytes = 0;
  chunk_recv_bytes = 0;
  last_check_time_msec = 0;
}

-- The queue takes a datagram of 14 bytes.
abbrev taken : Attempt
taken = record { put_status = 14; goes_on = true; goes_on_behind = true }

abbrev calm_for : ℕ → Recv → SourceRound Recv
calm_for count answer = record {
  goes_on = true;
  answer = answer;
  goes_on_after = true;
  attempts = replicate count taken;
}

abbrev calm : Recv → SourceRound Recv
calm = calm_for 14

taken-Accepts : (n : ℕ) → Accepts n (replicate n taken)
taken-Accepts zero = tt
taken-Accepts (suc n) = (refl, refl, taken-Accepts n)

-- A datagram with two bytes, which comes in two parts.
abbrev payload : List ℕ
payload = 5 ∷ 6 ∷ []

abbrev two_parts : List (SourceRound Recv)
two_parts =
    calm (received (0xff ∷ 0xff ∷ 0xff ∷ 0xff ∷ 1 ∷ []))
    ∷ calm (recv_fails eagain)
    ∷ calm (received (0 ∷ 1 ∷ 0 ∷ 14 ∷ 0 ∷ 0 ∷ 0 ∷ 5 ∷ 6 ∷ []))
    ∷ []

arrives : heard read_data_from_source tcp_source two_parts ≡ prepare_data_for_sending payload ++ []
unfolding prepare_data_for_sending
arrives = refl

datagrams_arrive_example :
    (r : Reading) × (thread_read_from_source
        (record { parser = some init; statistics = no_traffic; queued = [] })
        (read_rounds read_data_from_source worker array two_parts)
      ≡ goes_on r)
    × (r.queued ≡ prepare_data_for_sending payload ∷ [])
datagrams_arrive_example =
    datagrams_arrive (payload ∷ []) two_parts worker array no_traffic (omega arith, tt)
      (_, refl, refl, refl) arrives
      (
        (refl, refl, omega arith, tt, taken-Accepts 14),
        (
          (refl, refl, tt, tt, taken-Accepts 14),
          ((refl, refl, omega arith, tt, taken-Accepts 14), tt),
        ),
      )

-- The peer closes before the second part.
abbrev closed_early : List (SourceRound Recv)
closed_early =
    calm (received (0xff ∷ 0xff ∷ 0xff ∷ 0xff ∷ 1 ∷ []))
    ∷ calm (received [])
    ∷ calm (received (7 ∷ []))
    ∷ []

tcp_reader-Hears_example : Hears read_data_from_source tcp_source closed_early (
    thread_read_from_source
      (record { parser = some init; statistics = no_traffic; queued = [] })
      (read_rounds read_data_from_source worker array closed_early))
tcp_reader-Hears_example =
    tcp_reader-Hears closed_early worker array no_traffic (_, refl, refl, refl)
      (omega arith, (omega arith, (omega arith, tt)))

-- Two messages. Of the first one the system takes a byte, and no more for the time being.
abbrev two_messages : List (SinkRound (List Send))
two_messages =
    (record {
      goes_on = true;
      arrivals = (1 ∷ 2 ∷ []) ∷ (3 ∷ []) ∷ [];
      goes_on_after = true;
      calls = (sent 1 ∷ send_fails eagain ∷ []) ∷ (sent 2 ∷ []) ∷ [];
    })
    ∷ (record { goes_on = true; arrivals = []; goes_on_after = true; calls = (sent 1 ∷ []) ∷ [] })
    ∷ []

abbrev new_writer : Writing
new_writer = record { statistics = no_traffic; pending = []; written = [] }

abbrev new_side : Side TcpWorker ℕ
new_side = record { state = worker; buf = array; wire = [] }

byte_twice : (tcp_write_to_source new_writer new_side two_messages).1.wire ≡ 1 ∷ 1 ∷ 2 ∷ 3 ∷ []
unfolding write_to_source write_data_to_source write memcpy
byte_twice = refl

tcp_writer-Sent_example :
    let end = tcp_write_to_source new_writer new_side two_messages in
    Sent write_data_to_source tcp_sink end
    × RunsAs write_data_to_source new_writer two_messages end.0
tcp_writer-Sent_example = tcp_writer-Sent two_messages no_traffic [] worker array

-- Two datagrams go out, the first in two pieces, and arrive in two others.
abbrev all_taken : List Send
all_taken = sent 3 ∷ sent 65532 ∷ []

abbrev two_datagrams : List (SinkRound (List Send))
two_datagrams =
    (record {
      goes_on = true;
      arrivals = prepare_data_for_sending payload ∷ prepare_data_for_sending [] ∷ [];
      goes_on_after = true;
      calls = all_taken ∷ [];
    })
    ∷ (record { goes_on = true; arrivals = []; goes_on_after = true; calls = all_taken ∷ [] })
    ∷ []

abbrev both_parts : List (SourceRound Recv)
both_parts =
    calm_for 26 (received (0xff ∷ 0xff ∷ 0xff ∷ 0xff ∷ 1 ∷ []))
    ∷ calm_for 26 (recv_fails eagain)
    ∷ calm_for 26 (
        received (
          0 ∷ 1 ∷ 0 ∷ 14 ∷ 0 ∷ 0 ∷ 0 ∷ 5 ∷ 6 ∷ 0xff ∷ 0xff ∷ 0xff ∷ 0xff ∷ 1 ∷ 0 ∷ 1 ∷ 0 ∷ 12 ∷ 0
          ∷ 0 ∷ 0 ∷ []))
    ∷ []

abbrev written_at_end : List (List ℕ)
written_at_end = (state_of (tcp_write_to_source new_writer new_side two_datagrams).0).written

both-written : written_at_end ≡ map prepare_data_for_sending (payload ∷ [] ∷ [])
unfolding write_to_source write_data_to_source write memcpy prepare_data_for_sending
both-written = refl

both-arrive :
    heard read_data_from_source tcp_source both_parts
    ≡ (tcp_write_to_source new_writer new_side two_datagrams).1.wire
unfolding write_to_source write_data_to_source write memcpy prepare_data_for_sending
both-arrive = refl

written_datagrams_arrive_example :
    (r : Reading) × (thread_read_from_source
        (record { parser = some init; statistics = no_traffic; queued = [] })
        (read_rounds read_data_from_source worker array both_parts)
      ≡ goes_on r)
    × (r.queued ≡ written_at_end)
written_datagrams_arrive_example =
    written_datagrams_arrive (payload ∷ [] ∷ []) two_datagrams new_writer new_side both_parts worker
      array no_traffic refl refl ((refl, tt), ((refl, tt), tt)) both-written
      (omega arith, (omega arith, tt)) (_, refl, refl, refl) both-arrive
      (
        (refl, refl, omega arith, tt, taken-Accepts 26),
        (
          (refl, refl, tt, tt, taken-Accepts 26),
          ((refl, refl, omega arith, tt, taken-Accepts 26), tt),
        ),
      )
