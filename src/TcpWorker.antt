-- ===== src/TcpWorker.antt =====
-- src/connections/workers/TCPSocketWorker.h and TCPSocketWorker.cpp: the worker whose source is a
-- TCPSocket, and its threads.
pub mod Receiving
pub mod Arriving
pub mod Sending
pub mod Wire
pub mod Delivering
mod Tests
use shovel_server.Base.{
  ℕ, ◌+◌, ◌%◌, ◌^◌, Option, none, some, List, [], ℤ, negsuc, if◌then◌else◌, is_negative,
}
use shovel_server.SizedArray.{SizedArray}
use shovel_server.TcpSocket.{TcpSocket, Recv, Send, ReadResult, read, write, minus_one}
use shovel_server.Worker.Source.{ReadAnswer}
use shovel_server.Worker.Sink.{WriteAnswer, Side, SinkRound, write_to_source}
use shovel_server.Worker.{magnitude, Writing, WriteState}

-- The socket, if one was given, and the variable `read_count`, which all workers share, and which is
-- only written.
pub record TcpWorker : Type 0 where
  pub net_socket : Option TcpSocket
  pub read_count : ℕ

abbrev to_uint32 : ℕ → ℕ
to_uint32 n = n % 2 ^ 32

unfoldable pub after_read : TcpWorker → ReadResult → ReadAnswer TcpWorker
after_read w r =
    if is_negative r.result
    then record { result = minus_one; state = record w { net_socket = some r.socket }; buf = r.buf }
    else record {
      result = r.result;
      state = record {
        net_socket = some r.socket;
        read_count = to_uint32 (w.read_count + magnitude r.result);
      };
      buf = r.buf;
    }

read_by : Option TcpSocket → Recv → TcpWorker → SizedArray → ReadAnswer TcpWorker
unfolding after_read
read_by (some s) answer w buf = after_read w (read answer s buf)
read_by none answer w buf = record { result = minus_one; state = w; buf = buf }

unfoldable pub read_data_from_source : Recv → TcpWorker → SizedArray → ReadAnswer TcpWorker
unfolding read_by
read_data_from_source answer w buf = read_by w.net_socket answer w buf

abbrev pub minus_two : ℤ
minus_two = negsuc 1

abbrev pub write_status : Option ℤ → Option ℤ
write_status none = none
write_status (some a) = some (if is_negative a then minus_two else a)

write_by : Option TcpSocket → List Send → TcpWorker → SizedArray → WriteAnswer TcpWorker ℕ
write_by (some s) answers w buf =
    let r = write answers s buf in
    record {
      result = write_status r.result;
      wire = r.wire;
      state = record w { net_socket = some r.socket };
      buf = r.buf;
    }
write_by none answers w buf = record { result = some minus_one; wire = []; state = w; buf = buf }

unfoldable pub write_data_to_source : List Send → TcpWorker → SizedArray → WriteAnswer TcpWorker ℕ
unfolding write_by
write_data_to_source answers w buf = write_by w.net_socket answers w buf

-- ConnectionWorker::thread_write_to_source over the socket, with the answers of `send` in each of the
-- calls.
abbrev pub tcp_write_to_source :
    Writing → Side TcpWorker ℕ → List (SinkRound (List Send)) → WriteState × Side TcpWorker ℕ
tcp_write_to_source = write_to_source write_data_to_source
