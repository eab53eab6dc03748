-- ===== src/LocalWorker.antt =====
-- src/connections/workers/LocalSocketWorker.h and LocalSocketWorker.cpp: the worker whose source is a
-- LocalSocket, and its threads. A datagram socket takes a datagram whole or not at all.
pub mod Receiving
pub mod Wire
pub mod Delivering
mod Tests
use shovel_server.Base.{ℕ, Option, none, some, List, [], ◌∷◌, ℤ, ◌==◌, if◌then◌else◌, is_negative}
use shovel_server.SizedArray.{SizedArray, contents}
use shovel_server.LocalSocket.{LocalSocket, Recv, Send, sent, send_fails, read, write, minus_one}
use shovel_server.Worker.{Writing, WriteState}
use shovel_server.Worker.Source.{ReadAnswer}
use shovel_server.Worker.Sink.{WriteAnswer, Side, SinkRound, write_to_source}

-- The socket, if one was given.
pub record LocalWorker : Type 0 where
  pub local_socket : Option LocalSocket

abbrev pub or_minus_one : ℤ → ℤ
or_minus_one a = if is_negative a then minus_one else a

read_by : Option LocalSocket → Recv → LocalWorker → SizedArray → ReadAnswer LocalWorker
read_by (some s) answer w buf =
    let r = read answer s buf in
    record {
      result = or_minus_one r.result;
      state = record w { local_socket = some r.socket };
      buf = r.buf;
    }
read_by none answer w buf = record { result = minus_one; state = w; buf = buf }

unfoldable pub read_data_from_source : Recv → LocalWorker → SizedArray → ReadAnswer LocalWorker
unfolding read_by
read_data_from_source answer w buf = read_by w.local_socket answer w buf

-- The datagram that `sendto` takes of an open socket.
abbrev pub datagrams_of : Send → LocalSocket → List ℕ → List (List ℕ)
datagrams_of (send_fails e) s bytes = []
datagrams_of (sent n) s bytes = if s.fd == 0 then [] else bytes ∷ []

write_by : Option LocalSocket → Send → LocalWorker → SizedArray → WriteAnswer LocalWorker (List ℕ)
write_by (some s) answer w buf =
    let (status, buf') = write answer s buf in
    record {
      result = some (or_minus_one status);
      wire = datagrams_of answer s (contents buf);
      state = w;
      buf = buf';
    }
write_by none answer w buf = record { result = some minus_one; wire = []; state = w; buf = buf }

unfoldable pub write_data_to_source :
    Send → LocalWorker → SizedArray → WriteAnswer LocalWorker (List ℕ)
unfolding write_by
write_data_to_source answer w buf = write_by w.local_socket answer w buf

-- ConnectionWorker::thread_write_to_source over the socket, with the answer of `sendto` in each of the
-- calls.
abbrev pub local_write_to_source :
    Writing
    → Side LocalWorker (List ℕ)
    → List (SinkRound Send)
    → WriteState × Side LocalWorker (List ℕ)
local_write_to_source = write_to_source write_data_to_source
