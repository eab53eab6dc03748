-- ===== src/TcpWorker/Wire.antt =====
-- The writing thread of a worker over a TCPSocket, from the queue to the bytes handed to the system:
-- ConnectionWorker::thread_write_to_source, TCPSocketWorker::write_data_to_source and TCPSocket::write
-- together.
use shovel_server.Base.{ℕ, List, [], ◌∷◌, All}
use shovel_server.SizedArray.{SizedArray}
use shovel_server.TcpSocket.{Send}
use shovel_server.Worker.{Statistics, Writing}
use shovel_server.Worker.Sink.{Side, SinkRound}
use shovel_server.Worker.Sink.Rounds.{RunsAs, thread-RunsAs}
use shovel_server.Worker.Sink.Sent.{Sent, thread-Sent, nothing}
use shovel_server.TcpWorker.{TcpWorker, write_data_to_source, tcp_write_to_source}
use shovel_server.TcpWorker.Sending.{tcp_sink}

-- `tcp_sink` asks nothing of the answers.
All-Good : (calls : List (List Send)) → All tcp_sink.Good calls
All-Good [] = tt
All-Good (c ∷ calls) = (tt, All-Good calls)

rounds-Good : (rounds : List (SinkRound (List Send))) → All (λ x. All tcp_sink.Good x.calls) rounds
rounds-Good [] = tt
rounds-Good (x ∷ rounds) = (All-Good x.calls, rounds-Good rounds)

-- The writing thread over any worker with a TCPSocket, whatever `send` answers. The thread is that of
-- `Worker.Writer` in rounds with the same arrivals, so that what is written and what is pending are the
-- messages put into the queue. While it goes on, the bytes handed to the system are the messages
-- written, cut to 65535 bytes, whole and in order, each behind parts of it, from its first byte on, that
-- calls before have sent. Where it has ended or still writes, such parts of the message at the head of
-- the queue may follow.
pub tcp_writer-Sent :
    (rounds : List (SinkRound (List Send))) (statistics : Statistics) (pending : List (List ℕ))
    (worker : TcpWorker) (buf : SizedArray)
    → let w : Writing = record { statistics = statistics; pending = pending; written = [] } in
      let end = tcp_write_to_source w (record { state = worker; buf = buf; wire = [] }) rounds in
      Sent write_data_to_source tcp_sink end × RunsAs write_data_to_source w rounds end.0
tcp_writer-Sent rounds statistics pending worker buf =
    let w : Writing = record { statistics = statistics; pending = pending; written = [] } in
    let d : Side TcpWorker ℕ = record { state = worker; buf = buf; wire = [] } in
    (
      thread-Sent write_data_to_source tcp_sink rounds w d (rounds-Good rounds) nothing,
      thread-RunsAs write_data_to_source rounds w d,
    )
