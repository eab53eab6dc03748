-- ===== src/TcpWorker/Arriving.antt =====
-- What a peer sends with ParserExample::prepare_data_for_sending arrives in the queue of the worker.
use shovel_server.Base.{ℕ, ◌≡◌, some, List, [], map, length, All}
use shovel_server.SizedArray.{SizedArray}
use shovel_server.TcpSocket.{Recv}
use shovel_server.Parser.{init, prepare_data_for_sending}
use shovel_server.Parser.Print
use shovel_server.Parser.Print.{concat}
use shovel_server.Worker.{Reading, Statistics, goes_on, thread_read_from_source}
use shovel_server.Worker.Source.{SourceRound, read_rounds}
use shovel_server.Worker.Source.Heard.{heard}
use shovel_server.Worker.Source.Arriving.{IsCalm, payloads_arrive}
use shovel_server.TcpWorker.{TcpWorker, read_data_from_source}
use shovel_server.TcpWorker.Receiving.{tcp_source}

-- If the bytes that `recv` gives over a connected socket are what `prepare_data_for_sending` makes of
-- payloads of at most 65523 bytes, one behind the other, and cut up in any way, with any passing failures
-- between; and if nobody stops the thread, and the queue takes in each round as many messages as there
-- are bytes, after being full any number of times: then the reading thread with a new parser goes on,
-- and the queue has taken just the datagrams of the payloads, in order and each once.
pub datagrams_arrive :
    (payloads : List (List ℕ)) (rounds : List (SourceRound Recv)) (w : TcpWorker) (buf : SizedArray)
    (statistics : Statistics)
    → All Print.Fits payloads
    → tcp_source.IsOpen w
    → heard read_data_from_source tcp_source rounds ≡ concat (map prepare_data_for_sending payloads)
    → All
        (IsCalm read_data_from_source tcp_source
          (length (heard read_data_from_source tcp_source rounds)))
        rounds
    → (r : Reading) × (thread_read_from_source
          (record { parser = some init; statistics = statistics; queued = [] })
          (read_rounds read_data_from_source w buf rounds)
        ≡ goes_on r)
      × (r.queued ≡ map prepare_data_for_sending payloads)
datagrams_arrive = payloads_arrive read_data_from_source tcp_source
