-- ===== src/LocalWorker/Delivering.antt =====
-- Two processes at the ends of a pair of LocalSockets: the writing thread of a worker in one, and the
-- reading thread of a worker in the other (src/connections/workers/LocalSocketWorker.cpp).
use shovel_server.Base.{ℕ, ◌≡◌, sym, ap, ◌∙◌, some, List, [], map, length, All}
use shovel_server.SizedArray.{SizedArray}
use shovel_server.Parser.{init, prepare_data_for_sending}
use shovel_server.Parser.Print
use shovel_server.Parser.Print.{concat}
use shovel_server.LocalSocket.{Recv, Send}
use shovel_server.Worker.{Reading, Writing, Statistics, goes_on, thread_read_from_source}
use shovel_server.Worker.Writer.{state_of}
use shovel_server.Worker.Sink.{SinkRound}
use shovel_server.Worker.Source.{SourceRound, read_rounds}
use shovel_server.Worker.Source.Heard.{heard}
use shovel_server.Worker.Source.Arriving.{IsCalm, payloads_arrive}
use shovel_server.LocalWorker.{LocalWorker, read_data_from_source, local_write_to_source}
use shovel_server.LocalWorker.Receiving.{local_source}
use shovel_server.LocalWorker.Wire.{Takes, local_writer_sends}

-- A worker in one process writes, one in another reads. Calls of `sendto` may fail and be made again, but
-- take some bytes of a datagram where they do not fail; `recvfrom` gives the reader the bytes of the
-- datagrams that the system has taken, in order, with any passing failures between; nobody stops the
-- reader, and its queue takes what there is. When the messages that the writer has written, of those in
-- its queue at first and those that come, are what `prepare_data_for_sending` makes of payloads of at most
-- 65523 bytes, then the reader's queue has taken just these, in order and each once.
pub local_datagrams_arrive :
    (payloads : List (List ℕ)) (writing : List (SinkRound Send)) (pending : List (List ℕ))
    (writer : LocalWorker) (out : SizedArray) (rounds : List (SourceRound Recv))
    (reader : LocalWorker) (buf : SizedArray) (statistics : Statistics)
    → let w : Writing = record { statistics = statistics; pending = pending; written = [] } in
      let end = local_write_to_source w (record { state = writer; buf = out; wire = [] }) writing in
      All (λ x. All Takes x.calls) writing
      → (state_of end.0).written ≡ map prepare_data_for_sending payloads
      → All Print.Fits payloads
      → local_source.IsOpen reader
      → heard read_data_from_source local_source rounds ≡ concat end.1.wire
      → All
          (IsCalm read_data_from_source local_source
            (length (heard read_data_from_source local_source rounds)))
          rounds
      → (r : Reading) × (thread_read_from_source
            (record { parser = some init; statistics = statistics; queued = [] })
            (read_rounds read_data_from_source reader buf rounds)
          ≡ goes_on r)
        × (r.queued ≡ (state_of end.0).written)
local_datagrams_arrive payloads writing pending writer out rounds reader buf statistics t e fits
      connected same calm =
    let (wire, _) = local_writer_sends writing statistics pending writer out t in
    let (r, e', q) =
      payloads_arrive read_data_from_source local_source payloads rounds reader buf statistics fits
        connected (same ∙ (ap concat wire ∙ ap concat e)) calm in
    (r, e', q ∙ sym e)
