-- ===== src/LocalWorker/Wire.antt =====
-- The writing thread of a worker over a LocalSocket, from the queue to the datagrams handed to the
-- system: ConnectionWorker::thread_write_to_source, LocalSocketWorker::write_data_to_source and
-- LocalSocket::write together.
use shovel_server.Base.{
  ℕ, ◌<◌, ◌≡◌, refl, ◌∙◌, inl, inr, Option, none, some, List, [], ◌∷◌, append-nil, ◌==◌, Bool-cases,
  All,
}
use shovel_server.SizedArray.{SizedArray}
use shovel_server.LocalSocket.{LocalSocket, Send, sent, send_fails, write, is_transient_write}
use shovel_server.Worker.{Statistics, Writing, WriteState, goes_on, ended, writes}
use shovel_server.Worker.Writer.{state_of}
use shovel_server.Worker.Sink.{Side, SinkRound}
use shovel_server.Worker.Sink.Rounds.{RunsAs, thread-RunsAs}
use shovel_server.Worker.Sink.Sent
use shovel_server.Worker.Sink.Message.{Called, IsSink}
use shovel_server.Worker.Sink.Sent.{Carries, nothing, message, thread-Sent}
use shovel_server.LocalWorker.{LocalWorker, write_data_to_source, write_by, local_write_to_source}

-- `sendto` takes some bytes, where it does not fail.
abbrev pub Takes : Send → Type 0
Takes (sent n) = 0 < n
Takes (send_fails e) = Unit

abbrev NoPart : List ℕ → List (List ℕ) → Type 0
NoPart m datagrams = datagrams ≡ []

abbrev OneDatagram : List ℕ → List (List ℕ) → Type 0
OneDatagram m datagrams = datagrams ≡ m ∷ []

write_by-Called :
    (socket : Option LocalSocket) (answer : Send) (w : LocalWorker) (buf : SizedArray)
    → Takes answer
    → Called NoPart OneDatagram buf (write_by socket answer w buf)
unfolding write_by write
write_by-Called none answer w buf t = inr (inr (refl, refl))
write_by-Called (some s) (sent n) w buf t = elim (Bool-cases (s.fd == 0)) [
  | inl z ↦ rw z (inr (inr (refl, refl)))
  | inr z ↦ rw z (inl (n, refl, t, refl))
]
write_by-Called (some s) (send_fails e) w buf t = elim (Bool-cases (s.fd == 0)) [
  | inl z ↦ rw z (inr (inr (refl, refl)))
  | inr z ↦ elim (Bool-cases (is_transient_write e)) [
    | inl y ↦ rw (z, y) (inr (inl (refl, refl, refl)))
    | inr y ↦ rw (z, y) (inr (inr (refl, refl)))
  ]
]

write_data_to_source-Called :
    (answer : Send) (w : LocalWorker) (buf : SizedArray)
    → Takes answer
    → Called NoPart OneDatagram buf (write_data_to_source answer w buf)
unfolding write_data_to_source
write_data_to_source-Called answer w buf t = write_by-Called w.local_socket answer w buf t

abbrev local_sink : IsSink write_data_to_source
local_sink = record {
  Good = Takes;
  Part = NoPart;
  Whole = OneDatagram;
  no_part = λ m. refl;
  part_part = λ m p q h h'. rw (h, h') refl;
  part_whole = λ m p q h h'. rw (h, h') refl;
  called = λ answer w buf t l k. write_data_to_source-Called answer w buf t;
}

Carries-same : {ms datagrams : List (List ℕ)} → Carries OneDatagram ms datagrams → datagrams ≡ ms
Carries-same nothing = refl
Carries-same (message m h e) = rw (Carries-same h, e) refl

no_part_left :
    (pending datagrams : List (List ℕ))
    → Sent.PartOfFirst write_data_to_source local_sink pending datagrams
    → datagrams ≡ []
no_part_left [] datagrams h = h
no_part_left (m ∷ ms) datagrams h = h

broken-same :
    (w : Writing) (datagrams : List (List ℕ))
    → Sent.Breaks write_data_to_source local_sink w datagrams
    → datagrams ≡ w.written
broken-same w datagrams (whole, part, e, c, p) =
    e ∙ (rw (no_part_left w.pending part p) (append-nil whole) ∙ Carries-same c)

Sent-same :
    (st : WriteState) (d : Side LocalWorker (List ℕ))
    → Sent.Sent write_data_to_source local_sink (st, d)
    → d.wire ≡ (state_of st).written
Sent-same (goes_on w) d h = Carries-same h
Sent-same (ended w) d h = broken-same w d.wire h
Sent-same (writes w) d h = broken-same w d.wire h

-- The writing thread over any worker with a LocalSocket, if `sendto` takes some bytes of a datagram
-- wherever it does not fail: also where the thread has ended or still writes, the datagrams handed to the
-- system are just the messages written, each once, in order and cut to 65535 bytes. The thread is that of
-- `Worker.Writer` in rounds with the same arrivals, so that what is written and what is pending are the
-- messages put into the queue.
pub local_writer_sends :
    (rounds : List (SinkRound Send)) (statistics : Statistics) (pending : List (List ℕ))
    (worker : LocalWorker) (buf : SizedArray)
    → All (λ x. All Takes x.calls) rounds
    → let w : Writing = record { statistics = statistics; pending = pending; written = [] } in
      let end = local_write_to_source w (record { state = worker; buf = buf; wire = [] }) rounds in
      (end.1.wire ≡ (state_of end.0).written) × RunsAs write_data_to_source w rounds end.0
local_writer_sends rounds statistics pending worker buf t =
    let w : Writing = record { statistics = statistics; pending = pending; written = [] } in
    let d : Side LocalWorker (List ℕ) = record { state = worker; buf = buf; wire = [] } in
    (
      Sent-same _ _ (thread-Sent write_data_to_source local_sink rounds w d t nothing),
      thread-RunsAs write_data_to_source rounds w d,
    )
