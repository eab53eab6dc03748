-- ===== src/TcpWorker/Delivering.antt =====
-- Two workers at the ends of one connection: the writing thread of one, and the reading thread of the
-- other, each over its TCPSocket (src/connections/workers/TCPSocketWorker.cpp).
use shovel_server.Base.{
  ℕ, ◌+◌, ◌-◌, ◌≤◌, ◌<◌, ◌≡◌, refl, sym, ap, ◌∙◌, inl, inr, Option, none, some, List, [], ◌∷◌, ◌++◌,
  map, append_assoc, append-nil, arith, ltb, le→ltb, Bool-cases, length, take, All, take_all,
  is_positive,
}
use shovel_server.SizedArray.{SizedArray, contents}
use shovel_server.Parser.{init, prepare_data_for_sending}
use shovel_server.Parser.Print
use shovel_server.Parser.Print.{concat}
use shovel_server.TcpSocket.{
  TcpSocket, Recv, Send, sent, send_fails, all_sent, write, send_loop, after_sending, is_ok,
}
use shovel_server.TcpSocket.Writing.{take_more}
use shovel_server.Worker.{
  Reading, Writing, WriteState, Statistics, goes_on, ended, writes, thread_read_from_source,
}
use shovel_server.Worker.Writer.{state_of}
use shovel_server.Worker.Sink.{WriteAnswer, Side, SinkRound}
use shovel_server.Worker.Sink.Message.{Called, IsSink}
use shovel_server.Worker.Sink.Sent.{
  PartOfFirst, Breaks, Carries, nothing, message, Sent, thread-Sent,
}
use shovel_server.Worker.Source.{SourceRound, read_rounds}
use shovel_server.Worker.Source.Heard.{heard}
use shovel_server.Worker.Source.Arriving.{IsCalm}
use shovel_server.TcpWorker.{
  TcpWorker, read_data_from_source, write_data_to_source, write_by, write_status,
  tcp_write_to_source,
}
use shovel_server.TcpWorker.Receiving.{tcp_source}
use shovel_server.TcpWorker.Arriving.{datagrams_arrive}

-- `send` takes that many bytes in all, or more, and does not fail.
abbrev pub Takes : ℕ → List Send → Type 0
Takes left [] = left ≡ 0
Takes left (sent n ∷ answers) = Takes (left - n) answers
Takes left (send_fails e ∷ answers) = ⊥

-- A call goes through, whatever message it has: none has more bytes.
abbrev pub GoesThrough : List Send → Type 0
GoesThrough answers = Takes 65535 answers

send_loop-all_sent :
    (answers : List Send) (bytes : List ℕ) (m left : ℕ)
    → Takes left answers
    → length bytes ≤ m + left
    → (n : ℕ) × (length bytes ≤ n) × (send_loop answers bytes m (take m bytes) ≡ all_sent n bytes)
unfolding send_loop
send_loop-all_sent [] bytes m left t h =
    let k : length bytes ≤ m = omega (arith, t, h) in
    (m, k, rw (le→ltb m (length bytes) k) (ap (all_sent m) (take_all m bytes k)))
send_loop-all_sent (send_fails e ∷ answers) bytes m left t h = absurd t
send_loop-all_sent (sent n ∷ answers) bytes m left t h = elim (Bool-cases (ltb m (length bytes))) [
  | inr l ↦
      let k : length bytes ≤ m = ground arith in
      (m, k, rw (send_loop, l) (ap (all_sent m) (take_all m bytes k)))
  | inl l ↦
      rw (send_loop, l, take_more bytes m n)
        (send_loop-all_sent answers bytes (m + n) (left - n) t (omega (arith, h)))
]

-- Each message once, whole.
abbrev IsAll : List ℕ → List ℕ → Type 0
IsAll m bytes = bytes ≡ m

abbrev IsNone : List ℕ → List ℕ → Type 0
IsNone m bytes = bytes ≡ []

abbrev CleanCalled : SizedArray → WriteAnswer TcpWorker ℕ → Type 0
CleanCalled = Called IsNone IsAll

socket_write-CleanCalled :
    (answers : List Send) (s : TcpSocket) (buf : SizedArray) (w : TcpWorker)
    → GoesThrough answers
    → 0 < length (contents buf)
    → length (contents buf) ≤ 65535
    → let r = write answers s buf in
      CleanCalled buf (record {
        result = write_status r.result;
        wire = r.wire;
        state = record w { net_socket = some r.socket };
        buf = r.buf;
      })
unfolding write after_sending
socket_write-CleanCalled answers s buf w t l u = elim (Bool-cases (is_ok s.status)) [
  | inr o ↦ rw o (inr (inr (refl, refl)))
  | inl o ↦ elim (Bool-cases (is_positive s.descr)) [
    | inr d ↦ rw (o, d) (inr (inr (refl, refl)))
    | inl d ↦
        let (n, h, e) = send_loop-all_sent answers (contents buf) 0 65535 t (omega (arith, u)) in
        rw (o, d, e) (inl (n, refl, omega (arith, l, h), refl))
  ]
]

write_by-CleanCalled :
    (socket : Option TcpSocket) (answers : List Send) (w : TcpWorker) (buf : SizedArray)
    → GoesThrough answers
    → 0 < length (contents buf)
    → length (contents buf) ≤ 65535
    → CleanCalled buf (write_by socket answers w buf)
unfolding write_by
write_by-CleanCalled (some s) answers w buf t l u = socket_write-CleanCalled answers s buf w t l u
write_by-CleanCalled none answers w buf t l u = inr (inr (refl, refl))

write_data_to_source-CleanCalled :
    (answers : List Send) (w : TcpWorker) (buf : SizedArray)
    → GoesThrough answers
    → 0 < length (contents buf)
    → length (contents buf) ≤ 65535
    → CleanCalled buf (write_data_to_source answers w buf)
unfolding write_data_to_source
write_data_to_source-CleanCalled answers w buf t l u =
    write_by-CleanCalled w.net_socket answers w buf t l u

abbrev clean_sink : IsSink write_data_to_source
clean_sink = record {
  Good = GoesThrough;
  Part = IsNone;
  Whole = IsAll;
  no_part = λ m. refl;
  part_part = λ m p q h h'. rw (h, h') refl;
  part_whole = λ m p q h h'. rw (h, h') refl;
  called = λ answers w buf g l u. write_data_to_source-CleanCalled answers w buf g l u;
}

concat-append : (ms : List (List ℕ)) (m : List ℕ) → concat (ms ++ m ∷ []) ≡ concat ms ++ m
concat-append [] m = append-nil m
concat-append (x ∷ ms) m =
    ap (λ t. x ++ t) (concat-append ms m) ∙ sym (append_assoc x (concat ms) m)

Carries-concat : {ms : List (List ℕ)} {wire : List ℕ} → Carries IsAll ms wire → wire ≡ concat ms
Carries-concat nothing = refl
Carries-concat (message {ms} {wire} m {items} c e) =
    let w = Carries-concat c in rw (w, e) (sym (concat-append ms m))

PartOfFirst-none :
    (pending : List (List ℕ)) (part : List ℕ)
    → PartOfFirst write_data_to_source clean_sink pending part
    → part ≡ []
PartOfFirst-none [] part p = p
PartOfFirst-none (m ∷ ms) part p = p

Breaks-concat :
    (w : Writing) (wire : List ℕ)
    → Breaks write_data_to_source clean_sink w wire
    → wire ≡ concat w.written
Breaks-concat w wire (whole, part, e, c, p) =
    e
    ∙ (ap (λ t. whole ++ t) (PartOfFirst-none w.pending part p)
        ∙ (append-nil whole ∙ Carries-concat c))

wire-concat :
    (st : WriteState) (d : Side TcpWorker ℕ)
    → Sent write_data_to_source clean_sink (st, d)
    → d.wire ≡ concat (state_of st).written
wire-concat (goes_on w) d c = Carries-concat c
wire-concat (ended w) d b = Breaks-concat w d.wire b
wire-concat (writes w) d b = Breaks-concat w d.wire b

-- One worker writes into a connection, another reads from its other end. Nobody stops the reader and its
-- queue takes what there is, as in `datagrams_arrive`; the calls of `send` of the writer take the bytes
-- and do not fail; and `recv` gives the reader the bytes that were sent, cut up in any way, with any
-- passing failures between. When the messages that the writer has written, of all that others put into
-- its queue, are what `prepare_data_for_sending` makes of payloads of at most 65523 bytes, then the
-- reader's queue has taken just these, in order and each once.
pub written_datagrams_arrive :
    (payloads : List (List ℕ)) (writing : List (SinkRound (List Send))) (w : Writing)
    (side : Side TcpWorker ℕ) (rounds : List (SourceRound Recv)) (worker : TcpWorker)
    (buf : SizedArray) (statistics : Statistics)
    → w.written ≡ []
    → side.wire ≡ []
    → All (λ x. All GoesThrough x.calls) writing
    → (state_of (tcp_write_to_source w side writing).0).written
      ≡ map prepare_data_for_sending payloads
    → All Print.Fits payloads
    → tcp_source.IsOpen worker
    → heard read_data_from_source tcp_source rounds ≡ (tcp_write_to_source w side writing).1.wire
    → All
        (IsCalm read_data_from_source tcp_source
          (length (heard read_data_from_source tcp_source rounds)))
        rounds
    → (r : Reading) × (thread_read_from_source
          (record { parser = some init; statistics = statistics; queued = [] })
          (read_rounds read_data_from_source worker buf rounds)
        ≡ goes_on r)
      × (r.queued ≡ (state_of (tcp_write_to_source w side writing).0).written)
written_datagrams_arrive payloads writing w side rounds worker buf statistics n n' g e fits
      connected same calm =
    let end = tcp_write_to_source w side writing in
    let start : Carries IsAll w.written side.wire = rw (n, n') nothing in
    let sent : end.1.wire ≡ concat (state_of end.0).written =
      wire-concat end.0 end.1
        (thread-Sent write_data_to_source clean_sink writing w side g start) in
    let (r, e', q) =
      datagrams_arrive payloads rounds worker buf statistics fits connected
        (same ∙ (sent ∙ ap concat e)) calm in
    (r, e', q ∙ sym e)
