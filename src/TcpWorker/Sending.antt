-- ===== src/TcpWorker/Sending.antt =====
-- What a call of TCPSocketWorker::write_data_to_source sends, whatever `send` answers.
use shovel_server.Base.{
  ℕ, ◌+◌, ◌≤◌, ◌<◌, ◌≡◌, refl, sym, ap, ◌∙◌, subst, inl, inr, Option, none, some, List, [], ◌∷◌,
  ◌++◌, append_assoc, append-nil, arith, ltb, Bool-cases, length, take, take_all, is_positive,
}
use shovel_server.SizedArray.{SizedArray, contents}
use shovel_server.TcpSocket.{
  TcpSocket, ok, Send, sent, send_fails, Sending, all_sent, try_later, broken, blocked, write,
  send_loop, after_sending, is_transient_write, is_ok,
}
use shovel_server.TcpSocket.Writing.{take_more}
use shovel_server.Worker.Sink.{WriteAnswer}
use shovel_server.Worker.Sink.Message.{Called, IsSink}
use shovel_server.TcpWorker.{TcpWorker, write_data_to_source, write_by, write_status}

-- Parts of a message, each from its first byte on: what calls send that fail before the end.
pub data Parts (m : List ℕ) : List ℕ → Type 0 where
  no_part : Parts m []
  part : (k : ℕ) {wire : List ℕ} → Parts m wire → Parts m (take k m ++ wire)

pub append-Parts : {m p q : List ℕ} → Parts m p → Parts m q → Parts m (p ++ q)
append-Parts no_part h = h
append-Parts {m} {q = q} (part k {wire} h) h' =
    subst (Parts m) (sym (append_assoc (take k m) wire q)) (part k (append-Parts h h'))

-- The message, behind parts of it.
abbrev pub WholeMessage : List ℕ → List ℕ → Type 0
WholeMessage m bytes = (parts : List ℕ) × Parts m parts × (bytes ≡ parts ++ m)

-- What the loop of `write` sends, whatever `send` answers.
abbrev Sends : List ℕ → Sending → Type 0
Sends bytes (all_sent n wire) = (wire ≡ bytes) × (length bytes ≤ n)
Sends bytes (try_later wire) = (k : ℕ) × (wire ≡ take k bytes)
Sends bytes (broken wire) = (k : ℕ) × (wire ≡ take k bytes)
Sends bytes (blocked wire) = (k : ℕ) × (wire ≡ take k bytes)

send_loop-Sends :
    (answers : List Send) (bytes : List ℕ) (m : ℕ)
    → Sends bytes (send_loop answers bytes m (take m bytes))
unfolding send_loop
send_loop-Sends [] bytes m = elim (Bool-cases (ltb m (length bytes))) [
  | inl l ↦ rw l (m, refl)
  | inr l ↦ let h : length bytes ≤ m = ground arith in rw l (take_all m bytes h, h)
]
send_loop-Sends (send_fails e ∷ answers) bytes m = elim (Bool-cases (ltb m (length bytes))) [
  | inl l ↦ elim (Bool-cases (is_transient_write e)) [
    | inl t ↦ rw (send_loop, l, t) (m, refl)
    | inr t ↦ rw (send_loop, l, t) (m, refl)
  ]
  | inr l ↦ let h : length bytes ≤ m = ground arith in rw (send_loop, l) (take_all m bytes h, h)
]
send_loop-Sends (sent n ∷ answers) bytes m = elim (Bool-cases (ltb m (length bytes))) [
  | inl l ↦ rw (send_loop, l, take_more bytes m n) (send_loop-Sends answers bytes (m + n))
  | inr l ↦ let h : length bytes ≤ m = ground arith in rw (send_loop, l) (take_all m bytes h, h)
]

-- What a call of write_data_to_source does with the bytes of the array, over any worker.
abbrev TcpCalled : SizedArray → WriteAnswer TcpWorker ℕ → Type 0
TcpCalled = Called Parts WholeMessage

some_part :
    (buf : SizedArray) {wire : List ℕ} (k : ℕ)
    → wire ≡ take k (contents buf)
    → Parts (contents buf) wire
some_part buf k e =
    subst (Parts (contents buf)) (append-nil (take k (contents buf)) ∙ sym e) (part k no_part)

after_sending-Called :
    (s : TcpSocket) (buf : SizedArray) (w : TcpWorker) (o : Sending)
    → 0 < length (contents buf)
    → Sends (contents buf) o
    → let r = after_sending o s buf in
      TcpCalled buf (record {
        result = write_status r.result;
        wire = r.wire;
        state = record w { net_socket = some r.socket };
        buf = r.buf;
      })
unfolding after_sending
after_sending-Called s buf w (all_sent n wire) l (e, h) =
    inl (n, refl, omega arith, ([], no_part, e))
after_sending-Called s buf w (try_later wire) l (k, e) = inr (inl (refl, some_part buf k e, refl))
after_sending-Called s buf w (broken wire) l (k, e) = inr (inr (refl, some_part buf k e))
after_sending-Called s buf w (blocked wire) l (k, e) = inr (inr (tt, some_part buf k e))

socket_write-Called :
    (answers : List Send) (s : TcpSocket) (buf : SizedArray) (w : TcpWorker)
    → 0 < length (contents buf)
    → let r = write answers s buf in
      TcpCalled buf (record {
        result = write_status r.result;
        wire = r.wire;
        state = record w { net_socket = some r.socket };
        buf = r.buf;
      })
unfolding write
socket_write-Called answers s buf w l = elim (Bool-cases (is_ok s.status)) [
  | inr o ↦ rw o (inr (inr (refl, no_part)))
  | inl o ↦ elim (Bool-cases (is_positive s.descr)) [
    | inr d ↦ rw (o, d) (inr (inr (refl, no_part)))
    | inl d ↦
        rw (o, d)
          (after_sending-Called (record s { status = ok }) buf w
            (send_loop answers (contents buf) 0 []) l (send_loop-Sends answers (contents buf) 0))
  ]
]

write_by-Called :
    (socket : Option TcpSocket) (answers : List Send) (w : TcpWorker) (buf : SizedArray)
    → 0 < length (contents buf)
    → TcpCalled buf (write_by socket answers w buf)
unfolding write_by
write_by-Called (some s) answers w buf l = socket_write-Called answers s buf w l
write_by-Called none answers w buf l = inr (inr (refl, no_part))

pub write_data_to_source-Called :
    (answers : List Send) (w : TcpWorker) (buf : SizedArray)
    → 0 < length (contents buf)
    → TcpCalled buf (write_data_to_source answers w buf)
unfolding write_data_to_source
write_data_to_source-Called answers w buf l = write_by-Called w.net_socket answers w buf l

abbrev pub tcp_sink : IsSink write_data_to_source
tcp_sink = record {
  Good = λ answers. Unit {0};
  Part = Parts;
  Whole = WholeMessage;
  no_part = λ m. no_part;
  part_part = λ m p q h h'. append-Parts h h';
  part_whole = λ m p q h (parts, h', e).
      (p ++ parts, append-Parts h h', ap (λ t. p ++ t) e ∙ sym (append_assoc p parts m));
  called = λ answers w buf g l k. write_data_to_source-Called answers w buf l;
}
