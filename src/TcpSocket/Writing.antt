-- ===== src/TcpSocket/Writing.antt =====
-- `TCPSocket::write` on every sequence of answers of `send`.
use shovel_server.Base.{
  ℕ, zero, suc, ◌+◌, ◌-◌, ◌≤◌, ◌<◌, ◌≡◌, refl, sym, ap, ◌∙◌, ◌≢◌, ◌⊎◌, inl, inr, true, none, some,
  List, [], ◌∷◌, ◌++◌, arith, pos, lt→ltb, le→ltb, Bool-cases, length, take, drop, length-take,
  take-length, take_all, is_positive,
}
use shovel_server.SizedArray.{SizedArray, contents}
use shovel_server.TcpSocket.{
  TcpSocket, ok, closed, Send, sent, send_fails, eagain, Sending, all_sent, try_later, broken,
  blocked, closes, WriteResult, write, send_loop, after_sending, minus_one, is_transient_write,
}

-- `send` takes some of the bytes that it is given, and no more: its documented behaviour.
abbrev pub Takes : List Send → ℕ → Type 0
Takes [] left = Unit {0}
Takes (send_fails e ∷ answers) left = Unit {0}
Takes (sent n ∷ answers) left = (n ≤ left) × Takes answers (left - n)

-- What the loop ends with: all bytes, or a part of them from the first on.
abbrev Sends : List ℕ → Sending → Type 0
Sends bytes (all_sent n wire) = (wire ≡ bytes) × (n ≡ length bytes)
Sends bytes (try_later wire) = (k : ℕ) × (wire ≡ take k bytes)
Sends bytes (broken wire) = (k : ℕ) × (wire ≡ take k bytes)
Sends bytes (blocked wire) = (k : ℕ) × (wire ≡ take k bytes)

-- One more answer extends the part that is sent.
pub take_more :
    (bytes : List ℕ) (m n : ℕ) → take m bytes ++ take n (drop m bytes) ≡ take (m + n) bytes
take_more bytes zero n = ap (λ k. take k bytes) (omega arith)
take_more [] (suc m) n = take_all n [] (omega arith) ∙ sym (take_all (suc m + n) [] (omega arith))
take_more (x ∷ bytes) (suc m) n =
    let e : suc (m + n) ≡ suc m + n = omega arith in
    ap (◌∷◌ x) (take_more bytes m n) ∙ ap (λ k. take k (x ∷ bytes)) e

loop_over :
    (answers : List Send) (bytes : List ℕ) (m : ℕ)
    → m ≡ length bytes
    → send_loop answers bytes m (take m bytes) ≡ all_sent m (take m bytes)
unfolding send_loop
loop_over [] bytes m h = rw (le→ltb m (length bytes) (omega arith))
loop_over (_ ∷ answers) bytes m h = rw (le→ltb m (length bytes) (omega arith), send_loop)

send_loop-Sends :
    (answers : List Send) (bytes : List ℕ) (m left : ℕ)
    → m + left ≡ length bytes
    → Takes answers left
    → Sends bytes (send_loop answers bytes m (take m bytes))
unfolding send_loop
send_loop-Sends answers bytes m zero h t =
    rw (loop_over answers bytes m (omega arith)) (take_all m bytes (omega arith), omega arith)
send_loop-Sends [] bytes m (suc left) h t = rw (lt→ltb m (length bytes) (omega arith)) (m, refl)
send_loop-Sends (send_fails e ∷ answers) bytes m (suc left) h t =
    rw (lt→ltb m (length bytes) (omega arith), send_loop)
      (elim (Bool-cases (is_transient_write e)) [
        | inl yes_it_is ↦ rw yes_it_is (m, refl)
        | inr it_is_not ↦ rw it_is_not (m, refl)
      ])
send_loop-Sends (sent n ∷ answers) bytes m (suc left) h t =
    rw (lt→ltb m (length bytes) (omega arith), send_loop)
      (rw (take_more bytes m n)
        (send_loop-Sends answers bytes (m + n) (suc left - n) (omega (arith, t.0)) t.1))

-- What `write` leaves in each of its results, over an open connection.
abbrev pub WriteSpec : TcpSocket → SizedArray → WriteResult → Type 0
WriteSpec s buf r =
    ((r.result ≡ some (pos buf.data_size))
      × (r.wire ≡ contents buf)
      × (r.buf.data_size ≡ 0)
      × (r.socket ≡ s)
      × (r.released ≡ []))
    ⊎ ((k : ℕ) × (r.result ≡ some (pos 0))
        × (r.wire ≡ take k (contents buf))
        × (r.buf ≡ buf)
        × (r.socket ≡ s)
        × (r.released ≡ []))
    ⊎ ((k : ℕ) × (r.result ≡ some minus_one)
        × (r.wire ≡ take k (contents buf))
        × (r.socket.status ≡ closed)
        × (r.socket.descr ≡ minus_one)
        × (r.released ≡ closes s.descr ∷ []))
    ⊎ ((k : ℕ) × (r.result ≡ none) × (r.wire ≡ take k (contents buf)) × (r.socket ≡ s))

after_sending_lem :
    (s : TcpSocket) (buf : SizedArray) (o : Sending)
    → is_positive s.descr ≡ true
    → length (contents buf) ≡ buf.data_size
    → Sends (contents buf) o
    → WriteSpec s buf (after_sending o s buf)
unfolding after_sending
after_sending_lem s buf (all_sent n wire) d h (w, c) =
    inl (ap (λ n. some (pos n)) (c ∙ h), w, refl, refl, refl)
after_sending_lem s buf (try_later wire) d h (k, w) = inr (inl (k, refl, w, refl, refl, refl))
after_sending_lem s buf (broken wire) d h (k, w) =
    rw d (inr (inr (inl (k, refl, w, refl, refl, refl))))
after_sending_lem s buf (blocked wire) d h (k, w) = inr (inr (inr (k, refl, w, refl)))

write_open :
    (answers : List Send) (s : TcpSocket) (buf : SizedArray)
    → s.status ≡ ok
    → is_positive s.descr ≡ true
    → write answers s buf ≡ after_sending (send_loop answers (contents buf) 0 []) s buf
unfolding write
write_open answers s buf e d = rw (e, d)

-- Over an open connection, if `send` takes no more than it is given, `write` either sends all bytes
-- of the array, in order and once, returns their number and empties the array; or returns 0 with a
-- part of them sent, from the first on, and the array as it was; or returns -1 with such a part
-- sent, the descriptor closed and the socket closed; or it waits for `send` with such a part sent.
pub write_lem :
    (answers : List Send) (s : TcpSocket) (buf : SizedArray)
    → s.status ≡ ok
    → is_positive s.descr ≡ true
    → buf.data_size ≤ length buf.elements
    → Takes answers buf.data_size
    → WriteSpec s buf (write answers s buf)
write_lem answers s buf e d h t =
    let n : length (contents buf) ≡ buf.data_size =
      omega (arith, length-take buf.data_size buf.elements) in
    let o : Sends (contents buf) (send_loop answers (contents buf) 0 []) =
      send_loop-Sends answers (contents buf) 0 buf.data_size (omega (arith, n)) t in
    rw (write_open answers s buf e d) (after_sending_lem s buf _ d n o)

-- Each answer that is no failure takes at least one byte.
abbrev pub Progress : List Send → Type 0
Progress [] = Unit {0}
Progress (send_fails e ∷ answers) = Progress answers
Progress (sent n ∷ answers) = (0 < n) × Progress answers

abbrev Returns : Sending → Type 0
Returns (blocked wire) = ⊥
Returns _ = Unit {0}

send_loop-Returns :
    (answers : List Send) (bytes : List ℕ) (m : ℕ) (wire : List ℕ)
    → Progress answers
    → length bytes ≤ length answers + m
    → Returns (send_loop answers bytes m wire)
unfolding send_loop
send_loop-Returns [] bytes m wire p h = rw (le→ltb m (length bytes) (omega arith)) tt
send_loop-Returns (send_fails e ∷ answers) bytes m wire p h = ground arith
send_loop-Returns (sent n ∷ answers) bytes m wire p h = ground (
  arith,
  send_loop-Returns answers bytes (m + n) (wire ++ take n (drop m bytes)) p.1 (omega (arith, p.0)),
)

after_sending-Returns :
    (s : TcpSocket) (buf : SizedArray) (o : Sending)
    → Returns o
    → (after_sending o s buf).result ≢ none
unfolding after_sending
after_sending-Returns s buf (all_sent n wire) h = λ e. cc
after_sending-Returns s buf (try_later wire) h = λ e. cc
after_sending-Returns s buf (broken wire) h = λ e. cc
after_sending-Returns s buf (blocked wire) h = absurd h

-- `write` returns, once `send` has answered as often as there are bytes, if each of its answers that
-- is no failure takes a byte.
pub write_returns :
    (answers : List Send) (s : TcpSocket) (buf : SizedArray)
    → Progress answers
    → length (contents buf) ≤ length answers
    → (write answers s buf).result ≢ none
unfolding write
write_returns answers s buf p h =
    let sending =
      after_sending-Returns (record s { status = ok }) buf _
        (send_loop-Returns answers (contents buf) 0 [] p (omega arith)) in
    ground arith

partial_send :
    (k : ℕ) (rest : List Send) (bytes : List ℕ)
    → k < length bytes
    → send_loop (sent k ∷ send_fails eagain ∷ rest) bytes 0 [] ≡ try_later (take k bytes)
unfolding send_loop
partial_send k rest bytes h =
    let e : 0 + k ≡ k = omega arith in
    rw (lt→ltb 0 (length bytes) (omega arith), e, lt→ltb k (length bytes) h, send_loop)

full_send :
    (rest : List Send) (bytes : List ℕ)
    → 0 < length bytes
    → send_loop (sent (length bytes) ∷ rest) bytes 0 [] ≡ all_sent (length bytes) bytes
unfolding send_loop
full_send rest bytes h =
    let e : 0 + length bytes ≡ length bytes = omega arith in
    rw (lt→ltb 0 (length bytes) h, e, send_loop)
      (ap (send_loop rest bytes (length bytes)) (refl)
        ∙ loop_over rest bytes (length bytes) refl
        ∙ ap (all_sent (length bytes)) (take-length bytes))

-- A caller that calls again after the result 0, as the source's writer thread does, sends the part
-- that the first call has sent once more.
retry_sends_again :
    (k : ℕ) (rest rest' : List Send) (s : TcpSocket) (buf : SizedArray)
    → s.status ≡ ok
    → is_positive s.descr ≡ true
    → k < length (contents buf)
    → let r = write (sent k ∷ send_fails eagain ∷ rest) s buf in
      let r' = write (sent (length (contents buf)) ∷ rest') r.socket r.buf in
      (r.result ≡ some (pos 0))
      × (r'.result ≡ some (pos (length (contents buf))))
      × (r.wire ++ r'.wire ≡ take k (contents buf) ++ contents buf)
unfolding after_sending
retry_sends_again k rest rest' s buf e d l =
    let first : write (sent k ∷ send_fails eagain ∷ rest) s buf
        ≡ after_sending (try_later (take k (contents buf))) s buf =
      write_open (sent k ∷ send_fails eagain ∷ rest) s buf e d
      ∙ ap (λ o. after_sending o s buf) (partial_send k rest (contents buf) l) in
    let second : write (sent (length (contents buf)) ∷ rest') s buf
        ≡ after_sending (all_sent (length (contents buf)) (contents buf)) s buf =
      write_open (sent (length (contents buf)) ∷ rest') s buf e d
      ∙ ap (λ o. after_sending o s buf) (full_send rest' (contents buf) (omega arith)) in
    rw (first, second) (refl, refl, refl)
