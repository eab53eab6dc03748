-- ===== src/LocalSocket/Transfer.antt =====
-- `LocalSocket::read` and `LocalSocket::write` on the answers of the system.
use shovel_server.Base.{
  ℕ, ◌≤◌, ◌<◌, ◌≡◌, refl, ap, ◌∙◌, ◌≢◌, ◌⊎◌, inl, inr, true, List, [], ◌∷◌, ◌++◌, map, append-nil,
  arith, pos, ne→==, Bool-cases, length, All, memcpy-memcpy,
}
use shovel_server.SizedArray.{SizedArray, resize, clear, array_size, contents, contents-resize}
use shovel_server.LocalSocket.{
  LocalSocket, received, read, Send, sent, send_fails, Errno, write, is_transient_write,
}
use shovel_server.Worker.{magnitude, WriteRound, Writing, writes, thread_write_to_source}
use shovel_server.Worker.Writer.{IsZero, writer_ignores_stop}

-- A read over an open socket that receives a datagram, an empty one too, hands out just its bytes,
-- returns their number, and keeps the descriptor.
pub local_read_delivers :
    (s : LocalSocket) (buf : SizedArray) (bytes : List ℕ)
    → s.fd ≢ 0
    → length bytes ≤ array_size
    → let r = read (received bytes) s buf in
      (r.result ≡ pos (length bytes))
      × (contents r.buf ≡ bytes)
      × (r.socket.fd ≡ s.fd)
      × (r.closed ≡ [])
unfolding read clear
local_read_delivers s buf bytes d h = rw (ne→== s.fd 0 d) (
  refl,
  rw (memcpy-memcpy buf.elements s.buf_for_reading bytes (length bytes) (omega arith))
      (unfold resize in contents-resize (clear buf) bytes h),
  refl,
  refl,
)

-- Over an open socket, and unless `sendto` itself answers 0: a write that returns 0 leaves the caller's
-- array as it is, so that the caller can try again; one that returns anything else leaves it empty.
local_write_keeps :
    (answer : Send) (s : LocalSocket) (buf : SizedArray)
    → s.fd ≢ 0
    → answer ≢ sent 0
    → let r = write answer s buf in
      ((r.0 ≡ pos 0) × (r.1 ≡ buf)) ⊎ ((r.0 ≢ pos 0) × (contents r.1 ≡ []))
unfolding write clear
local_write_keeps (sent k) s buf d n =
    rw (ne→== s.fd 0 d) (inr ((λ e. n (ap (λ z. sent (magnitude z)) e)), refl))
local_write_keeps (send_fails e) s buf d n = elim (Bool-cases (is_transient_write e)) [
  | inl t ↦ rw (ne→== s.fd 0 d, t) (inl (refl, refl))
  | inr t ↦ rw (ne→== s.fd 0 d, t) (inr ((λ x. cc), refl))
]

-- The results of writes over an open socket that nobody listens to are all 0.
unheard :
    (s : LocalSocket) (buf : SizedArray) (errors : List Errno)
    → s.fd ≢ 0
    → All (λ e. is_transient_write e ≡ true) errors
    → All IsZero (map (λ e. (write (send_fails e) s buf).0) errors)
unfolding write
unheard s buf [] d h = tt
unheard s buf (e ∷ errors) d (t, h) = (rw (ne→== s.fd 0 d, t) refl, unheard s buf errors d h)

-- A writing thread that has looked at its flags and found a message that is not empty, and whose
-- writes over an open local socket all fail with ENOENT, ECONNREFUSED or EAGAIN, never ends: it is
-- still writing, whatever its flags would be in the rounds to come.
unheard_writer_goes_on :
    (s : LocalSocket) (errors : List Errno) (w : Writing) (rest : List WriteRound) (m : List ℕ)
    (ms : List (List ℕ)) (buf : SizedArray)
    → s.fd ≢ 0
    → All (λ e. is_transient_write e ≡ true) errors
    → w.pending ≡ m ∷ ms
    → 0 < length m
    → let x : WriteRound = record {
      goes_on = true;
      arrivals = [];
      goes_on_after = true;
      answers = map (λ e. (write (send_fails e) s buf).0) errors;
    } in
      thread_write_to_source w (x ∷ rest) ≡ writes w
unheard_writer_goes_on s errors w rest m ms buf d t p l =
    let x : WriteRound = record {
      goes_on = true;
      arrivals = [];
      goes_on_after = true;
      answers = map (λ e. (write (send_fails e) s buf).0) errors;
    } in
    let e : w.pending ++ [] ≡ m ∷ ms = append-nil w.pending ∙ p in
    writer_ignores_stop w x rest m ms refl refl e l (unheard s buf errors d t)
    ∙ ap (λ q. writes (record w { pending = q })) (append-nil w.pending)
