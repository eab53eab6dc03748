-- ===== src/TcpSocket/Reading.antt =====
-- `TCPSocket::read` on every answer of `recv`.
use shovel_server.Base.{
  ℕ, suc, ◌≤◌, ◌≡◌, refl, ◌≢◌, true, false, List, [], ◌∷◌, arith, pos, length, memcpy-memcpy,
  is_positive,
}
use shovel_server.SizedArray.{SizedArray, resize, array_size, contents, contents-resize}
use shovel_server.TcpSocket.{TcpSocket, ok, closed_by_peer, Recv, received, read, minus_one, is_ok}

-- A read over an open connection that receives bytes hands out just these, returns their number, and
-- leaves the socket open.
pub read_delivers :
    (s : TcpSocket) (buf : SizedArray) (x : ℕ) (xs : List ℕ)
    → s.status ≡ ok
    → is_positive s.descr ≡ true
    → length (x ∷ xs) ≤ array_size
    → let r = read (received (x ∷ xs)) s buf in
      (r.result ≡ pos (length (x ∷ xs)))
      × (contents r.buf ≡ x ∷ xs)
      × (r.socket.descr ≡ s.descr)
      × (r.socket.status ≡ ok)
      × (r.released ≡ [])
unfolding read
read_delivers s buf x xs e d h =
    rw (e, d)
      (
        refl,
        rw (memcpy-memcpy buf.elements s.read_buf (x ∷ xs) (suc (length xs)) (omega arith))
            (unfold resize in contents-resize buf (x ∷ xs) h),
        refl,
        refl,
        refl,
      )

-- A read that returns -1 leaves a socket whose status is no longer in order, and an empty array.
read_fails :
    (answer : Recv) (s : TcpSocket) (buf : SizedArray)
    → (read answer s buf).result ≡ minus_one
    → (is_ok (read answer s buf).socket.status ≡ false) × (contents (read answer s buf).buf ≡ [])
unfolding read
read_fails answer s buf e = ground arith

-- No read leaves the status that tells of a peer's close: where the peer has closed, the status is
-- overwritten when the descriptor is closed.
read_hides_peer_close :
    (answer : Recv) (s : TcpSocket) (buf : SizedArray)
    → s.status ≢ closed_by_peer
    → (read answer s buf).socket.status ≢ closed_by_peer
unfolding read
read_hides_peer_close answer s buf h = ground arith
