-- ===== src/LocalSocket.antt =====
-- src/connections/local/LocalSocket.h and LocalSocket.cpp. What the operating system answers to a call
-- is an argument; the descriptors closed are recorded in order. The paths and the timers of the socket
-- are left out.
pub mod Descriptor
pub mod Transfer
mod Tests
use shovel_server.Base.{
  ℕ, Bool, true, false, List, [], ◌∷◌, ℤ, pos, negsuc, ◌==◌, if◌then◌else◌, length, memcpy, zeroed,
}
use shovel_server.SizedArray.{SizedArray, resize, clear, array_size}

-- The values of `errno` that the source tests.
pub data Errno : Type 0 where
  eagain ewouldblock enoent econnrefused other : Errno

-- What `recvfrom` answers: the bytes, or -1 and `errno`.
pub data Recv : Type 0 where
  received : List ℕ → Recv
  recv_fails : Errno → Recv

-- What `sendto` answers: how many bytes it has taken, or -1 and `errno`.
pub data Send : Type 0 where
  sent : ℕ → Send
  send_fails : Errno → Send

-- What the calls that open the socket answer: `socket` fails, or gives a descriptor, and `bind` then
-- fails or does its work.
pub data Opening : Type 0 where
  no_socket : Opening
  no_bind bound : ℕ → Opening

-- The descriptor `m_fd`, 0 where there is none, and `m_buf_for_reading`.
pub record LocalSocket : Type 0 where
  pub fd : ℕ
  pub buf_for_reading : List ℕ

abbrev pub minus_one : ℤ
minus_one = negsuc 0

-- The socket, and the descriptors closed.
unfoldable pub init_socket : Opening → LocalSocket → LocalSocket × List ℕ
init_socket no_socket s = (record s { fd = 0 }, [])
init_socket (no_bind d) s = (record s { fd = 0 }, d ∷ [])
init_socket (bound d) s = (record s { fd = d }, [])

-- The constructor.
unfoldable pub init : Opening → LocalSocket × List ℕ
unfolding init_socket
init answer = init_socket answer (record { fd = 0; buf_for_reading = zeroed array_size })

-- A result, the caller's array, the socket afterwards and the descriptors closed.
pub record ReadResult : Type 0 where
  pub result : ℤ
  pub buf : SizedArray
  pub socket : LocalSocket
  pub closed : List ℕ

-- errno == EAGAIN || errno == EWOULDBLOCK
abbrev pub is_transient_read : Errno → Bool
is_transient_read eagain = true
is_transient_read ewouldblock = true
is_transient_read _ = false

-- What `read` does with the answer of `recvfrom`.
unfoldable pub after_recv : Recv → LocalSocket → SizedArray → ReadResult
unfolding resize
after_recv (recv_fails e) s buf =
    if is_transient_read e
    then record { result = pos 0; buf = buf; socket = s; closed = [] }
    else record { result = minus_one; buf = buf; socket = record s { fd = 0 }; closed = s.fd ∷ [] }
after_recv (received bytes) s buf =
    let read_buf = memcpy s.buf_for_reading bytes (length bytes) in
    record {
      result = pos (length bytes);
      buf =
          resize array_size (record buf { elements = memcpy buf.elements read_buf (length bytes) })
            (length bytes);
      socket = record s { buf_for_reading = read_buf };
      closed = [];
    }

unfoldable pub read : Recv → LocalSocket → SizedArray → ReadResult
unfolding after_recv clear
read answer s buf =
    if s.fd == 0
    then record { result = minus_one; buf = clear buf; socket = s; closed = [] }
    else after_recv answer s (clear buf)

-- errno == ENOENT or errno == ECONNREFUSED or errno == EAGAIN
abbrev pub is_transient_write : Errno → Bool
is_transient_write enoent = true
is_transient_write econnrefused = true
is_transient_write eagain = true
is_transient_write _ = false

-- What `write` does with the answer of `sendto`: its result, and the caller's array.
unfoldable pub after_send : Send → SizedArray → ℤ × SizedArray
unfolding clear
after_send (sent n) buf = (pos n, clear buf)
after_send (send_fails e) buf =
    if is_transient_write e then (pos 0, buf) else (minus_one, clear buf)

unfoldable pub write : Send → LocalSocket → SizedArray → ℤ × SizedArray
unfolding after_send
write answer s buf = if s.fd == 0 then (minus_one, buf) else after_send answer buf

-- The destructor: the descriptor that it closes.
unfoldable pub destroy : LocalSocket → List ℕ
destroy s = s.fd ∷ []
