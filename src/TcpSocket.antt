-- ===== src/TcpSocket.antt =====
-- src/connections/network/TCPSocket.h and TCPSocket.cpp. What the operating system answers to a call
-- is an argument; the calls that release the descriptor are recorded in order.
pub mod Reading
pub mod Writing
pub mod Lifetime
pub mod Text
mod Tests
use shovel_server.Base.{
  ℕ, zero, ◌+◌, Bool, true, false, not, Option, none, some, List, [], ◌∷◌, ◌++◌, ℤ, pos, negsuc,
  ltb, if◌then◌else◌, length, take, drop, memcpy, zeroed, is_positive,
}
use shovel_server.SizedArray.{SizedArray, resize, clear, array_size}

-- TCPSocket::NetSocketStatus
pub data SocketStatus : Type 0 where
  ok descriptor_error protocol_error closed closed_by_peer : SocketStatus

-- The values of `errno` that the source tests.
pub data Errno : Type 0 where
  eagain eintr ewouldblock enobufs other : Errno

-- What `recv` answers: the bytes (none: the peer has closed), or -1 and `errno`.
pub data Recv : Type 0 where
  received : List ℕ → Recv
  recv_fails : Errno → Recv

-- What `send` answers: how many bytes it has taken, or -1 and `errno`.
pub data Send : Type 0 where
  sent : ℕ → Send
  send_fails : Errno → Send

-- What `getpeername` answers: a port and an address, or an error.
pub data Peer : Type 0 where
  peer : ℕ → ℕ → Peer
  no_peer : Peer

-- shutdown and close of a descriptor
pub data Release : Type 0 where
  shuts closes : ℤ → Release

pub record TcpSocket : Type 0 where
  pub descr : ℤ
  pub status : SocketStatus
  pub sin_port : ℕ
  pub sin_addr : ℕ
  pub read_buf : List ℕ

abbrev pub minus_one : ℤ
minus_one = negsuc 0

abbrev pub is_ok : SocketStatus → Bool
is_ok ok = true
is_ok _ = false

unfoldable pub get_port : TcpSocket → ℕ
get_port s = s.sin_port

unfoldable pub get_ip : TcpSocket → ℕ
get_ip s = s.sin_addr

-- TCPSocket::set_descriptor, for a positive descriptor.
unfoldable pub ask_peer : Peer → TcpSocket → TcpSocket
ask_peer (peer port addr) s = record s { sin_port = port; sin_addr = addr }
ask_peer no_peer s = record s { status = descriptor_error; descr = minus_one }

unfoldable pub set_descriptor : Peer → TcpSocket → ℤ → TcpSocket
unfolding ask_peer
set_descriptor answer s d =
    let s' : TcpSocket = record s { status = ok; sin_port = 0; sin_addr = 0; descr = d } in
    if is_positive d then ask_peer answer s' else s'

-- The constructor.
unfoldable pub init : Peer → ℤ → TcpSocket
unfolding set_descriptor
init answer d =
    set_descriptor answer
      (record {
        descr = minus_one;
        status = ok;
        sin_port = 0;
        sin_addr = 0;
        read_buf = zeroed array_size;
      })
      d

-- The socket, and what it has released.
unfoldable pub close_descriptor : TcpSocket → TcpSocket × List Release
close_descriptor s =
    if is_positive s.descr
    then (record s { descr = minus_one; status = closed }, closes s.descr ∷ [])
    else (record s { status = closed }, [])

-- A result, the caller's array, the socket afterwards and what was released.
pub record ReadResult : Type 0 where
  pub result : ℤ
  pub buf : SizedArray
  pub socket : TcpSocket
  pub released : List Release

abbrev pub fail_read : SocketStatus → TcpSocket → SizedArray → ReadResult
fail_read status s buf =
    let (s', released) = close_descriptor (record s { status = status }) in
    record { result = minus_one; buf = buf; socket = s'; released = released }

-- errno == EAGAIN or errno == EINTR or errno == EWOULDBLOCK
abbrev pub is_transient_read : Errno → Bool
is_transient_read eagain = true
is_transient_read eintr = true
is_transient_read ewouldblock = true
is_transient_read _ = false

-- What `read` does with the answer of `recv`.
unfoldable pub after_recv : Recv → TcpSocket → SizedArray → ReadResult
unfolding close_descriptor resize
after_recv (recv_fails e) s buf =
    if is_transient_read e
    then record { result = pos 0; buf = buf; socket = s; released = [] }
    else fail_read closed s buf
after_recv (received []) s buf = fail_read closed_by_peer s buf
after_recv (received (x ∷ xs)) s buf =
    let bytes = x ∷ xs in
    let read_buf = memcpy s.read_buf bytes (length bytes) in
    record {
      result = pos (length bytes);
      buf =
          resize array_size (record buf { elements = memcpy buf.elements read_buf (length bytes) })
            (length bytes);
      socket = record s { read_buf = read_buf };
      released = [];
    }

unfoldable pub read : Recv → TcpSocket → SizedArray → ReadResult
unfolding after_recv clear
read answer s buf₀ =
    let buf = resize array_size (clear buf₀) 0 in
    if not (is_ok s.status)
    then record { result = minus_one; buf = buf; socket = s; released = [] }
    else if is_positive s.descr
    then after_recv answer (record s { status = ok }) buf
    else record {
      result = minus_one;
      buf = buf;
      socket = record s { status = descriptor_error };
      released = [];
    }

-- How the loop of `write` ends, with the bytes it has handed to the system: all are sent (and how
-- many the source counts), the system can take no more now, the connection is broken, or `send` has not answered yet.
pub data Sending : Type 0 where
  all_sent : ℕ → List ℕ → Sending
  try_later broken blocked : List ℕ → Sending

-- errno == EAGAIN or errno == ENOBUFS
abbrev pub is_transient_write : Errno → Bool
is_transient_write eagain = true
is_transient_write enobufs = true
is_transient_write _ = false

-- The loop of `write` over the bytes to send, from `sent_size` on; one answer of `send` a round.
unfoldable pub send_loop : List Send → List ℕ → ℕ → List ℕ → Sending
send_loop [] bytes sent_size wire =
    if ltb sent_size (length bytes) then blocked wire else all_sent sent_size wire
send_loop (answer ∷ answers) bytes sent_size wire = elim (ltb sent_size (length bytes)) [
  | false ↦ all_sent sent_size wire
  | true ↦ elim answer [
    | send_fails e ↦ if is_transient_write e then try_later wire else broken wire
    | sent n ↦ send_loop answers bytes (sent_size + n) (wire ++ take n (drop sent_size bytes))
  ]
]

-- A result (none: the call has not returned), the bytes handed to the system, and the rest as above.
pub record WriteResult : Type 0 where
  pub result : Option ℤ
  pub wire : List ℕ
  pub buf : SizedArray
  pub socket : TcpSocket
  pub released : List Release

unfoldable pub after_sending : Sending → TcpSocket → SizedArray → WriteResult
unfolding close_descriptor clear
after_sending (all_sent sent_size wire) s buf = record {
  result = some (pos sent_size);
  wire = wire;
  buf = clear buf;
  socket = s;
  released = [];
}
after_sending (try_later wire) s buf = record {
  result = some (pos 0);
  wire = wire;
  buf = buf;
  socket = s;
  released = [];
}
after_sending (broken wire) s buf =
    let (s', released) = close_descriptor (record s { status = closed }) in
    record { result = some minus_one; wire = wire; buf = buf; socket = s'; released = released }
after_sending (blocked wire) s buf = record {
  result = none;
  wire = wire;
  buf = buf;
  socket = s;
  released = [];
}

unfoldable pub write : List Send → TcpSocket → SizedArray → WriteResult
unfolding send_loop after_sending
write answers s buf =
    if not (is_ok s.status)
    then record { result = some minus_one; wire = []; buf = buf; socket = s; released = [] }
    else if is_positive s.descr
    then after_sending (send_loop answers (take buf.data_size buf.elements) 0 [])
        (record s { status = ok }) buf
    else record {
      result = some minus_one;
      wire = [];
      buf = buf;
      socket = record s { status = descriptor_error };
      released = [];
    }

abbrev pub is_zero : ℤ → Bool
is_zero (pos zero) = true
is_zero _ = false

-- The destructor: what it releases.
unfoldable pub destroy : TcpSocket → List Release
unfolding close_descriptor
destroy s = if is_zero s.descr then [] else shuts s.descr ∷ (close_descriptor s).1
