-- ===== src/TcpServer.antt =====
-- src/connections/network/TCPServer.h and TCPServer.cpp. What the operating system answers to a call
-- is an argument; the descriptors closed are recorded in order. A thread that accepts meets the
-- system's answers and the flag `m_atomic_server_enable` as a list of rounds. The
-- addresses and the buffer sizes are left out.
pub mod Listening
pub mod Accepting
pub mod Polling
pub mod Text
mod Tests
use shovel_server.Base.{
  ℕ, Bool, true, false, ◌||◌, Option, none, some, List, [], ◌∷◌, ◌++◌, ℤ, pos, negsuc,
  if◌then◌else◌, is_positive, is_negative,
}
use shovel_server.TcpSocket
use shovel_server.TcpSocket.{TcpSocket, Peer, minus_one}

-- TCPServer::NetServerStatus
pub data ServerStatus : Type 0 where
  ok socket_error setsockopt_error bind_error : ServerStatus
  listen_error accept_error slavesocket_error : ServerStatus

-- TCPServer::NetServerListenType
pub data ListenType : Type 0 where
  blocked unblocked timed : ListenType

pub record TcpServer : Type 0 where
  pub master_socket : ℤ
  pub status : ServerStatus
  pub server_enable : Bool
  pub server_finished : Bool

-- The constructor.
unfoldable pub init : TcpServer
init = record {
  master_socket = minus_one;
  status = ok;
  server_enable = true;
  server_finished = true;
}

-- What the calls of `start_listen` answer: `socket` fails, or gives a descriptor, and then `setsockopt`
-- of SO_REUSEADDR, `bind` or `listen` fails, or all do their work.
pub data Opening : Type 0 where
  no_socket : Opening
  no_reuse no_bind no_listen listens : ℕ → Opening

-- A result, the server afterwards, the descriptors closed and the accept thread started.
pub record StartResult : Type 0 where
  pub result : ℤ
  pub server : TcpServer
  pub closed : List ℤ
  pub accept_thread : Option ListenType

abbrev pub fail_start : ℕ → ServerStatus → ℤ → TcpServer → List ℤ → StartResult
fail_start n status master s closed = record {
  result = negsuc n;
  server = record s { status = status; master_socket = master };
  closed = closed;
  accept_thread = none;
}

-- if (m_master_socket > 0) close(m_master_socket);
abbrev pub close_old : TcpServer → List ℤ
close_old s = if is_positive s.master_socket then s.master_socket ∷ [] else []

unfoldable pub start_listen : Opening → ListenType → TcpServer → StartResult
start_listen no_socket type s = fail_start 0 socket_error minus_one s (close_old s)
start_listen (no_reuse d) type s = fail_start 1 setsockopt_error (pos d) s (close_old s)
start_listen (no_bind d) type s = fail_start 2 bind_error minus_one s (close_old s ++ pos d ∷ [])
start_listen (no_listen d) type s =
    fail_start 3 listen_error minus_one s (close_old s ++ pos d ∷ [])
start_listen (listens d) type s = record {
  result = pos 0;
  server = record s { status = ok; master_socket = pos d };
  closed = close_old s;
  accept_thread = some type;
}

unfoldable pub start : Opening → ListenType → TcpServer → StartResult
unfolding start_listen
start answer type s =
    let r = start_listen answer type (record s { server_enable = true; server_finished = false }) in
    if is_negative r.result
    then record r { server = record (r.server) { server_enable = false; server_finished = true } }
    else r

unfoldable pub stop : TcpServer → TcpServer
stop s = record s { server_enable = false }

-- The destructor, up to its wait: the server, and the descriptors closed.
unfoldable pub destroy : TcpServer → TcpServer × List ℤ
destroy s = (
  record s { server_enable = false; master_socket = minus_one },
  if is_negative s.master_socket then [] else s.master_socket ∷ [],
)

-- while (!m_atomic_server_finished) …, over the values seen: whether the destructor returns.
unfoldable pub wait_finished : List Bool → Bool
wait_finished [] = false
wait_finished (finished ∷ rest) = finished || wait_finished rest

-- What `accept` has given, what `setsockopt` answers then, call by call (true: it succeeds), and what
-- `getpeername` answers.
pub record Accepted : Type 0 where
  pub slave_socket : ℤ
  pub options : List Bool
  pub peer : Peer

-- The seven flags and the two delays, up to the first that cannot be set.
unfoldable pub set_client_socket_flags : List Bool → TcpServer → ℤ × TcpServer
set_client_socket_flags [] s = (pos 0, s)
set_client_socket_flags (true ∷ rest) s = set_client_socket_flags rest s
set_client_socket_flags (false ∷ rest) s = (minus_one, record s { status = setsockopt_error })

-- The server, and the socket handed to the callback, if one is. The result of the flags is not used.
unfoldable pub call_accepted_callback_function : Accepted → TcpServer → TcpServer × List TcpSocket
unfolding set_client_socket_flags
call_accepted_callback_function a s =
    if is_positive a.slave_socket
    then ((set_client_socket_flags a.options s).1, TcpSocket.init a.peer a.slave_socket ∷ [])
    else (s, [])

-- A server with the sockets that its thread has handed over, in order.
pub record Serving : Type 0 where
  pub server : TcpServer
  pub handed_over : List TcpSocket

abbrev pub hand_over : Accepted → Serving → Serving
hand_over a v =
    let (s, sockets) = call_accepted_callback_function a v.server in
    record { server = s; handed_over = v.handed_over ++ sockets }

-- m_atomic_server_finished = true;
abbrev pub finish : Serving → Serving
finish v = record v { server = record (v.server) { server_finished = true } }
