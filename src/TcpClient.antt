-- ===== src/TcpClient.antt =====
-- src/connections/network/TCPClient.h and TCPClient.cpp. What the operating system answers to a call
-- is an argument. The sizes of the socket's buffers and the messages are left out.
pub mod Connecting
mod Tests
use shovel_server.Base.{
  ℕ, Bool, true, false, not, List, [], ◌∷◌, ℤ, pos, if◌then◌else◌, is_positive, is_negative,
}
use shovel_server.TcpSocket
use shovel_server.TcpSocket.{TcpSocket, Peer, minus_one}

-- TCPClient::NetClientStatus
pub data ClientStatus : Type 0 where
  ok socket_connect_error socket_error setsockopt_error : ClientStatus

-- `m_ip` is a text, kept as its bytes.
pub record TcpClient : Type 0 where
  pub status : ClientStatus
  pub port : ℕ
  pub ip : List ℕ

-- The constructor: "0.0.0.0".
unfoldable pub init : TcpClient
init = record { status = ok; port = 0; ip = b'0' ∷ b'.' ∷ b'0' ∷ b'.' ∷ b'0' ∷ b'.' ∷ b'0' ∷ [] }

-- What the system answers: to `socket`, to `inet_pton` (whether it is 1), to `connect` (whether it is
-- 0), to each `setsockopt` of a connected socket (true: it succeeds), and to `getpeername`.
pub record Answers : Type 0 where
  pub slave_socket : ℤ
  pub is_address : Bool
  pub is_connected : Bool
  pub options : List Bool
  pub peer : Peer

-- The seven flags and the two delays, up to the first that cannot be set.
unfoldable pub set_client_socket_flags : List Bool → TcpClient → ℤ × TcpClient
set_client_socket_flags [] c = (pos 0, c)
set_client_socket_flags (true ∷ rest) c = set_client_socket_flags rest c
set_client_socket_flags (false ∷ rest) c = (minus_one, record c { status = setsockopt_error })

-- The client, and the socket handed to the callback, if one is.
unfoldable pub call_connect_callback_function : Answers → TcpClient → TcpClient × List TcpSocket
unfolding set_client_socket_flags
call_connect_callback_function a c =
    if is_positive a.slave_socket
    then ((set_client_socket_flags a.options c).1, TcpSocket.init a.peer a.slave_socket ∷ [])
    else (c, [])

unfoldable pub connect : Answers → List ℕ → ℕ → TcpClient → TcpClient × List TcpSocket
unfolding call_connect_callback_function
connect a ip port c₀ =
    let c : TcpClient = record c₀ { status = ok; port = port; ip = ip } in
    if is_negative a.slave_socket
    then (record c { status = socket_connect_error }, [])
    else if not a.is_address
    then (record c { status = socket_error }, [])
    else if a.is_connected
    then call_connect_callback_function a c
    else (record c { status = socket_error }, [])
