-- ===== src/TcpClient/Tests.antt =====
-- Runs of a client, and the theorem at a concrete input.
use shovel_server.Base.{ℕ, ◌≡◌, refl, true, false, List, [], ◌∷◌, pos}
use shovel_server.TcpSocket
use shovel_server.TcpSocket.{peer, recv_fails, other}
use shovel_server.TcpSocket.Lifetime.{SocketOp, read_op}
use shovel_server.TcpClient.{init, socket_error, setsockopt_error, Answers, connect}
use shovel_server.TcpClient.Connecting.{status_for, closed_by, connect_lem}

abbrev localhost : List ℕ
localhost = b'1' ∷ b'2' ∷ b'7' ∷ b'.' ∷ b'0' ∷ b'.' ∷ b'0' ∷ b'.' ∷ b'1' ∷ []

-- The connection comes about, and its third option cannot be set.
abbrev answers : Answers
answers = record {
  slave_socket = pos 9;
  is_address = true;
  is_connected = true;
  options = true ∷ true ∷ false ∷ [];
  peer = peer 80 1;
}

connected_run : connect answers localhost 80 init ≡ (
  record { status = setsockopt_error; port = 80; ip = localhost },
  TcpSocket.init (peer 80 1) (pos 9) ∷ [],
)
unfolding connect
connected_run = refl

refused_run :
    connect (record answers { is_connected = false }) localhost 80 init
    ≡ (record { status = socket_error; port = 80; ip = localhost }, [])
unfolding connect
refused_run = refl

-- A read of the socket fails, which closes it.
abbrev failing_read : List SocketOp
failing_read = read_op (recv_fails other) (record { elements = []; data_size = 0 }) ∷ []

connect_lem_example :
    ((connect answers localhost 80 init).0.status ≡ status_for answers)
    × (closed_by failing_read (connect answers localhost 80 init).1 ≡ pos 9 ∷ [])
connect_lem_example = connect_lem answers localhost 80 init failing_read 80 1 refl refl
