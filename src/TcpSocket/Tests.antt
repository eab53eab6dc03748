-- ===== src/TcpSocket/Tests.antt =====
-- The theorems on `TCPSocket` at concrete inputs.
use shovel_server.Base.{◌≡◌, refl, ◌≢◌, none, [], ◌∷◌, arith, pos}
use shovel_server.SizedArray.{SizedArray}
use shovel_server.TcpSocket.{
  TcpSocket, ok, other, received, recv_fails, sent, send_fails, peer, init, read, write, minus_one,
}
use shovel_server.TcpSocket.Writing.{WriteSpec, write_lem, write_returns}
use shovel_server.TcpSocket.Lifetime.{read_op, write_op, run, closed_descriptors, closes_once}

abbrev open_socket : TcpSocket
open_socket = record {
  descr = pos 5;
  status = ok;
  sin_port = 80;
  sin_addr = 1;
  read_buf = 0 ∷ 0 ∷ 0 ∷ [];
}

abbrev two_bytes : SizedArray
two_bytes = record { elements = 7 ∷ 8 ∷ 0 ∷ []; data_size = 2 }

reset_by_peer : (read (recv_fails other) open_socket two_bytes).result ≡ minus_one
unfolding read
reset_by_peer = refl

write_lem_example :
    WriteSpec open_socket two_bytes (write (sent 1 ∷ sent 1 ∷ []) open_socket two_bytes)
write_lem_example =
    write_lem (sent 1 ∷ sent 1 ∷ []) open_socket two_bytes refl refl (omega arith) (omega arith)

write_returns_example : (write (sent 1 ∷ sent 1 ∷ []) open_socket two_bytes).result ≢ none
write_returns_example =
    write_returns (sent 1 ∷ sent 1 ∷ []) open_socket two_bytes (omega arith) (omega arith)

closes_once_example :
    closed_descriptors (
      run (init (peer 80 1) (pos 5)) (
        read_op (received (1 ∷ [])) two_bytes
        ∷ write_op (send_fails other ∷ []) two_bytes
        ∷ read_op (received []) two_bytes
        ∷ []))
    ≡ pos 5 ∷ []
closes_once_example =
    closes_once (pos 5) 80 1
      (read_op (received (1 ∷ [])) two_bytes
        ∷ write_op (send_fails other ∷ []) two_bytes
        ∷ read_op (received []) two_bytes
        ∷ [])
      refl
