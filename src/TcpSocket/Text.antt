-- ===== src/TcpSocket/Text.antt =====
-- The texts of src/connections/network/TCPSocket.cpp: of a status, and of the peer's address, for which
-- `inet_ntoa` gives a pointer to bytes that end with a 0.
use Prim.Native.String.{String}
use shovel_server.Base.{
  ℕ, ◌≤◌, ◌<◌, ◌≡◌, ap, ◌≢◌, inl, inr, Option, none, some, List, ◌∷◌, ◌++◌, arith, leb,
  if◌then◌else◌, Bool-cases, length, take, length-take,
}
use shovel_server.TcpSocket.{
  SocketStatus, ok, descriptor_error, protocol_error, closed, closed_by_peer,
}

unfoldable pub get_status_string : SocketStatus → String
get_status_string ok = "TCPSocket status OK"
get_status_string descriptor_error = "TCPSocket descriptor error"
get_status_string protocol_error = "TCPSocket protocol error"
get_status_string closed = "TCPSocket closed"
get_status_string closed_by_peer = "TCPSocket closed by peer"

-- TCPSocket::get_IP_str, of the bytes that may be read from inet_ntoa's pointer on; with fewer than
-- INET_ADDRSTRLEN of them it is undefined.
unfoldable pub get_ip_str : ℕ → List ℕ → Option (List ℕ)
get_ip_str inet_addrstrlen bytes =
    if leb inet_addrstrlen (length bytes) then some (take inet_addrstrlen bytes) else none

-- An address that is shorter than INET_ADDRSTRLEN, as each is, for it has room for the final 0 too, is
-- not what get_IP_str gives.
get_ip_str-too_long :
    (inet_addrstrlen : ℕ) (address rest : List ℕ)
    → length address < inet_addrstrlen
    → get_ip_str inet_addrstrlen (address ++ 0 ∷ rest) ≢ some address
unfolding get_ip_str
get_ip_str-too_long n address rest h =
    let bytes = address ++ 0 ∷ rest in
    λ e. elim (Bool-cases (leb n (length bytes))) [
      | inl l ↦
          let same : take n bytes ≡ address = (let e' = rw l at e in cc) in
          let enough : n ≤ length bytes = ground (arith, l) in
          absurd (omega (arith, h, enough, length-take n bytes, ap length same))
      | inr l ↦ absurd (let e' = rw l at e in cc)
    ]
