-- ===== src/TcpClient/Connecting.antt =====
-- What `TCPClient::connect` hands over, and what becomes of the descriptor that it opens.
use shovel_server.Base.{
  ℕ, ◌≡◌, refl, ◌∙◌, inl, inr, Bool, true, false, ◌&&◌, not, List, [], ◌∷◌, ◌++◌, append-nil, arith,
  ℤ, if◌then◌else◌, Bool-cases, is_positive, is_negative,
}
use shovel_server.TcpSocket
use shovel_server.TcpSocket.{TcpSocket, peer}
use shovel_server.TcpSocket.Lifetime.{SocketOp, run, closed_descriptors, closes_once}
use shovel_server.TcpClient.{
  TcpClient, ClientStatus, ok, socket_connect_error, socket_error, setsockopt_error, Answers,
  set_client_socket_flags, connect,
}

-- Whether all options are set.
abbrev pub all_set : List Bool → Bool
all_set [] = true
all_set (b ∷ rest) = b && all_set rest

set_client_socket_flags_lem :
    (options : List Bool) (c : TcpClient)
    → c.status ≡ ok
    → (set_client_socket_flags options c).1.status
      ≡ (if all_set options then ok else setsockopt_error)
unfolding set_client_socket_flags
set_client_socket_flags_lem [] c e = e
set_client_socket_flags_lem (true ∷ rest) c e = set_client_socket_flags_lem rest c e
set_client_socket_flags_lem (false ∷ rest) c e = refl

-- The status that the answers call for.
abbrev pub status_for : Answers → ClientStatus
status_for a =
    if is_negative a.slave_socket
    then socket_connect_error
    else if a.is_address && a.is_connected
    then (if is_positive a.slave_socket && not (all_set a.options) then setsockopt_error else ok)
    else socket_error

connect_status :
    (a : Answers) (ip : List ℕ) (port : ℕ) (c : TcpClient)
    → (connect a ip port c).0.status ≡ status_for a
unfolding connect
connect_status a ip port c = elim (Bool-cases (is_negative a.slave_socket)) [
  | inl n ↦ rw n refl
  | inr n ↦ elim (Bool-cases a.is_address) [
    | inr d ↦ rw (n, d) refl
    | inl d ↦ elim (Bool-cases a.is_connected) [
      | inr e ↦ rw (n, d, e) refl
      | inl e ↦ elim (Bool-cases (is_positive a.slave_socket)) [
        | inr p ↦ rw (n, d, e, p) refl
        | inl p ↦
            rw
              (
                n,
                d,
                e,
                p,
                set_client_socket_flags_lem a.options (record { status = ok; port = port; ip = ip })
                    refl,
              )
              (ground arith)
      ]
    ]
  ]
]

-- The descriptors closed if the owner of each socket makes these calls on it and destroys it.
abbrev pub closed_by : List SocketOp → List TcpSocket → List ℤ
closed_by ops [] = []
closed_by ops (s ∷ rest) = closed_descriptors (run s ops) ++ closed_by ops rest

not-negative : (d : ℤ) → is_positive d ≡ true → is_negative d ≡ false
not-negative d h = ground arith

-- A connect over a positive descriptor, to a peer that is known, leaves the status that the answers
-- call for, whatever the client has done before. Where the address is one and the connection comes
-- about, also with options that cannot be set, its socket is handed over and closes the descriptor
-- once, whatever calls are made on it; where not, no socket is handed over that would close it.
pub connect_lem :
    (a : Answers) (ip : List ℕ) (port : ℕ) (c : TcpClient) (ops : List SocketOp)
    (peer_port addr : ℕ)
    → is_positive a.slave_socket ≡ true
    → a.peer ≡ peer peer_port addr
    → let (c', sockets) = connect a ip port c in
      (c'.status ≡ status_for a)
      × (closed_by ops sockets
          ≡ (if a.is_address && a.is_connected then a.slave_socket ∷ [] else []))
unfolding connect
connect_lem a ip port c ops peer_port addr p q = (connect_status a ip port c, closes)
  where
    closes :
        closed_by ops (connect a ip port c).1
        ≡ (if a.is_address && a.is_connected then a.slave_socket ∷ [] else [])
    closes = elim (Bool-cases a.is_address) [
      | inr d ↦ rw (connect, not-negative a.slave_socket p, d) refl
      | inl d ↦ elim (Bool-cases a.is_connected) [
        | inr e ↦ rw (connect, not-negative a.slave_socket p, d, e) refl
        | inl e ↦
            rw (connect, not-negative a.slave_socket p, d, e, p, q)
              (append-nil (
                  closed_descriptors
                    (run (TcpSocket.init (peer peer_port addr) a.slave_socket) ops))
                ∙ closes_once a.slave_socket peer_port addr ops p)
      ]
    ]
