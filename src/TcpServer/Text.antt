-- ===== src/TcpServer/Text.antt =====
-- What TCPServer::get_status_string says of a status (src/connections/network/TCPServer.cpp).
use Prim.Native.String.{String, compare}
use Prim.Native.Nat.{Ordering}
use shovel_server.Base.{◌≡◌, refl, sym, ap, ◌∙◌, Option, none, some, List, [], ◌∷◌}
use shovel_server.TcpServer.{
  ServerStatus, ok, socket_error, setsockopt_error, bind_error, listen_error, accept_error,
  slavesocket_error,
}

unfoldable pub get_status_string : ServerStatus → String
get_status_string ok = "TCPServer status OK"
get_status_string socket_error = "TCPServer Socket error"
get_status_string setsockopt_error = "TCPServer Setsockopt error"
get_status_string bind_error = "TCPServer bind error"
get_status_string listen_error = "TCPServer listen error"
get_status_string accept_error = "TCPServer accept error"
get_status_string slavesocket_error = "TCPServer slavesocket error"

-- The status that a text belongs to, among some.
abbrev status_in : List ServerStatus → String → Option ServerStatus
unfolding get_status_string
status_in [] text = none
status_in (s ∷ rest) text = elim (compare (get_status_string s) text) [
  | Ordering.eq ↦ some s
  | _ ↦ status_in rest text
]

abbrev all_statuses : List ServerStatus
all_statuses =
    ok ∷ socket_error ∷ setsockopt_error ∷ bind_error ∷ listen_error ∷ accept_error
    ∷ slavesocket_error ∷ []

status_in-get_status_string :
    (s : ServerStatus) → status_in all_statuses (get_status_string s) ≡ some s
unfolding get_status_string
status_in-get_status_string ok = refl
status_in-get_status_string socket_error = refl
status_in-get_status_string setsockopt_error = refl
status_in-get_status_string bind_error = refl
status_in-get_status_string listen_error = refl
status_in-get_status_string accept_error = refl
status_in-get_status_string slavesocket_error = refl

-- No two statuses have the same text.
get_status_string-injective :
    (s s' : ServerStatus) → get_status_string s ≡ get_status_string s' → s ≡ s'
get_status_string-injective s s' h =
    let e : some s ≡ some s' =
      sym (status_in-get_status_string s)
      ∙ (ap (status_in all_statuses) h ∙ status_in-get_status_string s') in
    cc
