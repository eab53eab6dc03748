-- ===== src/LocalSocket/Tests.antt =====
-- Runs of a local socket, and the theorems at concrete inputs.
use shovel_server.Base.{ℕ, ◌≡◌, refl, ◌≢◌, true, List, [], ◌∷◌, ◌++◌, arith}
use shovel_server.SizedArray.{SizedArray}
use shovel_server.LocalSocket.{
  LocalSocket, no_socket, no_bind, bound, init, Recv, received, recv_fails, enoent, econnrefused,
  eagain, other, read, send_fails, write, destroy,
}
use shovel_server.LocalSocket.Descriptor.{reads}
use shovel_server.Worker.{WriteRound, Writing}

abbrev open_socket : LocalSocket
open_socket = record { fd = 7; buf_for_reading = 0 ∷ 0 ∷ 0 ∷ [] }

abbrev three_bytes : SizedArray
three_bytes = record { elements = 9 ∷ 9 ∷ 9 ∷ []; data_size = 3 }

seven≢zero : ◌≢◌ {A = ℕ} 7 0
seven≢zero = omega arith

-- A socket that cannot be opened or bound has no descriptor.
failed_opening :
    ((init no_socket).0.fd ≡ 0)
    × ((init (no_bind 7)).1 ≡ 7 ∷ [])
    × ((init (no_bind 7)).0.fd ≡ 0)
    × ((init (bound 7)).0.fd ≡ 7)
unfolding init
failed_opening = (refl, refl, refl, refl)

-- Nothing to read at first, then an error.
abbrev until_error : List Recv
until_error = recv_fails eagain ∷ received (1 ∷ []) ∷ recv_fails other ∷ []

until_error_run :
    (reads until_error open_socket three_bytes).1
      ++ destroy (reads until_error open_socket three_bytes).0
    ≡ 7 ∷ 0 ∷ []
unfolding reads read destroy
until_error_run = refl

abbrev one_pending : Writing
one_pending = record {
  statistics = record {
    total_sent_bytes = 0;
    total_recv_bytes = 0;
    chunk_sent_bytes = 0;
    chunk_recv_bytes = 0;
    last_check_time_msec = 0;
  };
  pending = (9 ∷ 9 ∷ 9 ∷ []) ∷ [];
  written = [];
}

abbrev unheard_twice : WriteRound
unheard_twice = record {
  goes_on = true;
  arrivals = [];
  goes_on_after = true;
  answers =
      (write (send_fails enoent) open_socket three_bytes).0
      ∷ (write (send_fails econnrefused) open_socket three_bytes).0
      ∷ [];
}
