-- ===== src/TcpServer/Tests.antt =====
-- Runs of a server, and the theorems at concrete inputs.
use shovel_server.Base.{ℕ, ◌≡◌, refl, Bool, true, false, none, List, [], ◌∷◌, pos}
use shovel_server.TcpSocket
use shovel_server.TcpSocket.{peer}
use shovel_server.TcpServer.{
  ListenType, blocked, timed, unblocked, Opening, no_reuse, no_bind, listens, init, start, stop,
  destroy, wait_finished, Accepted, Serving, ok, setsockopt_error,
}
use shovel_server.TcpServer.Listening.{closed_by, opened, server_closes}
use shovel_server.TcpServer.Polling
use shovel_server.TcpServer.Polling.{
  Round, on_master, on_other, ready, wait_fails, epoll_loop, Outcome, epoll_hands_over,
}
use shovel_server.TcpServer.Accepting
use shovel_server.TcpServer.Accepting.{
  Thread, eagain, other, accepted, accept_fails, thread_unblocked_accept, Goes,
  unblocked_accept-Goes,
}

-- A start that cannot bind, one that cannot set SO_REUSEADDR, and two that listen.
abbrev starts : List (Opening × ListenType)
starts =
    (no_bind 3, timed) ∷ (no_reuse 4, blocked) ∷ (listens 5, timed) ∷ (listens 6, unblocked) ∷ []

starts_run : closed_by init starts ≡ pos 3 ∷ pos 4 ∷ pos 5 ∷ pos 6 ∷ []
unfolding closed_by init start destroy
starts_run = refl

server_closes_example : closed_by init starts ≡ opened starts
server_closes_example = server_closes starts (refl, (refl, (refl, (refl, tt))))

-- After a start that fails the destructor does not wait; while a thread runs, it does.
destructor_waits :
    (wait_finished ((start (no_bind 3) timed init).server.server_finished ∷ []) ≡ true)
    × (wait_finished ((stop (start (listens 3) timed init).server).server_finished ∷ []) ≡ false)
unfolding wait_finished start stop
destructor_waits = (refl, refl)

abbrev connection_on : ℕ → List Bool → Accepted
connection_on d options = record { slave_socket = pos d; options = options; peer = peer 80 1 }

abbrev nothing_served : Serving
nothing_served = record {
  server = record {
    master_socket = pos 5;
    status = ok;
    server_enable = true;
    server_finished = false;
  };
  handed_over = [];
}

abbrev enabled_round : List Polling.Event → Round
enabled_round events = record { enabled = true; waited = ready events; enabled_after = true }

-- Two connections, the second with an option that cannot be set, and one with the descriptor 0, for which
-- nothing is handed over; a timeout; and a stop.
abbrev poll_rounds : List Round
poll_rounds =
    enabled_round (on_master (connection_on 7 []) ∷ on_other ∷ [])
    ∷ enabled_round
        (on_master (connection_on 0 []) ∷ on_master (connection_on 8 (true ∷ false ∷ [])) ∷ [])
    ∷ enabled_round []
    ∷ record { enabled = true; waited = ready []; enabled_after = false }
    ∷ []

poll_run :
    epoll_loop nothing_served poll_rounds
    ≡ Polling.LoopState.ended (record {
      server = record {
        master_socket = pos 5;
        status = setsockopt_error;
        server_enable = true;
        server_finished = true;
      };
      handed_over = TcpSocket.init (peer 80 1) (pos 7) ∷ TcpSocket.init (peer 80 1) (pos 8) ∷ [];
    })
unfolding epoll_loop
poll_run = refl

epoll_hands_over_example :
    Outcome nothing_served poll_rounds (epoll_loop nothing_served poll_rounds)
epoll_hands_over_example = epoll_hands_over poll_rounds nothing_served

abbrev accepting : Accepting.Accepts → Accepting.Round
accepting answer = record {
  enabled = true;
  master_socket = pos 5;
  answer = answer;
  errno_after = none;
}

abbrev idle_thread : Thread
idle_thread = record { serving = nothing_served; errno = other; dropped = [] }

-- A connection, a round with none, and another connection, which is dropped.
drops_run :
    thread_unblocked_accept idle_thread (
      accepting (accepted (connection_on 7 []))
      ∷ accepting (accept_fails eagain)
      ∷ accepting (accepted (connection_on 8 []))
      ∷ [])
    ≡ Accepting.loops (record {
      serving = record nothing_served { handed_over = TcpSocket.init (peer 80 1) (pos 7) ∷ [] };
      errno = eagain;
      dropped = pos 8 ∷ [];
    })
unfolding thread_unblocked_accept
drops_run = refl

-- The descriptor 0 is neither handed over nor closed.
abbrev arrivals : List Accepted
arrivals = connection_on 0 [] ∷ connection_on 8 [] ∷ []

abbrev arrival_rounds : List Accepting.Round
arrival_rounds =
    accepting (accepted (connection_on 0 [])) ∷ accepting (accepted (connection_on 8 [])) ∷ []

arrivals_run :
    thread_unblocked_accept idle_thread arrival_rounds
    ≡ Accepting.loops (record {
      serving = record nothing_served { handed_over = TcpSocket.init (peer 80 1) (pos 8) ∷ [] };
      errno = other;
      dropped = pos 0 ∷ [];
    })
unfolding thread_unblocked_accept
arrivals_run = refl

unblocked_accept-Goes_example :
    Goes idle_thread arrivals (thread_unblocked_accept idle_thread arrival_rounds)
unblocked_accept-Goes_example =
    unblocked_accept-Goes arrivals arrival_rounds idle_thread
      ((refl, refl, refl, refl), ((refl, refl, refl, refl), tt))
