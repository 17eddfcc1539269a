-- ===== src/Echo/Examples.antt =====
-- The listening socket is 3, and the connections 4 and 6 are open.
use network_ex.Common.{ℕ, ◌≤◌, ◌<◌, ◌≡◌, refl, some, List, [], ◌∷◌, arith}
use network_ex.Common.Int.{pos}
use network_ex.Echo.NonBlocking.{
  array_size, assign, Accepted, connection, Incoming, would_block, Server, init, round, run,
}
use network_ex.Echo.Covered.{run_covers}

abbrev four_and_six : Server
four_and_six = record {
  client_fd_array = assign (assign (init 3).client_fd_array 4 (pos 1)) 6 (pos 1);
  maxfd = 6;
}

abbrev quiet : ℕ → Incoming
quiet i = would_block

abbrev joined : List (Accepted × (ℕ → Incoming))
joined = (connection 4, quiet) ∷ (connection 6, quiet) ∷ []

joined-run : run (init 3) joined ≡ some four_and_six
unfolding run round
joined-run = refl

run_covers_example :
    (four_and_six.maxfd < array_size)
    × ((i : ℕ) → four_and_six.client_fd_array i ≡ pos 1 → i ≤ four_and_six.maxfd)
run_covers_example = run_covers 3 joined four_and_six (omega arith) joined-run
