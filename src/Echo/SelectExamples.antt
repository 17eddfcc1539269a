-- ===== src/Echo/SelectExamples.antt =====
-- The listening socket is 3, and 4 and 5 have joined.
use network_ex.Common.{
  ℕ, ◌≤◌, ◌<◌, ◌≡◌, refl, true, none, some, [], ◌∷◌, map, length, ◌==◌, ◌||◌, arith,
}
use network_ex.Common.Bytes.{Bytes, codes}
use network_ex.Common.Int.{pos}
use network_ex.Echo.NonBlocking.{write}
use network_ex.Echo.Select.{set_size, fd_set_to, Server, start, Events, select_round, select_run}
use network_ex.Echo.Ready.{ready_from, Says, select_round_echoes}
use network_ex.Echo.Watched.{select_run_watches}

abbrev joins : ℕ → Events
joins fd = record { allfds = λ i. i == 3; fd_num = pos 1; accepted = some fd; reads = λ i. none }

abbrev two_joined : Server
two_joined = record { readfds = fd_set_to (fd_set_to (start 3).readfds 4 true) 5 true; maxfd = 5 }

joins-run : select_run 3 (start 3) (joins 4 ∷ joins 5 ∷ []) ≡ some two_joined
unfolding select_run select_round start
joins-run = refl

select_run_watches_example :
    (two_joined.readfds 3 ≡ true)
    × (two_joined.maxfd < set_size)
    × ((i : ℕ) → two_joined.readfds i ≡ true → i ≤ two_joined.maxfd)
select_run_watches_example =
    select_run_watches 3 (joins 4 ∷ joins 5 ∷ []) two_joined (omega arith) joins-run

abbrev hello : ℕ → Bytes
hello fd = codes "hello"

abbrev both_speak : Events
both_speak = record {
  allfds = λ i. i == 4 || i == 5;
  fd_num = pos 2;
  accepted = none;
  reads = λ i. some (hello i);
}

both_say : (k : ℕ) → both_speak.allfds k ≡ true → Says both_speak k (hello k)
both_say k h = record {
  sent = refl;
  not_empty = λ e. ground arith;
  no_nul = omega arith;
  room = omega arith;
  no_quit = refl;
}

two_ready : length (ready_from both_speak.allfds 6 0) ≤ 2
unfolding ready_from
two_ready = omega arith

select_round_echoes_example :
    select_round 3 two_joined both_speak
    ≡ some (record {
      server = two_joined;
      outputs = map (λ k. write k (hello k)) (ready_from both_speak.allfds 6 0);
    })
select_round_echoes_example =
    select_round_echoes 3 2 two_joined both_speak hello refl refl two_ready both_say
