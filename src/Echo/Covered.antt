-- ===== src/Echo/Covered.antt =====
-- What the rounds of the non-blocking server keep.
use mathlib.Core.Path.{subst}
use network_ex.Common.{
  ℕ, zero, suc, ◌+◌, ◌≤◌, ◌<◌, ◌≡◌, ◌≢◌, refl, ◌⊎◌, inl, inr, some, List, [], ◌∷◌, replicate, arith,
  Option-cases,
}
use network_ex.Common.Bytes.{Bytes}
use network_ex.Common.Int.{ℤ, pos, negsuc}
use network_ex.Echo.NonBlocking.{
  max_line, array_size, FdArray, assign, Accepted, connection, again, failed, Incoming, would_block,
  broken, got, Swept, read_into, sweep, Server, init, Turn, round, run,
}

-- To split on an entry.
is_one : (z : ℤ) → (z ≡ pos 1) ⊎ (z ≢ pos 1)
is_one (pos zero) = inr (λ e. ground arith)
is_one (pos (suc zero)) = inl refl
is_one (pos (suc (suc n))) = inr (λ e. ground arith)
is_one (negsuc n) = inr (λ e. ground arith)

-- To split on an answer: nothing yet, the connection is closed, or bytes.
Incoming-cases :
    (m : Incoming)
    → (m ≡ would_block)
      ⊎ (((m ≡ broken) ⊎ (m ≡ got [])) ⊎ ((b : ℕ) × (bs : Bytes) × (m ≡ got (b ∷ bs))))
Incoming-cases would_block = inl refl
Incoming-cases broken = inr (inl (inl refl))
Incoming-cases (got []) = inr (inl (inr refl))
Incoming-cases (got (b ∷ bs)) = inr (inr (b, bs, refl))

-- A sweep makes no connection.
sweep-fds :
    (reads : ℕ → Incoming) (n i : ℕ) (buf : Bytes) (fds : FdArray) (j : ℕ)
    → (sweep reads n i buf fds).fds j ≡ pos 1
    → fds j ≡ pos 1
unfolding sweep assign
sweep-fds reads zero i buf fds j h = h
sweep-fds reads (suc n) i buf fds j h = elim (is_one (fds i)) [
  | inr other ↦ sweep-fds reads n (i + 1) buf fds j (ground arith)
  | inl one ↦ elim (Incoming-cases (reads i)) [
    | inl wait ↦ sweep-fds reads n (i + 1) buf fds j (ground arith)
    | inr (inl closed) ↦ ground arith
    | inr (inr (b, bs, e)) ↦ sweep-fds reads n (i + 1) (read_into (b ∷ bs) buf) fds j (ground arith)
  ]
]

-- Every connection is in the part of the array that the loop goes over.
pub record IsCovered (s : Server) : Type 0 where
  pub in_array : s.maxfd < array_size
  pub swept : (i : ℕ) → s.client_fd_array i ≡ pos 1 → i ≤ s.maxfd

round-IsCovered :
    (s : Server) (accepted : Accepted) (reads : ℕ → Incoming) (turn : Turn)
    → IsCovered s
    → round s accepted reads ≡ some turn
    → IsCovered turn.server
unfolding round assign
round-IsCovered s (connection fd) reads turn c h = record {
  in_array = ground arith;
  swept = λ i one. ground (arith, c.swept i);
}
round-IsCovered s failed reads turn c h = record {
  in_array = ground arith;
  swept = λ i one. ground (arith, c.swept i);
}
round-IsCovered s again reads turn c h =
    let swept : Swept = sweep reads (s.maxfd + 1) 0 (replicate max_line 0) s.client_fd_array in
    let same : record s { client_fd_array = swept.fds } ≡ turn.server = ground arith in
    subst IsCovered same (record {
      in_array = c.in_array;
      swept = λ i one.
          c.swept i
            (sweep-fds reads (s.maxfd + 1) 0 (replicate max_line 0) s.client_fd_array i one);
    })

run-IsCovered :
    (s s' : Server) (rounds : List (Accepted × (ℕ → Incoming)))
    → IsCovered s
    → run s rounds ≡ some s'
    → IsCovered s'
unfolding run
run-IsCovered s s' [] c h = let same : s ≡ s' = ground arith in subst IsCovered same c
run-IsCovered s s' ((accepted, reads) ∷ rest) c h = elim (Option-cases (round s accepted reads)) [
  | inl overrun ↦ absurd (ground arith)
  | inr (turn, e) ↦
      run-IsCovered turn.server s' rest (round-IsCovered s accepted reads turn c e) (ground arith)
]

-- From a listening socket that is in the array, whatever the kernel answers: while nothing is
-- written past the array, every connection that is open is within the part that the next sweep goes
-- over, and so is that part within the array.
pub run_covers :
    (server_sockfd : ℕ) (rounds : List (Accepted × (ℕ → Incoming))) (s : Server)
    → server_sockfd < array_size
    → run (init server_sockfd) rounds ≡ some s
    → (s.maxfd < array_size) × ((i : ℕ) → s.client_fd_array i ≡ pos 1 → i ≤ s.maxfd)
run_covers server_sockfd rounds s small h =
    let c : IsCovered s =
      run-IsCovered (init server_sockfd) s rounds
        (record { in_array = small; swept = λ i one. absurd (ground arith) }) h in
    (c.in_array, c.swept)
