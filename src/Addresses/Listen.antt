-- ===== src/Addresses/Listen.antt =====
-- 24_IPv6/getaddrinfo_test/main.c: a listening socket for each address of `getaddrinfo`.
use network_ex.Common.{
  ℕ, ◌+◌, Option, none, some, List, [], ◌∷◌, Bool, true, false, ltb, if◌then◌else◌,
}

-- What `bind` answers: 0, or -1 with EADDRINUSE or another error.
pub data Bound : Type 0 where
  bound in_use refused : Bound

-- An address, with what `socket` answers for it, and `bind` and `listen` on that socket.
pub record Address : Type 0 where
  pub socket : Option ℕ
  pub binds : Bound
  pub listens : Bool

-- How `main` comes out: with a value, or it waits in `pause` for a signal, for which it has set no
-- handler: one that ends `pause` ends the process.
pub data Outcome : Type 0 where
  returns : ℕ → Outcome
  pauses : Outcome

-- The outcome, and the sockets that listen then.
pub record Ended : Type 0 where
  pub outcome : Outcome
  pub listening : List ℕ

abbrev pub then_listens : ℕ → Option Ended → Option Ended
then_listens fd none = none
then_listens fd (some e) = some (record e { listening = fd ∷ e.listening })

-- The first loop.
unfoldable pub count_loop : ℕ → List Address → ℕ
count_loop listen_fd_num [] = listen_fd_num
count_loop listen_fd_num (rp ∷ rest) = count_loop (listen_fd_num + 1) rest

-- The second loop, with the size of `listen_fd` and `i`; `none` where `listen_fd[i]` is past the
-- array. `errno` is tested, but the test governs nothing, so every failed `bind` ends `main`. The -1
-- of a failed `socket` is no descriptor, and `bind` fails on it.
unfoldable pub listen_loop : ℕ → ℕ → List Address → Option Ended
listen_loop size i [] = some (record { outcome = pauses; listening = [] })
listen_loop size i (rp ∷ rest) =
    let more = listen_loop size (i + 1) rest in
    let fails = some (record { outcome = returns 1; listening = [] }) in
    if ltb i size
    then elim rp.socket [
      | none ↦ fails
      | some fd ↦ elim rp.binds [
        | bound ↦ if rp.listens then then_listens fd more else fails
        | in_use ↦ fails
        | refused ↦ fails
      ]
    ]
    else none

-- The size of the array that `malloc` gives for the count; there is none to write to where it gives
-- NULL.
abbrev pub array_size : Bool → ℕ → ℕ
array_size true listen_fd_num = listen_fd_num
array_size false listen_fd_num = 0

-- `main` after its arguments are counted, with whether `malloc` works and what `getaddrinfo` gives.
unfoldable pub listen_main : Bool → Option (List Address) → Option Ended
unfolding count_loop listen_loop
listen_main allocates none = some (record { outcome = returns 1; listening = [] })
listen_main allocates (some result) =
    listen_loop (array_size allocates (count_loop 0 result)) 0 result
