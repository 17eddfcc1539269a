-- ===== src/Addresses/AllBound.antt =====
-- What `getaddrinfo_test` comes to: its array is never overrun, and the first failure ends it.
use network_ex.Common.{
  ℕ, ◌+◌, ◌≤◌, ◌≡◌, refl, none, some, List, [], ◌∷◌, Bool, true, false, length, if◌then◌else◌,
  arith,
}
use network_ex.Addresses.Listen.{
  returns, pauses, bound, in_use, refused, Address, count_loop, listen_loop, listen_main,
}

-- All three calls work for the address.
unfoldable pub works : Address → Bool
works a = elim a.socket [
  | none ↦ false
  | some fd ↦ elim a.binds [ bound ↦ a.listens | in_use ↦ false | refused ↦ false ]
]

abbrev pub all_work : List Address → Bool
all_work [] = true
all_work (a ∷ rest) = let more = all_work rest in if works a then more else false

-- The sockets of the addresses before the first that does not work.
unfoldable pub first_sockets : List Address → List ℕ
first_sockets [] = []
first_sockets (a ∷ rest) =
    let more = first_sockets rest in
    if works a then elim a.socket [ none ↦ more | some fd ↦ fd ∷ more ] else []

count_loop-length : (k : ℕ) (rest : List Address) → count_loop k rest ≡ k + length rest
unfolding count_loop
count_loop-length k [] = omega arith
count_loop-length k (a ∷ rest) = omega (arith, count_loop-length (k + 1) rest)

listen_loop-first :
    (size i : ℕ) (rest : List Address)
    → i + length rest ≤ size
    → listen_loop size i rest
      ≡ some (record {
        outcome = if all_work rest then pauses else returns 1;
        listening = first_sockets rest;
      })
unfolding listen_loop works first_sockets
listen_loop-first size i [] h = refl
listen_loop-first size i (a ∷ rest) h = ground (arith, listen_loop-first size (i + 1) rest)

-- For all addresses that `getaddrinfo` can give, where `malloc` works, and whatever the other calls
-- answer: `main` writes no element past its array; it waits in `pause` exactly if every address gets a
-- socket that is bound and listens, and returns 1 otherwise; and those before the first that does not
-- are left listening. An address in use ends it as any other failure does.
pub listen_main_lem :
    (result : List Address)
    → listen_main true (some result)
      ≡ some (record {
        outcome = if all_work result then pauses else returns 1;
        listening = first_sockets result;
      })
unfolding listen_main
listen_main_lem result =
    listen_loop-first (count_loop 0 result) 0 result (omega (arith, count_loop-length 0 result))
