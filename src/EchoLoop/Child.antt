-- ===== src/EchoLoop/Child.antt =====
-- What the children and the threads write back.

use network_ex.Common.{
  ℕ, ◌+◌, ◌<◌, ◌≡◌, ◌≢◌, refl, Option, none, some, List, [], ◌∷◌, Bool, true, false, map, length,
  take_all, All, arith,
}
use network_ex.Common.Bytes.{Bytes, NulFree, c_string-filled}
use network_ex.EchoLoop.Servers.{buf_size, fork_child, thread_func, xinetd, ForkRound, fork_parent}

-- A block of text: some bytes, none of them NUL, with room for a NUL in the buffer.
pub record IsText (block : Bytes) : Type 0 where
  pub not_empty : block ≢ []
  pub no_nul : NulFree block
  pub room : length block < buf_size

fork_child-texts :
    (texts : List Bytes) → All IsText texts → fork_child (map some texts) ≡ some texts
unfolding fork_child
fork_child-texts [] h = refl
fork_child-texts ([] ∷ rest) h = absurd (h.0.not_empty refl)
fork_child-texts ((b ∷ bs) ∷ rest) h =
    ground (arith, c_string-filled buf_size (b ∷ bs) h.0.no_nul h.0.room, fork_child-texts rest h.1)

thread_func-fork_child :
    (incoming : List (Option Bytes)) → thread_func incoming ≡ fork_child incoming
unfolding thread_func fork_child
thread_func-fork_child [] = refl
thread_func-fork_child (none ∷ rest) = refl
thread_func-fork_child (some [] ∷ rest) = refl
thread_func-fork_child (some (b ∷ bs) ∷ rest) = ground (arith, thread_func-fork_child rest)

-- Where every `write` takes all that it is given.
xinetd-fork_child :
    (writes : ℕ → ℕ → Option ℕ) (k : ℕ) (texts : List Bytes)
    → ((i n : ℕ) → writes i n ≡ some n)
    → All IsText texts
    → xinetd writes k (map some texts) ≡ some texts
unfolding xinetd
xinetd-fork_child writes k [] full h = refl
xinetd-fork_child writes k ([] ∷ rest) full h = absurd (h.0.not_empty refl)
xinetd-fork_child writes k ((b ∷ bs) ∷ rest) full h = ground (
  arith,
  c_string-filled buf_size (b ∷ bs) h.0.no_nul h.0.room,
  full k (length (b ∷ bs)),
  take_all (length bs) bs refl,
  xinetd-fork_child writes (k + 1) rest full h.1,
)

-- Blocks of text, each of which the server reads as one: the child of the fork server and the thread
-- write each back as it is, and so does the xinetd server where every `write` takes all that it is
-- given. On all that can come, text or not, the thread does what the child does.
pub children_echo :
    (writes : ℕ → ℕ → Option ℕ) (texts : List Bytes)
    → ((i n : ℕ) → writes i n ≡ some n)
    → All IsText texts
    → (fork_child (map some texts) ≡ some texts)
      × (xinetd writes 0 (map some texts) ≡ some texts)
      × ((incoming : List (Option Bytes)) → thread_func incoming ≡ fork_child incoming)
children_echo writes texts full h =
    (fork_child-texts texts h, xinetd-fork_child writes 0 texts full h, thread_func-fork_child)

-- A client of the fork server: its blocks of text, and whether the server's `fork` works for it.
pub record Client : Type 0 where
  pub texts : List Bytes
  pub gets_child : Bool

abbrev pub round_of : Client → ForkRound
round_of c = record { accepted = some (map some c.texts); forks = c.gets_child }

-- What the clients with a child sent, and the number of the others.
pub echoed : List Client → List (List Bytes)
echoed [] = []
echoed (c ∷ cs) = let more = echoed cs in elim c.gets_child [ true ↦ c.texts ∷ more | false ↦ more ]

pub unserved : List Client → ℕ
unserved [] = 0
unserved (c ∷ cs) = let more = unserved cs in elim c.gets_child [ true ↦ more | false ↦ more + 1 ]

-- After clients that have all sent text, the fork server still waits; those for which `fork` worked
-- have their texts back, in order, and for each of the others the server keeps a connection open
-- that nobody serves.
pub fork_parent_serves :
    (clients : List Client)
    → All (λ c. All IsText c.texts) clients
    → fork_parent (map round_of clients)
      ≡ some (record { written = echoed clients; held = unserved clients; waits = true })
unfolding fork_parent echoed unserved
fork_parent_serves [] h = refl
fork_parent_serves (c ∷ cs) h =
    ground (arith, fork_child-texts c.texts h.0, fork_parent_serves cs h.1)
