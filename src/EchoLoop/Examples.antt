-- ===== src/EchoLoop/Examples.antt =====
-- Lines of two and five bytes to the echo servers.
use network_ex.Common.{
  ℕ, ◌≡◌, ◌≢◌, refl, true, false, Option, none, some, All, ltb, List, [], ◌∷◌, map, arith,
}
use network_ex.Common.Bytes.{Bytes, codes, filled}
use network_ex.EchoLoop.Servers.{fork_child, thread_func, xinetd}
use network_ex.EchoLoop.Mains.{Descriptors, Round, echo_rounds}
use network_ex.EchoLoop.Ended.{IsNew, echo_rounds_lem}
use network_ex.EchoLoop.Child.{IsText, children_echo}

abbrev hi : Bytes
hi = codes "hi"

hi-not_empty : hi ≢ []
hi-not_empty e = ground arith

abbrev all_written : ℕ → ℕ → Option ℕ
all_written k n = some n

hi-IsText : IsText hi
hi-IsText = record { not_empty = hi-not_empty; no_nul = omega arith; room = omega arith }

children_echo_example :
    (fork_child (map some (hi ∷ hi ∷ [])) ≡ some (hi ∷ hi ∷ []))
    × (xinetd all_written 0 (map some (hi ∷ hi ∷ [])) ≡ some (hi ∷ hi ∷ []))
    × ((incoming : List (Option Bytes)) → thread_func incoming ≡ fork_child incoming)
children_echo_example =
    children_echo all_written (hi ∷ hi ∷ []) (λ i n. refl) (hi-IsText, (hi-IsText, tt))

-- The descriptors below 4 are open; `accept` fails once, and one `write` fails.
abbrev at_start : Descriptors
at_start fd = ltb fd 4

abbrev three_rounds : List Round
three_rounds =
    record { accepted = none; received = none; writes = true }
    ∷ record { accepted = some 4; received = some hi; writes = true }
    ∷ record { accepted = some 4; received = some hi; writes = false }
    ∷ []

three_rounds-IsNew : All (IsNew at_start) three_rounds
three_rounds-IsNew =
    ((λ fd e. absurd (ground arith)), ((λ fd e. ground arith), ((λ fd e. ground arith), tt)))

echo_rounds_lem_example :
    ((echo_rounds at_start three_rounds).0 ≡ at_start)
    × ((echo_rounds at_start three_rounds).1 ≡ (filled 1024 hi ∷ []) ∷ [] ∷ [])
echo_rounds_lem_example = echo_rounds_lem at_start three_rounds three_rounds-IsNew
