-- ===== src/Common/Fgets.antt =====
-- What `fgets` takes from a stream.
use Prim.Native.Nat.{ℕ, zero, suc, ◌<◌}
use mathlib.Core.Path.{◌≡◌, refl}
use mathlib.Core.Logic.{◌≢◌}
use mathlib.Core.List.{[], ◌∷◌, ◌++◌}
use native.Mathlib.Omega.{arith}
use network_ex.Common.Tests.{◌==◌, if◌then◌else◌}
use network_ex.Common.Lists.{All, length}
use network_ex.Common.Bytes.{Bytes}

-- The first bytes, up to a newline and at most `n`, and those behind.
unfoldable pub take_line : ℕ → Bytes → Bytes × Bytes
take_line zero s = ([], s)
take_line (suc n) [] = ([], [])
take_line (suc n) (b ∷ s) =
    let (line, rest) = take_line n s in if b == 10 then (b ∷ [], s) else (b ∷ line, rest)

-- A whole line that fits is taken with its newline.
pub take_line-line :
    (n : ℕ) (line rest : Bytes)
    → All (λ b. b ≢ 10) line
    → length line < n
    → take_line n (line ++ 10 ∷ rest) ≡ (line ++ 10 ∷ [], rest)
unfolding take_line
take_line-line zero line rest h room = absurd (omega arith)
take_line-line (suc n) [] rest h room = refl
take_line-line (suc n) (b ∷ line) rest h room = ground (arith, take_line-line n line rest h.1)

-- What fits and has no newline is taken whole, at the end of the stream.
pub take_line-short :
    (n : ℕ) (s : Bytes) → All (λ b. b ≢ 10) s → length s < n → take_line n s ≡ (s, [])
unfolding take_line
take_line-short zero s h room = absurd (omega arith)
take_line-short (suc n) [] h room = refl
take_line-short (suc n) (b ∷ s) h room = ground (arith, take_line-short n s h.1)
