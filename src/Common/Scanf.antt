-- ===== src/Common/Scanf.antt =====
-- Conversions of `scanf` and `sscanf`.
use Prim.Native.Nat.{ℕ, ◌^◌}
use mathlib.Core.Bool.{Bool, true, false, ◌&&◌, ◌||◌}
use mathlib.Core.List.{[], ◌∷◌}
use network_ex.Common.Tests.{ltb, leb, ◌==◌, if◌then◌else◌}
use network_ex.Common.Bytes.{Bytes}
use network_ex.Common.Int.{ℤ, pos, sub_ℕ}
use network_ex.Common.Decimal.{value, is_digit}

-- What `isspace` says.
unfoldable pub is_space : ℕ → Bool
is_space b = b == b' ' || (ltb 8 b && ltb b 14)

unfoldable pub skip_spaces : Bytes → Bytes
skip_spaces [] = []
skip_spaces (b ∷ s) = let rest = skip_spaces s in if is_space b then rest else b ∷ s

-- The bytes at the start that are digits, or that are none, and those behind.
unfoldable pub span : Bool → Bytes → Bytes × Bytes
span digits [] = ([], [])
span digits (b ∷ s) =
    let (taken, rest) = span digits s in
    elim (is_digit b) [
      | true ↦ if digits then (b ∷ taken, rest) else ([], b ∷ s)
      | false ↦ if digits then ([], b ∷ s) else (b ∷ taken, rest)
    ]

-- How a conversion of `sscanf` ends: with no match, undefined where the number is no `int` or the
-- string does not fit its array, or with a value and the text behind it.
pub data Scanned (A : Type 0) : Type 0 where
  no_match : Scanned A
  undefined : Scanned A
  matched : A → Bytes → Scanned A

abbrev pub signed : Bool → ℕ → ℤ
signed negative n = if negative then sub_ℕ 0 n else pos n

abbrev pub fits_int : Bool → ℕ → Bool
fits_int negative n = if negative then leb n (2 ^ 31) else ltb n (2 ^ 31)

abbrev pub read_digits : Bool → Bytes × Bytes → Scanned ℤ
read_digits negative ([], rest) = no_match
read_digits negative (d ∷ ds, rest) =
    if fits_int negative (value (d ∷ ds))
    then matched (signed negative (value (d ∷ ds))) rest
    else undefined

-- The digits after the sign.
unfoldable pub scan_digits : Bool → Bytes → Scanned ℤ
unfolding span
scan_digits negative s = read_digits negative (span true s)

abbrev pub scan_sign : Bytes → Scanned ℤ
scan_sign [] = no_match
scan_sign (b ∷ s) =
    if b == b'-'
    then scan_digits true s
    else if b == b'+'
    then scan_digits false s
    else scan_digits false (b ∷ s)

-- "%d"
unfoldable pub scan_int : Bytes → Scanned ℤ
unfolding scan_digits
scan_int s = scan_sign (skip_spaces s)
