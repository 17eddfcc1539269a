-- ===== src/Common/ScanfLaws.antt =====
-- What `printf` writes of an `int`, `scanf` reads back.
use Prim.Native.Nat.{ℕ, suc}
use mathlib.Core.Path.{◌≡◌, refl, ap, ◌∙◌}
use mathlib.Core.Logic.{◌≢◌}
use mathlib.Core.Bool.{Bool, true, false}
use mathlib.Core.List.{[], ◌∷◌, ◌++◌}
use native.Mathlib.Omega.{arith}
use network_ex.Common.Lists.{All}
use network_ex.Common.Bytes.{Bytes}
use network_ex.Common.Int.{ℤ, pos, negsuc, IsInt}
use network_ex.Common.Decimal.{
  value, decimal, decimal_ℤ, value-decimal, is_digit, decimal-AreDigits, decimal-not_empty,
}
use network_ex.Common.Scanf.{
  is_space, skip_spaces, span, matched, signed, fits_int, scan_digits, scan_int, read_digits,
}

-- Text that no digit starts.
abbrev pub NoDigit : Bytes → Type 0
NoDigit [] = Unit {0}
NoDigit (b ∷ s) = is_digit b ≡ false

span-digits :
    (ds s : Bytes) → All (λ d. is_digit d ≡ true) ds → NoDigit s → span true (ds ++ s) ≡ (ds, s)
unfolding span
span-digits [] [] h n = refl
span-digits [] (b ∷ s) h n = ground arith
span-digits (d ∷ ds) s h n = ground (arith, span-digits ds s h.1 n)

-- A number of digits, without a sign.
abbrev pub Digits : Bytes → Type 0
Digits ds = (ds ≢ []) × All (λ d. is_digit d ≡ true) ds

pub decimal-Digits : (n : ℕ) → Digits (decimal n)
decimal-Digits n = (decimal-not_empty n, decimal-AreDigits n)

read_digits-some :
    (negative : Bool) (n : ℕ) (ds s : Bytes)
    → ds ≢ []
    → value ds ≡ n
    → fits_int negative n ≡ true
    → read_digits negative (ds, s) ≡ matched (signed negative n) s
read_digits-some negative n [] s some_digit e fits = absurd (some_digit refl)
read_digits-some negative n (d ∷ ds) s some_digit e fits = rw (e, fits)

pub scan_digits-decimal :
    (negative : Bool) (n : ℕ) (s : Bytes)
    → fits_int negative n ≡ true
    → NoDigit s
    → scan_digits negative (decimal n ++ s) ≡ matched (signed negative n) s
unfolding scan_digits
scan_digits-decimal negative n s fits ends =
    ap (read_digits negative) (span-digits (decimal n) s (decimal-AreDigits n) ends)
    ∙ read_digits-some negative n (decimal n) s (decimal-not_empty n) (value-decimal n) fits

pub scan_int-Digits : (ds s : Bytes) → Digits ds → scan_int (ds ++ s) ≡ scan_digits false (ds ++ s)
unfolding scan_int skip_spaces is_space
scan_int-Digits [] s h = absurd (h.0 refl)
scan_int-Digits (d ∷ ds) s h = let is_one : is_digit d ≡ true = h.1.0 in ground arith

scan_int-minus : (s : Bytes) → scan_int (b'-' ∷ s) ≡ scan_digits true s
unfolding scan_int skip_spaces is_space
scan_int-minus s = refl

signed_minus : (n : ℕ) → signed true (suc n) ≡ negsuc n
signed_minus n = ground arith

-- What "%d" prints of an `int`, "%d" reads back.
pub scan_int-decimal_ℤ :
    (a : ℤ) (s : Bytes) → IsInt a → NoDigit s → scan_int (decimal_ℤ a ++ s) ≡ matched a s
unfolding decimal_ℤ
scan_int-decimal_ℤ (pos n) s small ends =
    scan_int-Digits (decimal n) s (decimal-Digits n)
    ∙ scan_digits-decimal false n s (ground arith) ends
scan_int-decimal_ℤ (negsuc n) s small ends =
    scan_int-minus (decimal (suc n) ++ s)
    ∙ scan_digits-decimal true (suc n) s (ground arith) ends
    ∙ ap (λ z. matched z s) (signed_minus n)
