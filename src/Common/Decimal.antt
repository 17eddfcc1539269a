-- ===== src/Common/Decimal.antt =====
-- `%d`, `%02d` and the number that a run of decimal digits stands for.
use Prim.Native.Nat.{ℕ, zero, suc, ◌+◌, ◌-◌, ◌*◌, ◌/◌, ◌%◌, ◌^◌, ◌≤◌, ◌<◌}
use mathlib.Core.Path.{◌≡◌, refl}
use mathlib.Core.Logic.{◌≢◌, inl, inr}
use mathlib.Core.Bool.{Bool, true, ◌&&◌}
use mathlib.Core.List.{[], ◌∷◌, ◌++◌}
use native.Mathlib.Nat.{pow-suc}
use native.Mathlib.Omega.{arith}
use network_ex.Common.Tests.{ltb, if◌then◌else◌, Bool-cases}
use network_ex.Common.Lists.{All, All-append, length, length-append}
use network_ex.Common.Bytes.{Bytes}
use network_ex.Common.Int.{ℤ, pos, negsuc}

-- The digits of a number, with fuel for the divisions; more fuel than the number is enough.
digits_fuel : ℕ → ℕ → Bytes
digits_fuel zero n = []
digits_fuel (suc fuel) n =
    let upper = digits_fuel fuel (n / 10) in
    if ltb n 10 then (b'0' + n) ∷ [] else upper ++ (b'0' + n % 10) ∷ []

-- "%d" of a number that is not negative.
unfoldable pub decimal : ℕ → Bytes
unfolding digits_fuel
decimal n = digits_fuel (suc n) n

-- "%d"
unfoldable pub decimal_ℤ : ℤ → Bytes
unfolding decimal
decimal_ℤ (pos n) = decimal n
decimal_ℤ (negsuc n) = b'-' ∷ decimal (suc n)

-- "%02d"
unfoldable pub two_digits : ℕ → Bytes
unfolding decimal
two_digits n = if ltb n 10 then b'0' ∷ decimal n else decimal n

-- The `int` that a value too large for it is cut to.
unfoldable pub to_int : ℕ → ℤ
to_int n = let w = n % 2 ^ 32 in if ltb w (2 ^ 31) then pos w else negsuc (2 ^ 32 - 1 - w)

-- The number that digits stand for.
unfoldable pub value_from : ℕ → Bytes → ℕ
value_from acc [] = acc
value_from acc (d ∷ ds) = value_from (acc * 10 + (d - b'0')) ds

abbrev pub value : Bytes → ℕ
value ds = value_from 0 ds

value_from-append :
    (acc : ℕ) (ds : Bytes) (d : ℕ)
    → value_from acc (ds ++ d ∷ []) ≡ value_from acc ds * 10 + (d - b'0')
unfolding value_from
value_from-append acc [] d = refl
value_from-append acc (c ∷ ds) d = value_from-append (acc * 10 + (c - b'0')) ds d

value-digits_fuel : (fuel n : ℕ) → n < fuel → value (digits_fuel fuel n) ≡ n
unfolding digits_fuel
value-digits_fuel zero n h = absurd (omega arith)
value-digits_fuel (suc fuel) n h = elim (Bool-cases (ltb n 10)) [
  | inl small ↦ rw small (unfold value_from in omega arith)
  | inr large ↦ rw large (
      ground (
        arith,
        value_from-append 0 (digits_fuel fuel (n / 10)) (b'0' + n % 10),
        value-digits_fuel fuel (n / 10),
      ))
]

-- The digits that "%d" prints stand for the number.
pub value-decimal : (n : ℕ) → value (decimal n) ≡ n
unfolding decimal
value-decimal n = value-digits_fuel (suc n) n (omega arith)

pub to_int-pos : (n : ℕ) → n < 2 ^ 31 → to_int n ≡ pos n
unfolding to_int
to_int-pos n h = ground arith

digits_fuel-All : (fuel n : ℕ) → All (λ d. b'0' ≤ d) (digits_fuel fuel n)
unfolding digits_fuel
digits_fuel-All zero n = tt
digits_fuel-All (suc fuel) n = elim (Bool-cases (ltb n 10)) [
  | inl small ↦ rw small (omega arith)
  | inr large ↦ rw large (
      All-append (λ d. b'0' ≤ d) (digits_fuel fuel (n / 10)) ((b'0' + n % 10) ∷ [])
        (digits_fuel-All fuel (n / 10)) (omega arith))
]

-- "%d" prints no byte below the digits.
pub decimal-All : (n : ℕ) → All (λ d. b'0' ≤ d) (decimal n)
unfolding decimal
decimal-All n = digits_fuel-All (suc n) n

length-digits_fuel : (k fuel n : ℕ) → n < 10 ^ suc k → length (digits_fuel fuel n) ≤ suc k
unfolding digits_fuel
length-digits_fuel k zero n h = omega arith
length-digits_fuel zero (suc fuel) n h = ground arith
length-digits_fuel (suc k) (suc fuel) n h = elim (Bool-cases (ltb n 10)) [
  | inl small ↦ rw small (omega arith)
  | inr large ↦ rw large (
      omega (
        arith,
        length-append (digits_fuel fuel (n / 10)) ((b'0' + n % 10) ∷ []),
        length-digits_fuel k fuel (n / 10) (omega (arith, pow-suc 10 (suc k))),
      ))
]

-- A number below a power of ten prints at most that many digits.
pub length-decimal : (k n : ℕ) → n < 10 ^ suc k → length (decimal n) ≤ suc k
unfolding decimal
length-decimal k n h = length-digits_fuel k (suc n) n h

abbrev pub is_digit : ℕ → Bool
is_digit d = ltb (b'0' - 1) d && ltb d (b'9' + 1)

digits_fuel-AreDigits : (fuel n : ℕ) → All (λ d. is_digit d ≡ true) (digits_fuel fuel n)
unfolding digits_fuel
digits_fuel-AreDigits zero n = tt
digits_fuel-AreDigits (suc fuel) n = elim (Bool-cases (ltb n 10)) [
  | inl small ↦ rw small (ground arith, tt)
  | inr large ↦ rw large (
      All-append (λ d. is_digit d ≡ true) (digits_fuel fuel (n / 10)) ((b'0' + n % 10) ∷ [])
        (digits_fuel-AreDigits fuel (n / 10)) (ground arith, tt))
]

-- "%d" of a number that is not negative prints digits, and at least one.
pub decimal-AreDigits : (n : ℕ) → All (λ d. is_digit d ≡ true) (decimal n)
unfolding decimal
decimal-AreDigits n = digits_fuel-AreDigits (suc n) n

append-not_empty : (s : Bytes) (d : ℕ) → s ++ d ∷ [] ≢ []
append-not_empty [] d h = ground arith
append-not_empty (b ∷ s) d h = ground arith

pub decimal-not_empty : (n : ℕ) → decimal n ≢ []
unfolding decimal digits_fuel
decimal-not_empty n h = ground (arith, append-not_empty (digits_fuel n (n / 10)) (b'0' + n % 10))
