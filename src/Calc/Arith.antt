-- ===== src/Calc/Arith.antt =====
-- `struct cal_data`, and the operations on an `int` as the compiler wraps them.
use network_ex.Common.{
  ℕ, ◌+◌, ◌-◌, ◌*◌, ◌/◌, ◌%◌, ◌^◌, Option, none, some, Bool, true, false, ltb, ◌==◌, if◌then◌else◌,
}

-- `left_num`, `right_num` and `result` as 32-bit patterns, `error` as a 16-bit one.
pub record CalData : Type 0 where
  pub left_num : ℕ
  pub right_num : ℕ
  pub op : ℕ
  pub result : ℕ
  pub error : ℕ

abbrev pub word : ℕ
word = 2 ^ 32

-- The size of the number that a pattern stands for.
abbrev pub magnitude : ℕ → ℕ
magnitude w = if ltb w (2 ^ 31) then w else word - w

abbrev pub is_negative : ℕ → Bool
is_negative w = if ltb w (2 ^ 31) then false else true

unfoldable pub add32 : ℕ → ℕ → ℕ
add32 a b = (a + b) % word

unfoldable pub sub32 : ℕ → ℕ → ℕ
sub32 a b = (a + word - b) % word

unfoldable pub mul32 : ℕ → ℕ → ℕ
mul32 a b = a * b % word

-- `a / b` rounds towards 0. `none` for the one quotient that is no `int`, on which the processor
-- traps; `b` is not 0.
unfoldable pub div32 : ℕ → ℕ → Option ℕ
div32 a b =
    let q = magnitude a / magnitude b in
    if is_negative a
    then if is_negative b then if q == 2 ^ 31 then none else some q else some ((word - q) % word)
    else if is_negative b
    then some ((word - q) % word)
    else some q
