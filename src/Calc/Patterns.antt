-- ===== src/Calc/Patterns.antt =====
-- The operations on 32-bit patterns are those on the integers, where the result is an `int`.
use network_ex.Common.{ℕ, suc, ◌+◌, ◌-◌, ◌*◌, ◌%◌, ◌^◌, ◌<◌, ◌≡◌, ◌≢◌, ap, some, arith}
use network_ex.Common.Int.{ℤ, pos, negsuc, ◌+ℤ◌, ◌-ℤ◌, ◌*ℤ◌, sub_ℕ, quot, IsInt, pattern_of}
use network_ex.Calc.Arith.{word, add32, sub32, mul32, div32}

pub pattern_of-lt : (a : ℤ) → IsInt a → pattern_of a < word
pattern_of-lt a h = ground arith

pub add32-pattern_of :
    (a b : ℤ)
    → IsInt a
    → IsInt b
    → IsInt (a +ℤ b)
    → add32 (pattern_of a) (pattern_of b) ≡ pattern_of (a +ℤ b)
unfolding add32 ◌+ℤ◌
add32-pattern_of a b ha hb hc = ground arith

pub sub32-pattern_of :
    (a b : ℤ)
    → IsInt a
    → IsInt b
    → IsInt (a -ℤ b)
    → sub32 (pattern_of a) (pattern_of b) ≡ pattern_of (a -ℤ b)
unfolding sub32 ◌-ℤ◌
sub32-pattern_of a b ha hb hc = ground arith

-- A multiple of 2 ^ 32 less y stands for -y.
negated : (x y m : ℕ) → x + y ≡ word * m → IsInt (sub_ℕ 0 y) → x % word ≡ pattern_of (sub_ℕ 0 y)
negated x y m e h = ground arith

-- A product with the pattern of a negative number.
mul_pattern : (m n : ℕ) → n < 2 ^ 31 → m * (word - suc n) + m * suc n ≡ word * m
mul_pattern m n h =
    let whole : word - suc n + suc n ≡ word = omega arith in
    omega (arith, ap (λ (t : ℕ). m * t) whole)

mul_parts : (u a v b : ℕ) → u * v + (v + b) * a + (u + a) * b ≡ (u + a) * (v + b) + a * b
mul_parts u a v b = omega arith

mul_patterns :
    (m n : ℕ)
    → m < 2 ^ 31
    → n < 2 ^ 31
    → (word - suc m) * (word - suc n) + word * suc m + word * suc n ≡ word * word + suc m * suc n
mul_patterns m n hm hn =
    let left : word - suc m + suc m ≡ word = omega arith in
    let right : word - suc n + suc n ≡ word = omega arith in
    let parts = mul_parts (word - suc m) (suc m) (word - suc n) (suc n) in rw (left, right) at parts

cut : (x p a b : ℕ) → x + word * a + word * b ≡ word * word + p → p < word → x % word ≡ p
cut x p a b e h = omega arith

pub mul32-pattern_of :
    (a b : ℤ)
    → IsInt a
    → IsInt b
    → IsInt (a *ℤ b)
    → mul32 (pattern_of a) (pattern_of b) ≡ pattern_of (a *ℤ b)
unfolding mul32 ◌*ℤ◌
mul32-pattern_of (pos m) (pos n) ha hb hc = omega arith
mul32-pattern_of (pos m) (negsuc n) ha hb hc =
    negated (m * (word - suc n)) (m * suc n) m (mul_pattern m n hb) hc
mul32-pattern_of (negsuc m) (pos n) ha hb hc =
    negated ((word - suc m) * n) (suc m * n) n (omega (arith, mul_pattern n m ha)) hc
mul32-pattern_of (negsuc m) (negsuc n) ha hb hc =
    cut ((word - suc m) * (word - suc n)) (suc m * suc n) (suc m) (suc n) (mul_patterns m n ha hb)
      (omega arith)

pub div32-pattern_of :
    (a b : ℤ)
    → IsInt a
    → IsInt b
    → b ≢ pos 0
    → IsInt (quot a b)
    → div32 (pattern_of a) (pattern_of b) ≡ some (pattern_of (quot a b))
unfolding div32 quot
div32-pattern_of (pos m) (pos n) ha hb ne hc = ground arith
div32-pattern_of (pos m) (negsuc n) ha hb ne hc = ground arith
div32-pattern_of (negsuc m) (pos n) ha hb ne hc = ground arith
div32-pattern_of (negsuc m) (negsuc n) ha hb ne hc = ground arith
