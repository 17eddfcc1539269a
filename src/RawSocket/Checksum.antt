-- ===== src/RawSocket/Checksum.antt =====
-- `in_cksum` of 21_raw_socket/icmp_check/main.c: the Internet checksum.
use network_ex.Common.{
  ℕ, zero, suc, ◌+◌, ◌-◌, ◌*◌, ◌/◌, ◌%◌, ◌^◌, ◌≤◌, ◌<◌, ◌≡◌, refl, ap, sym, ◌∙◌, Option, none, some,
  [], ◌∷◌, replicate, All, arith, inl, inr, Option-cases,
}
use network_ex.Common.Bytes.{Bytes}

-- The loops over the words at `p`, with `n` bytes left: a 16-bit word is loaded with its low byte
-- first, and an odd last byte counts as a word with a zero byte. `none` where the array has fewer
-- than `n` bytes. `sum` is a `long`, which these sums do not overflow.
unfoldable pub sum_words : ℕ → Bytes → ℕ → Option ℕ
sum_words zero p sum = some sum
sum_words (suc zero) [] sum = none
sum_words (suc zero) (a ∷ p) sum = some (sum + a)
sum_words (suc (suc n)) [] sum = none
sum_words (suc (suc n)) (a ∷ []) sum = none
sum_words (suc (suc n)) (a ∷ b ∷ p) sum = sum_words n p (sum + (a + 256 * b))

-- The two foldings of the carries, and the complement in an `u_short`.
unfoldable pub fold_sum : ℕ → ℕ
fold_sum sum =
    let once = sum / 65536 + sum % 65536 in let twice = once + once / 65536 in 65535 - twice % 65536

unfoldable pub in_cksum : Bytes → ℕ → Option ℕ
in_cksum p n = elim (sum_words n p 0) [ none ↦ none | some sum ↦ some (fold_sum sum) ]

-- The sum is taken on from what was summed before.
sum_words-add :
    (n : ℕ) (p : Bytes) (s d r : ℕ)
    → sum_words n p s ≡ some r
    → sum_words n p (s + d) ≡ some (r + d)
unfolding sum_words
sum_words-add zero p s d r h = ground arith
sum_words-add (suc zero) [] s d r h = absurd (ground arith)
sum_words-add (suc zero) (a ∷ p) s d r h = ground arith
sum_words-add (suc (suc n)) [] s d r h = absurd (ground arith)
sum_words-add (suc (suc n)) (a ∷ []) s d r h = absurd (ground arith)
sum_words-add (suc (suc n)) (a ∷ b ∷ p) s d r h =
    let e : s + d + (a + 256 * b) ≡ s + (a + 256 * b) + d = omega arith in
    rw e (sum_words-add n p (s + (a + 256 * b)) d r h)

-- Bytes of which each is below 256.
abbrev pub AreBytes : Bytes → Type 0
AreBytes = All (λ b. b < 256)

sum_words-le :
    (n : ℕ) (p : Bytes) (s r : ℕ) → AreBytes p → sum_words n p s ≡ some r → r ≤ s + 65535 * n
unfolding sum_words
sum_words-le zero p s r small h = ground arith
sum_words-le (suc zero) [] s r small h = absurd (ground arith)
sum_words-le (suc zero) (a ∷ p) s r small h = ground arith
sum_words-le (suc (suc n)) [] s r small h = absurd (ground arith)
sum_words-le (suc (suc n)) (a ∷ []) s r small h = absurd (ground arith)
sum_words-le (suc (suc n)) (a ∷ b ∷ p) s r small h =
    omega (arith, sum_words-le n p (s + (a + 256 * b)) r small.1.1 h)

-- Adding its complement folds a sum to all ones.
fold_sum-complement : (s : ℕ) → s < 2 ^ 32 → fold_sum (s + fold_sum s) ≡ 0
unfolding fold_sum
fold_sum-complement s h = omega arith

fold_sum-lt : (s : ℕ) → fold_sum s < 65536
unfolding fold_sum
fold_sum-lt s = omega arith

-- Zeros add nothing to a sum.
pub sum_words-zeros : (n m s : ℕ) → n ≤ m → sum_words n (replicate m 0) s ≡ some s
unfolding sum_words
sum_words-zeros zero m s h = refl
sum_words-zeros (suc zero) zero s h = absurd (omega arith)
sum_words-zeros (suc zero) (suc m) s h = ap some (omega arith)
sum_words-zeros (suc (suc n)) zero s h = absurd (omega arith)
sum_words-zeros (suc (suc n)) (suc zero) s h = absurd (omega arith)
sum_words-zeros (suc (suc n)) (suc (suc m)) s h =
    let e : s + (0 + 256 * 0) ≡ s = omega arith in rw e (sum_words-zeros n m s (omega arith))

-- The bytes of a packet whose checksum field, its second word, holds `c`.
abbrev pub with_checksum : ℕ → ℕ → ℕ → Bytes → Bytes
with_checksum a b c rest = a ∷ b ∷ c % 256 ∷ c / 256 ∷ rest

in_cksum-some :
    (p : Bytes) (n c : ℕ)
    → in_cksum p n ≡ some c
    → (s : ℕ) × (sum_words n p 0 ≡ some s) × (fold_sum s ≡ c)
unfolding in_cksum
in_cksum-some p n c h = elim (Option-cases (sum_words n p 0)) [
  | inl past ↦ absurd (ground arith)
  | inr (s, e) ↦ (s, e, ground arith)
]

-- The field adds its value to the sum.
sum_words-with_checksum :
    (a b n c s : ℕ) (rest : Bytes)
    → sum_words (suc (suc (suc (suc n)))) (with_checksum a b 0 rest) 0 ≡ some s
    → sum_words (suc (suc (suc (suc n)))) (with_checksum a b c rest) 0 ≡ some (s + c)
unfolding sum_words
sum_words-with_checksum a b n c s rest h =
    let e : 0 + (a + 256 * b) + (c % 256 + 256 * (c / 256))
        ≡ 0 + (a + 256 * b) + (0 % 256 + 256 * (0 / 256)) + c =
      omega arith in
    rw e (sum_words-add n rest (0 + (a + 256 * b) + (0 % 256 + 256 * (0 / 256))) c s h)

-- What `in_cksum` computes over a packet with a cleared checksum field, of up to 65537 bytes, odd or
-- even, is the value that makes the packet check: `in_cksum` over the same bytes with that value in
-- the field is 0.
pub in_cksum-checks :
    (a b n c : ℕ) (rest : Bytes)
    → AreBytes (a ∷ b ∷ rest)
    → n ≤ 65533
    → in_cksum (with_checksum a b 0 rest) (suc (suc (suc (suc n)))) ≡ some c
    → in_cksum (with_checksum a b c rest) (suc (suc (suc (suc n)))) ≡ some 0
unfolding in_cksum sum_words
in_cksum-checks a b n c rest small short h =
    let (s, sum, folded) = in_cksum-some (with_checksum a b 0 rest) (suc (suc (suc (suc n)))) c h in
    let bound : s < 2 ^ 32 = omega (
      arith,
      sum_words-le (suc (suc (suc (suc n)))) (with_checksum a b 0 rest) 0 s
          (small.0, (small.1.0, (omega arith, (omega arith, small.1.1)))) sum,
    ) in
    let again : fold_sum (s + c) ≡ 0 =
      ap (λ (x : ℕ). fold_sum (s + x)) (sym folded) ∙ fold_sum-complement s bound in
    rw (sum_words-with_checksum a b n c s rest sum) (ap some again)
