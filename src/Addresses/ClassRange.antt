-- ===== src/Addresses/ClassRange.antt =====
-- The classes as ranges of addresses.
use Prim.Native.Nat.{bit_and, bit_and-bitwise, digits}
use network_ex.Common.{
  ℕ, zero, suc, ◌+◌, ◌-◌, ◌*◌, ◌/◌, ◌%◌, ◌^◌, ◌≤◌, ◌<◌, ◌≡◌, ◌≢◌, refl, sym, ap, ◌∙◌, [], Bool,
  true, false, ◌==◌, ltb, ◌&&◌, not, min, if◌then◌else◌, arith, get_or, Bool-cases, inl, inr,
}
use network_ex.Common.Bytes.{Bytes, codes}
use network_ex.Common.Words.{htonl, ntohl, htonl-lt}
use network_ex.Addresses.Class.{class_mask, mask, class_name, class_loop, class_of, check_class}

-- The binary digits of a conjunction, with room for `n` of them.
abbrev conjunction : ℕ → ℕ → ℕ → ℕ
conjunction n a b = digits (λ b. zero) min n a b

-- More room than the digits of `a` changes nothing.
room_enough : (n k a b : ℕ) → a ≤ n → a ≤ k → conjunction n a b ≡ conjunction k a b
room_enough zero zero a b h g = refl
room_enough zero (suc k) zero b h g = refl
room_enough zero (suc k) (suc a) b h g = absurd (omega arith)
room_enough (suc n) zero zero b h g = refl
room_enough (suc n) zero (suc a) b h g = absurd (omega arith)
room_enough (suc n) (suc k) zero b h g = refl
room_enough (suc n) (suc k) (suc a) b h g =
    let halved = room_enough n k (suc a / 2) (b / 2) (omega arith) (omega arith) in
    ap (λ high. high * 2 + min (suc a % 2) (b % 2)) halved

bit_and_halves :
    (c b : ℕ) → bit_and (suc c) b ≡ bit_and (suc c / 2) (b / 2) * 2 + min (suc c % 2) (b % 2)
bit_and_halves c b =
    bit_and-bitwise (suc c) b
    ∙ ap (λ high. high * 2 + min (suc c % 2) (b % 2))
        (room_enough c (suc c / 2) (suc c / 2) (b / 2) (omega arith) (omega arith)
          ∙ sym (bit_and-bitwise (suc c / 2) (b / 2)))

-- An even mask: the lowest digit is 0.
bit_and-even : (a b : ℕ) → bit_and (2 * suc a) b ≡ 2 * bit_and (suc a) (b / 2)
bit_and-even a b =
    let twice : suc (a + suc a) ≡ 2 * suc a = omega arith in
    let half : suc (a + suc a) / 2 ≡ suc a = omega arith in
    let low : suc (a + suc a) % 2 ≡ 0 = omega arith in
    let halves = bit_and_halves (a + suc a) b in
    let mine : bit_and (suc (a + suc a) / 2) (b / 2) ≡ bit_and (suc a) (b / 2) =
      ap (λ m. bit_and m (b / 2)) half in
    ap (λ m. bit_and m b) (sym twice) ∙ omega (arith, halves, mine, low)

doubled : ℕ → ℕ → ℕ
doubled zero m = m
doubled (suc k) m = 2 * doubled k m

halved : ℕ → ℕ → ℕ
halved zero b = b
halved (suc k) b = halved k (b / 2)

-- A mask with `k` zeros behind its digits `m` looks at the digits of `b` above the lowest `k`.
bit_and-doubled :
    (k m b : ℕ)
    → (c : ℕ) → doubled k m ≡ suc c
    → bit_and (doubled k m) b ≡ doubled k (bit_and m (halved k b))
unfolding doubled halved
bit_and-doubled zero m b c h = refl
bit_and-doubled (suc k) m b c h =
    let e : doubled k m ≡ suc (doubled k m - 1) = omega (arith, h) in
    ap (λ d. bit_and (2 * d) b) e
    ∙ bit_and-even (doubled k m - 1) b
    ∙ ap (λ d. 2 * bit_and d (b / 2)) (sym e)
    ∙ ap (λ d. 2 * d) (bit_and-doubled k m (b / 2) (doubled k m - 1) e)

doubled_injective : (k m n : ℕ) → doubled k m ≡ doubled k n → m ≡ n
unfolding doubled
doubled_injective zero m n h = h
doubled_injective (suc k) m n h = doubled_injective k m n (omega (arith, h))

halved-lt : (k v b : ℕ) → b < doubled k v → halved k b < v
unfolding doubled halved
halved-lt zero v b h = h
halved-lt (suc k) v b h = halved-lt k v (b / 2) (omega (arith, h))

le-halved : (k v b : ℕ) → doubled k v ≤ b → v ≤ halved k b
unfolding doubled halved
le-halved zero v b h = h
le-halved (suc k) v b h = le-halved k v (b / 2) (omega (arith, h))

below : ℕ → (ℕ → Bool) → Bool
below zero p = true
below (suc n) p = p n && below n p

below-true : (n x : ℕ) (p : ℕ → Bool) → below n p ≡ true → x < n → p x ≡ true
unfolding below
below-true zero x p h g = absurd (omega arith)
below-true (suc n) x p h g = ground (arith, below-true n x p)

-- The five masks on the highest four digits.
same : Bool → Bool → Bool
same true c = c
same false c = not c

nibble_ok : ℕ → Bool
nibble_ok h =
    same (bit_and 15 h == 15) (not (ltb h 15))
    && (same (bit_and 14 h == 14) (not (ltb h 14))
        && (same (bit_and 12 h == 12) (not (ltb h 12)) && same (bit_and 8 h == 8) (not (ltb h 8))))

nibbles : below 16 nibble_ok ≡ true
unfolding below nibble_ok same
nibbles = refl

-- A test of the loop, if the mask works on the highest digits.
mask_test :
    (k m b c : ℕ)
    → doubled k m ≡ suc c
    → ((bit_and m (halved k b) == m) ≡ not (ltb (halved k b) m))
    → (bit_and (doubled k m) b == doubled k m) ≡ not (ltb b (doubled k m))
mask_test k m b c some_mask high = elim (Bool-cases (ltb b (doubled k m))) [
  | inl small ↦
      let h : halved k b < m = halved-lt k m b (ground arith) in
      let differs : bit_and m (halved k b) ≢ m = ground arith in
      let apart : bit_and (doubled k m) b ≢ doubled k m = λ e. differs (
        doubled_injective k (bit_and m (halved k b)) m
          (sym (bit_and-doubled k m b c some_mask) ∙ e)) in
      ground arith
  | inr large ↦
      let h : m ≤ halved k b = le-halved k m b (ground arith) in
      let is_same : bit_and m (halved k b) ≡ m = ground arith in
      let together : bit_and (doubled k m) b ≡ doubled k m =
        bit_and-doubled k m b c some_mask ∙ ap (doubled k) is_same in
      ground arith
]

-- The class by the range of the address: the names of check_class.
unfoldable pub class_by_range : ℕ → Bytes
class_by_range haddr =
    if ltb haddr (2 ^ 31)
    then codes "A class"
    else if ltb haddr (3 * 2 ^ 30)
    then codes "B class"
    else if ltb haddr (7 * 2 ^ 29)
    then codes "C class"
    else if ltb haddr (15 * 2 ^ 28)
    then codes "D class"
    else codes "E class"

parts :
    (h : ℕ)
    → nibble_ok h ≡ true
    → ((bit_and 15 h == 15) ≡ not (ltb h 15))
      × ((bit_and 14 h == 14) ≡ not (ltb h 14))
      × ((bit_and 12 h == 12) ≡ not (ltb h 12))
      × ((bit_and 8 h == 8) ≡ not (ltb h 8))
unfolding nibble_ok same
parts h ok = (ground arith, ground arith, ground arith, ground arith)

-- The tests of the loop as bounds.
record Tests (b : ℕ) : Type 0 where
  is_e : (bit_and (15 * 2 ^ 28) b == 15 * 2 ^ 28) ≡ not (ltb b (15 * 2 ^ 28))
  is_d : (bit_and (14 * 2 ^ 28) b == 14 * 2 ^ 28) ≡ not (ltb b (14 * 2 ^ 28))
  is_c : (bit_and (12 * 2 ^ 28) b == 12 * 2 ^ 28) ≡ not (ltb b (12 * 2 ^ 28))
  is_b : (bit_and (8 * 2 ^ 28) b == 8 * 2 ^ 28) ≡ not (ltb b (8 * 2 ^ 28))
  is_a : bit_and 0 b ≡ 0

range-Tests : (b : ℕ) → b < 2 ^ 32 → Tests b
unfolding doubled
range-Tests b small =
    let h : ℕ = halved 28 b in
    let low : h < 16 = halved-lt 28 16 b small in
    let ok : nibble_ok h ≡ true = below-true 16 h nibble_ok nibbles low in
    record {
      is_e = mask_test 28 15 b _ refl (parts h ok).0;
      is_d = mask_test 28 14 b _ refl (parts h ok).1;
      is_c = mask_test 28 12 b _ refl (parts h ok).2;
      is_b = mask_test 28 8 b _ refl (parts h ok).3;
      is_a = bit_and-bitwise 0 b;
    }

class_loop-range : (b : ℕ) → b < 2 ^ 32 → get_or class_name (class_loop 5 0 b) [] ≡ class_by_range b
unfolding class_loop mask class_mask htonl class_by_range
class_loop-range b small =
    let t = range-Tests b small in ground (arith, t.is_e, t.is_d, t.is_c, t.is_b, t.is_a)

ntohl-lt : (w : ℕ) → ntohl w < 2 ^ 32
unfolding ntohl
ntohl-lt w = htonl-lt w

-- Every address but 0.0.0.0 and 255.255.255.255 is named by its range: class A below 128.0.0.0, and
-- then class B below 192.0.0.0, class C below 224.0.0.0, class D below 240.0.0.0 and class E.
pub check_class_lem :
    (laddr : ℕ)
    → laddr ≢ 0
    → laddr ≢ 2 ^ 32 - 1
    → check_class laddr ≡ class_of (class_by_range (ntohl laddr))
unfolding check_class
check_class_lem laddr some_address not_none =
    ground (arith, class_loop-range (ntohl laddr) (ntohl-lt laddr))
