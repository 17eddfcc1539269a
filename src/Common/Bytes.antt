-- ===== src/Common/Bytes.antt =====
-- C strings and byte buffers: what `memset`, `read`, `strlen` and `%s` do to an array of `char`.
use Prim.Native.Char.{code}
use network_ex.Common.Tests.{◌==◌, if◌then◌else◌}
use network_ex.Common.Lists.{length, replicate, All}
use Prim.Native.Nat.{ℕ, suc, ◌-◌, ◌<◌}
use Prim.Native.String.{String}
use mathlib.Core.Path.{◌≡◌, refl}
use mathlib.Core.Logic.{◌≢◌}
use mathlib.Core.Bool.{Bool, true, false, ◌&&◌}
use mathlib.Core.Option
use mathlib.Core.Option.{Option, none, some}
use mathlib.Core.List.{List, [], ◌∷◌, ◌++◌}
use native.Mathlib.Omega.{arith}

abbrev pub Bytes : Type 0
Bytes = List ℕ

-- The bytes of a text literal.
abbrev pub codes : String → Bytes
codes String.[] = []
codes (String.◌∷◌ c s) = code c ∷ codes s

-- `memset(buf, 0, size)` and then a `read` that stores `bs` at the start of the array.
abbrev pub filled : ℕ → Bytes → Bytes
filled size bs = bs ++ replicate (size - length bs) 0

-- The C string that starts an array: the bytes before the first NUL. Without a NUL in the array
-- `strlen` runs off its end, which is undefined: `none`.
unfoldable pub c_string : Bytes → Option Bytes
c_string [] = none
c_string (b ∷ bs) = if b == 0 then some [] else Option.map (λ s. b ∷ s) (c_string bs)

-- No byte is NUL.
abbrev pub NulFree : Bytes → Type 0
NulFree bs = All (λ b. b ≢ 0) bs

-- Equality of C strings, `strcmp(s, t) == 0`.
abbrev pub bytes_eq : Bytes → Bytes → Bool
bytes_eq [] [] = true
bytes_eq [] (c ∷ t) = false
bytes_eq (b ∷ s) [] = false
bytes_eq (b ∷ s) (c ∷ t) = b == c && bytes_eq s t

pub bytes_eq_refl : (s : Bytes) → bytes_eq s s ≡ true
bytes_eq_refl [] = refl
bytes_eq_refl (b ∷ s) = ground (arith, bytes_eq_refl s)

pub bytes_eq-eq : (s t : Bytes) → bytes_eq s t ≡ true → s ≡ t
bytes_eq-eq [] [] h = refl
bytes_eq-eq [] (c ∷ t) h = ground arith
bytes_eq-eq (b ∷ s) [] h = ground arith
bytes_eq-eq (b ∷ s) (c ∷ t) h = ground (arith, bytes_eq-eq s t)

-- A string followed by its NUL is read back.
pub c_string-append : (s rest : Bytes) → NulFree s → c_string (s ++ 0 ∷ rest) ≡ some s
unfolding c_string
c_string-append [] rest h = refl
c_string-append (b ∷ s) rest h = ground (arith, c_string-append s rest)

pub c_string-none : (s : Bytes) → NulFree s → c_string s ≡ none
unfolding c_string
c_string-none [] h = refl
c_string-none (b ∷ s) h = ground (arith, c_string-none s)

-- Text that leaves room for a NUL is read back from its buffer.
pub c_string-filled :
    (size : ℕ) (s : Bytes) → NulFree s → length s < size → c_string (filled size s) ≡ some s
c_string-filled size s h room =
    let e : size - length s ≡ suc (size - length s - 1) = omega arith in
    rw e (c_string-append s (replicate (size - length s - 1) 0) h)

pub c_string-NulFree : (a s : Bytes) → c_string a ≡ some s → NulFree s
unfolding c_string
c_string-NulFree [] s h = ground arith
c_string-NulFree (b ∷ bs) [] h = tt
c_string-NulFree (b ∷ bs) (c ∷ t) h = ground (arith, c_string-NulFree bs t)

pub c_string-length : (a s : Bytes) → c_string a ≡ some s → length s < length a
unfolding c_string
c_string-length [] s h = ground arith
c_string-length (b ∷ bs) [] h = omega arith
c_string-length (b ∷ bs) (c ∷ t) h = ground (arith, c_string-length bs t)
