-- ===== src/Common/Words.antt =====
-- Machine integers as native numbers: an `int` in memory, and the byte-order functions of the C
-- library on the little-endian machine that the programs were built for.
use Prim.Native.Nat.{ℕ, ◌+◌, ◌*◌, ◌/◌, ◌%◌, ◌^◌, ◌<◌}
use mathlib.Core.Path.{◌≡◌}
use mathlib.Core.List.{[], ◌∷◌}
use native.Mathlib.Omega.{arith}
use network_ex.Common.Bytes.{Bytes}

-- The four bytes of a 32-bit word, in the order of memory.
abbrev pub word_bytes : ℕ → Bytes
word_bytes w = w % 256 ∷ w / 256 % 256 ∷ w / 65536 % 256 ∷ w / 16777216 % 256 ∷ []

-- The 32-bit word that starts an array.
abbrev pub bytes_word : Bytes → ℕ
bytes_word (a ∷ b ∷ c ∷ d ∷ rest) = a + b * 256 + c * 65536 + d * 16777216
bytes_word _ = 0

-- `htonl` and `ntohl` reverse the four bytes.
unfoldable pub htonl : ℕ → ℕ
htonl w = w % 256 * 16777216 + w / 256 % 256 * 65536 + w / 65536 % 256 * 256 + w / 16777216 % 256

unfoldable pub ntohl : ℕ → ℕ
unfolding htonl
ntohl w = htonl w

-- `htons` and `ntohs` take the low 16 bits of their argument and reverse the two bytes.
unfoldable pub htons : ℕ → ℕ
htons w = w % 256 * 256 + w / 256 % 256

unfoldable pub ntohs : ℕ → ℕ
unfolding htons
ntohs w = htons w

pub ntohl-htonl : (w : ℕ) → w < 2 ^ 32 → ntohl (htonl w) ≡ w
unfolding ntohl htonl
ntohl-htonl w h = omega arith

pub htonl-lt : (w : ℕ) → htonl w < 2 ^ 32
unfolding htonl
htonl-lt w = omega arith

pub ntohs-htons : (w : ℕ) → w < 2 ^ 16 → ntohs (htons w) ≡ w
unfolding ntohs htons
ntohs-htons w h = omega arith

pub bytes_word-word_bytes : (w : ℕ) → w < 2 ^ 32 → bytes_word (word_bytes w) ≡ w
bytes_word-word_bytes w h = omega arith
