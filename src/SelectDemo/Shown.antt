-- ===== src/SelectDemo/Shown.antt =====
-- What `ReadLine` shows of the files.
use network_ex.Common.{
  ℕ, zero, suc, ◌+◌, ◌<◌, ◌≡◌, Option, some, List, [], ◌∷◌, ◌++◌, Bool, true, false, concat, map,
  length, ◌⊎◌,
}
use network_ex.Common.Bytes.{Bytes}
use network_ex.SelectDemo.Files.{mark, Round}

-- Parts of 1023 bytes, and one that is shorter behind them.
abbrev pub CutUp : List Bytes → Type 0
CutUp [] = ⊥
CutUp (part ∷ []) = length part < 1023
CutUp (part ∷ next ∷ parts) = (length part ≡ 1023) × CutUp (next ∷ parts)

-- The lines show a file with its number, whole and in order.
pub record IsShown (i : ℕ) (content : Bytes) (lines : List Bytes) : Type 0 where
  pub parts : List Bytes
  pub marked : lines ≡ map (λ part. mark i ++ part) parts
  pub whole : concat parts ≡ content
  pub cut : CutUp parts

Shows : ℕ → Bytes → Option (List Bytes) → Type 0
Shows i content o = (lines : List Bytes) × (o ≡ some lines) × IsShown i content lines

-- The lines of the ready ones among `n` descriptors from `i` on, one after the other.
abbrev pub AllShown : (ℕ → Bool) → (ℕ → Bytes) → ℕ → ℕ → List Bytes → Type 0
AllShown ready content zero i lines = lines ≡ []
AllShown ready content (suc n) i lines =
    ((ready i ≡ false) × AllShown ready content n (i + 1) lines)
    ⊎ ((ready i ≡ true)
        × (here : List Bytes) × (behind : List Bytes) × (lines ≡ here ++ behind)
        × IsShown i (content i) here
        × AllShown ready content n (i + 1) behind)

-- The rounds, each with lines of its own.
abbrev pub RoundsShown : ℕ → List Round → List Bytes → Type 0
RoundsShown n [] lines = lines ≡ []
RoundsShown n (r ∷ rounds) lines =
    (here : List Bytes) × (behind : List Bytes) × (lines ≡ here ++ behind)
    × AllShown r.ready r.content n 0 here
    × RoundsShown n rounds behind
