-- ===== src/SharedMemory/Reads.antt =====
-- What the consumer without a semaphore prints.
use mathlib.Core.Path.{subst}
use network_ex.Common.{
  ℕ, ◌+◌, ◌*◌, ◌%◌, ◌^◌, ◌≤◌, ◌<◌, ◌≡◌, refl, ap, ◌∙◌, some, List, [], ◌∷◌, map, arith,
}
use network_ex.SharedMemory.Unsynchronised.{
  Shared, plus_two, Access, load, store, print, stores_of, then_print, Accessed, at_first, and_then,
}

-- The pattern after a number of stores.
abbrev pub value : ℕ → ℕ → ℕ
value start stores = (start + 2 * stores) % 2 ^ 32

-- No number is greater than the one before it, nor the first than `n`.
abbrev pub Descends : ℕ → List ℕ → Type 0
Descends n [] = Unit {0}
Descends n (c ∷ cs) = (c ≤ n) × Descends c cs

Descends-suc : (n : ℕ) (cs : List ℕ) → Descends n cs → Descends (n + 1) cs
Descends-suc n [] h = tt
Descends-suc n (c ∷ cs) (le, h) = (omega arith, h)

-- What a number of stores, and the prints after some of them, make of a number that stood there first.
pub record IsCounted (start stores : ℕ) (prints : List ℕ) (s : Shared) : Type 0 where
  pub current : s.cal_num ≡ value start stores
  pub reads : s.printed ≡ map (value start) prints
  pub in_order : Descends stores prints

record IsLoaded (s : Shared) : Type 0 where
  held : (n : ℕ) → s.loaded ≡ some n → n ≡ s.cal_num

access-IsLoaded : {s t : Shared} → Access s t → IsLoaded s → IsLoaded t
access-IsLoaded (load e) h = record { held = λ n e. grind arith }
access-IsLoaded (store n e) h = record { held = λ k e. absurd (grind arith) }
access-IsLoaded print h = record { held = h.held }

plus_two-value : (start k : ℕ) → plus_two (value start k) ≡ value start (k + 1)
unfolding plus_two
plus_two-value start k = omega arith

access-IsCounted :
    {start stores : ℕ} {prints : List ℕ} {s t : Shared} (access : Access s t)
    → IsLoaded s
    → IsCounted start stores prints s
    → IsCounted start (stores + stores_of access) (then_print access stores prints) t
access-IsCounted {start} {stores} {prints} (load e) l c =
    let same : stores ≡ stores + 0 = omega arith in
    record {
      current = c.current ∙ ap (value start) same;
      reads = c.reads;
      in_order = subst (λ k. Descends k prints) same c.in_order;
    }
access-IsCounted {start} {stores} {prints} (store n e) l c = record {
  current = ap plus_two (l.held n e ∙ c.current) ∙ plus_two-value start stores;
  reads = c.reads;
  in_order = Descends-suc stores prints c.in_order;
}
access-IsCounted {start} {stores} {prints} {s} print l c =
    let same : stores ≡ stores + 0 = omega arith in
    record {
      current = c.current ∙ ap (value start) same;
      reads = ap (λ n. n ∷ s.printed) c.current ∙ ap (λ ns. value start stores ∷ ns) c.reads;
      in_order = (omega arith, c.in_order);
    }

counted :
    {start stores : ℕ} {prints : List ℕ} {s : Shared}
    → start < 2 ^ 32
    → Accessed start stores prints s
    → IsLoaded s × IsCounted start stores prints s
counted small at_first = (
  record { held = λ n e. absurd (grind arith) },
  record { current = omega arith; reads = refl; in_order = tt },
)
counted small (and_then before access) =
    let (l, c) = counted small before in (access-IsLoaded access l, access-IsCounted access l c)

-- One producer and one consumer without a semaphore, from an `int`, in any order of their single
-- accesses. No store is lost: after as many stores as were made, the shared number is the one at first
-- and two for each of them, as an `int` wraps. Each print gives the first number and two for each store
-- before it, and no print comes after fewer stores than a print before it.
pub reads_advance :
    {start stores : ℕ} {prints : List ℕ} {s : Shared}
    → start < 2 ^ 32
    → Accessed start stores prints s
    → IsCounted start stores prints s
reads_advance small reached = (counted small reached).1
