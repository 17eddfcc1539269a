-- ===== src/Threads/Refinement.antt =====
-- The threads under the mutex as one counter that moves in single steps.
use mathlib.Core.Path.{subst}
use network_ex.Common.{
  ℕ, ◌≡◌, ◌≢◌, refl, sym, inl, inr, some, Bool-cases, ◌==◌, if◌then◌else◌, arith,
}
use network_ex.Threads.Mutex.{
  Pc, top, locked, loaded, stored, Shared, increment, Move, lock, load, store, unlock, System, at,
  Step, moves, init, Reach, start, later, IsInside,
}

-- The specification: a counter that is left as it is, or increased by 1 at once.
pub data Counts (n : ℕ) : ℕ → Type 0 where
  rests : Counts n n
  counts : Counts n (increment n)

-- What a thread that has the count in its local variable knows.
abbrev pub IsFresh : ℕ → Pc → Type 0
IsFresh n (loaded v) = v ≡ increment n
IsFresh n _ = Unit {0}

pub record Inv (s : System) : Type 0 where
  pub owned : (i : ℕ) → IsInside (s.pcs i) → s.shared.owner ≡ some i
  pub fresh : (i : ℕ) → IsFresh s.shared.count (s.pcs i)

init-Inv : (n : ℕ) → Inv (init n)
init-Inv n = record { owned = λ i h. absurd h; fresh = λ i. tt }

-- Who is outside knows nothing.
outside-IsFresh : (n : ℕ) (p : Pc) → (IsInside p → ⊥) → IsFresh n p
outside-IsFresh n top h = tt
outside-IsFresh n locked h = tt
outside-IsFresh n (loaded v) h = absurd (h tt)
outside-IsFresh n stored h = tt

-- What a step leaves for the thread that makes it.
mover :
    {i : ℕ} {m m' : Shared} {p p' : Pc}
    → Move i m p m' p'
    → (IsInside p → m.owner ≡ some i)
    → (IsInside p' → m'.owner ≡ some i) × IsFresh m'.count p'
mover (lock free) own = (λ h. refl, tt)
mover load own = (λ h. own tt, refl)
mover store own = (λ h. own tt, tt)
mover unlock own = (λ h. absurd h, tt)

-- What it leaves for another.
other :
    {i : ℕ} {m m' : Shared} {p p' : Pc} (j : ℕ) (q : Pc)
    → Move i m p m' p'
    → i ≢ j
    → (IsInside p → m.owner ≡ some i)
    → (IsInside q → m.owner ≡ some j)
    → IsFresh m.count q
    → (IsInside q → m'.owner ≡ some j) × IsFresh m'.count q
other j q (lock free) apart own q_own q_fresh =
    (λ h. let held = q_own h in absurd (ground arith), q_fresh)
other j q load apart own q_own q_fresh = (q_own, q_fresh)
other {i} {m} j q store apart own q_own q_fresh =
    let out : IsInside q → ⊥ = λ h. let mine = own tt in let yours = q_own h in ground arith in
    (λ h. absurd (out h), outside-IsFresh _ q out)
other {i} {m} j q unlock apart own q_own q_fresh =
    let out : IsInside q → ⊥ = λ h. let mine = own tt in let yours = q_own h in ground arith in
    (λ h. absurd (out h), q_fresh)

step-Inv : {s t : System} → Inv s → Step s t → Inv t
step-Inv {s} v (moves i {m} {p} small mv) =
    let after : (j : ℕ)
        → (IsInside (at s.pcs i p j) → m.owner ≡ some j) × IsFresh m.count (at s.pcs i p j) =
      λ j. elim (Bool-cases (i == j)) [
        | inl e ↦
            let ij : i ≡ j = ground arith in
            let mine : (IsInside p → m.owner ≡ some j) × IsFresh m.count p =
              subst (λ k. (IsInside p → m.owner ≡ some k) × IsFresh m.count p) ij
                (mover mv (v.owned i)) in
            subst
              (λ b.
                (IsInside (if b then p else s.pcs j) → m.owner ≡ some j)
                × IsFresh m.count (if b then p else s.pcs j))
              (sym e) mine
        | inr e ↦
            subst
              (λ b.
                (IsInside (if b then p else s.pcs j) → m.owner ≡ some j)
                × IsFresh m.count (if b then p else s.pcs j))
              (sym e) (other j (s.pcs j) mv (ground arith) (v.owned i) (v.owned j) (v.fresh j))
      ] in
    record { owned = λ j. (after j).0; fresh = λ j. (after j).1 }

Reach-Inv : {n : ℕ} {s : System} → Reach n s → Inv s
Reach-Inv {n} start = init-Inv n
Reach-Inv (later r st) = step-Inv (Reach-Inv r) st

move-Counts :
    {i : ℕ} {m m' : Shared} {p p' : Pc}
    → Move i m p m' p'
    → IsFresh m.count p
    → Counts m.count m'.count
move-Counts (lock free) fresh = rests
move-Counts load fresh = rests
move-Counts {m = m} (store {v}) fresh = subst (Counts m.count) (sym fresh) counts
move-Counts unlock fresh = rests

-- From any start and in any order of the threads: at most one thread is between its two calls on the
-- mutex, and every step, from wherever the program has come, leaves the shared count as it is or
-- increases it by 1, as an `int` wraps: the program refines a counter whose increments cannot be
-- interrupted.
pub mutex_refines :
    {n : ℕ} {s t : System}
    → Reach n s
    → Step s t
    → ((i j : ℕ) → IsInside (s.pcs i) → IsInside (s.pcs j) → i ≡ j)
      × Counts s.shared.count t.shared.count
mutex_refines {n} {s} r (moves i small mv) =
    let v = Reach-Inv r in
    (
      λ a b in_a in_b. let one = v.owned a in_a in let two = v.owned b in_b in ground arith,
      move-Counts mv (v.fresh i),
    )
