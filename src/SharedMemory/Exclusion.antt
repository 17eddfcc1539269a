-- ===== src/SharedMemory/Exclusion.antt =====
-- The semaphore keeps the processes apart, and no increment is lost.
use mathlib.Core.Path.{subst}
use network_ex.Common.{ℕ, ◌+◌, ◌%◌, ◌^◌, ◌≤◌, ◌<◌, ◌≡◌, refl, sym, true, arith}
use network_ex.SharedMemory.Semaphore.{
  Memory, Role, consumer, Pc, top, inside, loaded, stored, stopped, increment, Move, acquire,
  producer_fails, consumer_fails, load, store, release, System, Step, produce, consume, init, waits,
  writes, step_waits, step_writes, Reach, start, later, critical,
}

-- What a local variable says about the shared number.
abbrev pub IsFresh : ℕ → Pc → Type 0
IsFresh n (loaded v) = v ≡ increment n
IsFresh n _ = Unit {0}

pub record Inv (n k : ℕ) (s : System) : Type 0 where
  pub one : s.sem + critical s.producer_pc + critical s.consumer_pc ≡ 1
  pub counted : s.cal_num ≡ (n + k) % 2 ^ 32
  pub producer_fresh : IsFresh s.cal_num s.producer_pc
  pub consumer_fresh : IsFresh s.cal_num s.consumer_pc

Inv-init : (n : ℕ) → n < 2 ^ 32 → Inv n 0 (init n)
Inv-init n small = record {
  one = refl;
  counted = omega arith;
  producer_fresh = tt;
  consumer_fresh = tt;
}

-- A move of one process, with the other at `q`.
record Kept (n k : ℕ) (m : Memory) (p q : Pc) : Type 0 where
  one : m.sem + critical p + critical q ≡ 1
  counted : m.cal_num ≡ (n + k) % 2 ^ 32
  fresh : IsFresh m.cal_num p
  other_fresh : IsFresh m.cal_num q

outside-IsFresh : (n : ℕ) (q : Pc) → critical q ≡ 0 → IsFresh n q
outside-IsFresh n top h = tt
outside-IsFresh n inside h = tt
outside-IsFresh n (loaded v) h = absurd (omega arith)
outside-IsFresh n stored h = tt
outside-IsFresh n stopped h = tt

Move-Kept :
    {n k : ℕ} {m m' : Memory} {r : Role} {p p' q : Pc} (mv : Move m r p m' p')
    → waits mv ≡ true
    → Kept n k m p q
    → Kept n (k + writes mv) m' p' q
Move-Kept (acquire g) w h = record {
  one = omega arith;
  counted = omega arith;
  fresh = tt;
  other_fresh = h.other_fresh;
}
Move-Kept producer_fails w h = record {
  one = omega arith;
  counted = omega arith;
  fresh = tt;
  other_fresh = h.other_fresh;
}
Move-Kept consumer_fails w h = cc
Move-Kept load w h = record {
  one = omega arith;
  counted = omega arith;
  fresh = refl;
  other_fresh = h.other_fresh;
}
Move-Kept {n} {k} {m} {q = q} store w h = record {
  one = omega arith;
  counted = omega arith;
  fresh = tt;
  other_fresh = outside-IsFresh _ q (omega arith);
}
Move-Kept release w h = record {
  one = omega arith;
  counted = omega arith;
  fresh = tt;
  other_fresh = h.other_fresh;
}

Step-Inv :
    {n k : ℕ} {s t : System} (st : Step s t)
    → step_waits st ≡ true
    → Inv n k s
    → Inv n (k + step_writes st) t
Step-Inv {n} {k} {s} (produce mv) w inv =
    let kept = Move-Kept {n = n} {k = k} {q = s.consumer_pc} mv w (record {
      one = inv.one;
      counted = inv.counted;
      fresh = inv.producer_fresh;
      other_fresh = inv.consumer_fresh;
    }) in
    record {
      one = kept.one;
      counted = kept.counted;
      producer_fresh = kept.fresh;
      consumer_fresh = kept.other_fresh;
    }
Step-Inv {n} {k} {s} (consume mv) w inv =
    let kept = Move-Kept {n = n} {k = k} {q = s.producer_pc} mv w (record {
      one = omega (arith, inv.one);
      counted = inv.counted;
      fresh = inv.consumer_fresh;
      other_fresh = inv.producer_fresh;
    }) in
    record {
      one = omega (arith, kept.one);
      counted = kept.counted;
      producer_fresh = kept.other_fresh;
      consumer_fresh = kept.fresh;
    }

Reach-Inv : {n k : ℕ} {s : System} → n < 2 ^ 32 → Reach n k s → Inv n k s
Reach-Inv {n} small start = Inv-init n small
Reach-Inv small (later r st w) = Step-Inv st w (Reach-Inv small r)

-- While the consumer's `semop` does not fail, the producer and the consumer are never both between
-- their two calls of `semop`.
pub mutual_exclusion :
    {n k : ℕ} {s : System}
    → n < 2 ^ 32
    → Reach n k s
    → critical s.producer_pc + critical s.consumer_pc ≤ 1
mutual_exclusion small r = omega (arith, (Reach-Inv small r).one)

-- While the consumer's `semop` does not fail, no increment is lost: the shared number is its start
-- value and one for each write of either process, as an `int` wraps it.
pub no_lost_update :
    {n k : ℕ} {s : System} → n < 2 ^ 32 → Reach n k s → s.cal_num ≡ (n + k) % 2 ^ 32
no_lost_update small r = (Reach-Inv small r).counted

-- Where the consumer's `semop` fails, exclusion fails: wherever the producer is between its calls and
-- the consumer at its first one, a failing `semop` brings the consumer in too.
pub interrupted_consumer_enters :
    (s : System)
    → critical s.producer_pc ≡ 1
    → s.consumer_pc ≡ top
    → (t : System) × Step s t × (critical t.producer_pc + critical t.consumer_pc ≡ 2)
interrupted_consumer_enters s busy here = (
  record s { consumer_pc = inside },
  consume (subst (λ p. Move s.mem consumer p s.mem inside) (sym here) consumer_fails),
  omega (arith, busy),
)
