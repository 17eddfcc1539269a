-- ===== src/Threads/Served.antt =====
-- Which connection a thread of the threaded echo server serves.
use network_ex.Common.{
  ℕ, ◌≤◌, ◌≡◌, ◌≢◌, refl, ap, Option, none, some, true, false, Bool-cases, inl, inr, ◌==◌, arith,
}
use network_ex.Threads.Handoff.{
  Thread, absent, born, serving, lost, System, init, Step, fails, accepts, creates, copies, misses,
  Reach, start, later, IsCalm, ReachCalmly, calm_start, calm_later,
}

record Inv (s : System) : Type 0 where
  unborn : (j : ℕ) → s.created ≤ j → s.threads j ≡ absent
  own : (j fd : ℕ) → s.threads j ≡ serving fd → s.accepted j ≡ some fd
  fresh :
      (j : ℕ) → s.threads j ≡ born → (fd : ℕ) × (s.client_fd ≡ some fd) × (s.accepted j ≡ some fd)
  idle : (j : ℕ) → s.threads j ≡ born → s.has_new ≡ false
  new : s.has_new ≡ true → (fd : ℕ) × (s.client_fd ≡ some fd) × (s.accepted s.created ≡ some fd)
  kept : (j : ℕ) → s.threads j ≢ lost

init-Inv : Inv init
init-Inv = record {
  unborn = λ j h. refl;
  own = λ j fd h. absurd (ground arith);
  fresh = λ j h. absurd (ground arith);
  idle = λ j h. refl;
  new = λ h. absurd (ground arith);
  kept = λ j h. ground arith;
}

step-Inv : {s t : System} → Inv s → (st : Step s t) → IsCalm st → Inv t
step-Inv v (fails idle) calm = record {
  unborn = v.unborn;
  own = v.own;
  fresh = λ j h. absurd (calm j h);
  idle = v.idle;
  new = λ h. absurd (ground arith);
  kept = v.kept;
}
step-Inv {s} v (accepts fd idle) calm = record {
  unborn = v.unborn;
  own = λ j k h. elim (Bool-cases (s.created == j)) [
    | inl e ↦ absurd (ground (arith, v.unborn j))
    | inr e ↦ ground (arith, v.own j k)
  ];
  fresh = λ j h. absurd (calm j h);
  idle = λ j h. absurd (calm j h);
  new = λ h. (fd, refl, ground arith);
  kept = v.kept;
}
step-Inv {s} v (creates is_new) calm = record {
  unborn = λ j h. ground (arith, v.unborn j);
  own = λ j k h. elim (Bool-cases (s.created == j)) [
    | inl e ↦ absurd (ground arith)
    | inr e ↦ v.own j k (ground arith)
  ];
  fresh = λ j h. elim (Bool-cases (s.created == j)) [
    | inl e ↦ let (fd, here, given) = v.new is_new in (fd, here, ground (arith, given))
    | inr e ↦ absurd (ground (arith, v.idle j))
  ];
  idle = λ j h. refl;
  new = λ h. absurd (ground arith);
  kept = λ j h. ground (arith, v.kept j);
}
step-Inv {s} v (copies j {fd} is_born here) calm = record {
  unborn = λ i h. ground (arith, v.unborn i);
  own = λ i k h. elim (Bool-cases (j == i)) [
    | inl e ↦
        let (fd', here', given) = v.fresh j is_born in
        let same : j ≡ i = ground arith in ground (arith, given, here, here', ap s.accepted same)
    | inr e ↦ v.own i k (ground arith)
  ];
  fresh = λ i h. elim (Bool-cases (j == i)) [
    | inl e ↦ absurd (ground arith)
    | inr e ↦ v.fresh i (ground arith)
  ];
  idle = λ i h. v.idle j is_born;
  new = v.new;
  kept = λ i h. ground (arith, v.kept i);
}
step-Inv v (misses j is_born gone) calm =
    let (fd, here, given) = v.fresh j is_born in absurd (ground arith)

Reach-Inv : {s : System} → ReachCalmly s → Inv s
Reach-Inv calm_start = init-Inv
Reach-Inv (calm_later r st calm) = step-Inv (Reach-Inv r) st calm

-- What a thread has to do with its own connection: it serves it, or will find it in `client_fd`.
abbrev pub HasOwn : Thread → Option ℕ → Option ℕ → Type 0
HasOwn absent client_fd accepted = Unit {0}
HasOwn born client_fd accepted = (client_fd ≡ accepted) × (client_fd ≢ none)
HasOwn (serving fd) client_fd accepted = accepted ≡ some fd
HasOwn lost client_fd accepted = ⊥

Inv-HasOwn : {s : System} (j : ℕ) → Inv s → HasOwn (s.threads j) s.client_fd (s.accepted j)
Inv-HasOwn {s} j v = has_own (s.threads j) refl
  where
    has_own : (t : Thread) → s.threads j ≡ t → HasOwn t s.client_fd (s.accepted j)
    has_own absent h = tt
    has_own born h = let (fd, here, given) = v.fresh j h in (ground arith, λ gone. ground arith)
    has_own (serving fd) h = v.own j fd h
    has_own lost h = absurd (v.kept j h)

-- Where `main` comes to `accept` only when every thread has copied its descriptor: at every time each
-- thread that has copied serves the connection that `accept` gave for it, each one that has not will
-- find that connection in `client_fd`, and none has found -1.
pub calm_threads_serve :
    {s : System} (j : ℕ) → ReachCalmly s → HasOwn (s.threads j) s.client_fd (s.accepted j)
calm_threads_serve j r = Inv-HasOwn j (Reach-Inv r)

-- The connections `a` and `b` come one after the other, the first thread copies its descriptor after
-- the second `accept`, and both threads serve `b`: nobody serves `a`.
pub connection_unserved :
    (a b : ℕ)
    → (s : System) × Reach s
      × ((s.threads 0 ≡ serving b) × (s.threads 1 ≡ serving b))
      × (s.accepted 0 ≡ some a)
connection_unserved a b = (
  _,
  later
      (later
        (later (later (later (later start (accepts a refl)) (creates refl)) (accepts b refl))
          (creates refl))
        (copies 0 refl refl))
      (copies 1 refl refl),
  (refl, refl),
  refl,
)
