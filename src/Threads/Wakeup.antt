-- ===== src/Threads/Wakeup.antt =====
-- Who waits in time is summed, and who comes late waits for ever.
use mathlib.Core.Path.{subst}
use network_ex.Common.{
  ℕ, ◌≡◌, ◌≢◌, sym, ap, ◌∙◌, inl, inr, true, Bool-cases, ◌==◌, if◌then◌else◌, arith,
}
use network_ex.Threads.Sum.{
  Worker, born, copied, waiting, woken, done, System, at, Step, create, copy, wait, wakes_alone,
  is_regular, broadcasts, work, Steps, here, further,
}

-- A thread that has neither been woken nor ended.
abbrev pub IsLate : Worker → Type 0
IsLate (woken idx) = ⊥
IsLate done = ⊥
IsLate _ = Unit {0}

abbrev Late : System → ℕ → Type 0
Late s j = (s.broadcast ≡ true) × IsLate (s.workers j)

at-IsLate :
    (workers : ℕ → Worker) (k j : ℕ) (w : Worker)
    → IsLate w
    → IsLate (workers j)
    → IsLate (at workers k w j)
at-IsLate workers k j w new old = elim (Bool-cases (k == j)) [
  | inl e ↦ subst (λ b. IsLate (if b then w else workers j)) (sym e) new
  | inr e ↦ subst (λ b. IsLate (if b then w else workers j)) (sym e) old
]

step-Late : {s t : System} (j : ℕ) (step : Step s t) → is_regular step ≡ true → Late s j → Late t j
step-Late {s} j (create room) r (sent, late) = (sent, at-IsLate s.workers s.created j born tt late)
step-Late {s} j (copy k is_born) r (sent, late) =
    (sent, at-IsLate s.workers k j (copied s.d_info_idx) tt late)
step-Late {s} j (wait k {idx} is_copied) r (sent, late) =
    (sent, at-IsLate s.workers k j (waiting idx) tt late)
step-Late j (wakes_alone k h) r (sent, late) = absurd (ground arith)
step-Late j (broadcasts all unsent) r (sent, late) = absurd (ground arith)
step-Late {s} j (work k {idx} is_woken) r (sent, late) = elim (Bool-cases (k == j)) [
  | inl e ↦
      let same : k ≡ j = ground arith in
      absurd (subst IsLate (ap s.workers (sym same) ∙ is_woken) late)
  | inr e ↦ (sent, subst (λ b. IsLate (if b then done else s.workers j)) (sym e) late)
]

steps-Late : {s t : System} (j : ℕ) → Steps s t → Late s j → Late t j
steps-Late j here late = late
steps-Late j (further r st regular) late = step-Late j st regular (steps-Late j r late)

-- Once the broadcast is made, a thread that is not woken by it never ends, whatever the threads do
-- and if no thread wakes up by itself: so `main` waits in `pthread_join` for ever.
pub missed_broadcast_hangs :
    {s t : System} (j : ℕ)
    → s.broadcast ≡ true
    → IsLate (s.workers j)
    → Steps s t
    → t.workers j ≢ done
missed_broadcast_hangs j sent late r e =
    let still = steps-Late j r (sent, late) in subst IsLate e still.1
