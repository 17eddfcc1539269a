-- ===== src/Threads/Total.antt =====
-- What `main` prints where every thread waits in time.
use mathlib.Core.Path.{subst}
use network_ex.Common.{
  ℕ, zero, suc, ◌+◌, ◌%◌, ◌^◌, ◌≤◌, ◌<◌, ◌≡◌, ◌≢◌, refl, sym, ap, ◌∙◌, ◌⊎◌, inl, inr, true, false,
  Bool-cases, ltb, ◌==◌, if◌then◌else◌, arith,
}
use network_ex.Threads.Sum.{
  array_size, thread_num, sum_loop, part_sum, join_loop, fill, absent, born, copied, waiting, woken,
  done, System, wake, at, Step, create, copy, wait, wakes_alone, is_regular, broadcasts, work,
  Steps, here, further, printed,
}

-- All four threads are in `pthread_cond_wait`, each with its own index, and `main` is before its loop.
pub record IsReady (s : System) : Type 0 where
  pub all_created : s.created ≡ thread_num
  pub unsent : s.broadcast ≡ false
  pub waits : (j : ℕ) → j < thread_num → s.workers j ≡ waiting j
  pub no_more : (j : ℕ) → thread_num ≤ j → s.workers j ≡ absent

-- What the parts come to.
abbrev parts : (ℕ → ℕ) → ℕ → ℕ
parts array idx = part_sum (fill array_size 0 array) idx

-- What is known of the thread `j`: before the broadcast it waits, and after it its part is stored
-- when it is done.
abbrev Known : (ℕ → ℕ) → System → ℕ → Type 0
Known array s j =
    ((s.broadcast ≡ false) × (s.workers j ≡ waiting j))
    ⊎ ((s.broadcast ≡ true)
        × ((s.workers j ≡ woken j) ⊎ ((s.workers j ≡ done) × (s.sum_array j ≡ parts array j))))

record Inv (array : ℕ → ℕ) (s : System) : Type 0 where
  all_created : s.created ≡ thread_num
  stored :
      ((s.broadcast ≡ false) × (s.array ≡ array))
      ⊎ ((s.broadcast ≡ true) × (s.array ≡ fill array_size 0 array))
  known : (j : ℕ) → j < thread_num → Known array s j
  no_more : (j : ℕ) → thread_num ≤ j → s.workers j ≡ absent

stage :
    {array : ℕ → ℕ} {s : System} (j : ℕ)
    → Inv array s
    → (s.workers j ≡ absent) ⊎ ((j < thread_num) × Known array s j)
stage j v = elim (Bool-cases (ltb j thread_num)) [
  | inl e ↦ let small : j < thread_num = ground arith in inr (small, v.known j small)
  | inr e ↦ inl (v.no_more j (ground arith))
]

-- No thread is left that has still to wait.
none_before :
    {array : ℕ → ℕ} {s : System} (j : ℕ)
    → Inv array s
    → (s.workers j ≢ born) × ((idx : ℕ) → s.workers j ≢ copied idx)
none_before j v = elim (stage j v) [
  | inl gone ↦ (λ e. ground arith, λ idx e. ground arith)
  | inr (small, inl (unsent, at_wait)) ↦ (λ e. ground arith, λ idx e. ground arith)
  | inr (small, inr (sent, inl up)) ↦ (λ e. ground arith, λ idx e. ground arith)
  | inr (small, inr (sent, inr (ended, kept))) ↦ (λ e. ground arith, λ idx e. ground arith)
]

-- A woken thread has its own index.
woken_own :
    {array : ℕ → ℕ} {s : System} (j idx : ℕ)
    → Inv array s
    → s.workers j ≡ woken idx
    → (s.broadcast ≡ true) × (j < thread_num) × (idx ≡ j)
woken_own j idx v e = elim (stage j v) [
  | inl gone ↦ absurd (ground arith)
  | inr (small, inl (unsent, at_wait)) ↦ absurd (ground arith)
  | inr (small, inr (sent, inl up)) ↦ (sent, small, ground arith)
  | inr (small, inr (sent, inr (ended, kept))) ↦ absurd (ground arith)
]

broadcasts-Known :
    (array : ℕ → ℕ) (s : System) (j : ℕ)
    → s.broadcast ≡ false
    → Known array s j
    → wake (s.workers j) ≡ woken j
broadcasts-Known array s j unsent (inl (u, at_wait)) = ap wake at_wait
broadcasts-Known array s j unsent (inr (sent, h)) = absurd (ground arith)

stored_filled :
    {array : ℕ → ℕ} {s : System}
    → Inv array s
    → s.broadcast ≡ true
    → s.array ≡ fill array_size 0 array
stored_filled v sent = elim v.stored [
  | inl (unsent, a) ↦ absurd (ground arith)
  | inr (yes_sent, a) ↦ a
]

stored_before : {array : ℕ → ℕ} {s : System} → Inv array s → s.broadcast ≡ false → s.array ≡ array
stored_before v unsent = elim v.stored [ inl (u, a) ↦ a | inr (sent, a) ↦ absurd (ground arith) ]

work-Known :
    {array : ℕ → ℕ} {s : System} (j i : ℕ)
    → Inv array s
    → s.workers j ≡ woken j
    → s.broadcast ≡ true
    → i < thread_num
    → Known array
        (record s {
          sum_array = λ i. if j == i then part_sum s.array j else s.sum_array i;
          workers = at s.workers j done;
        })
        i
work-Known {array} {s} j i v is_woken sent small =
    let full : part_sum s.array j ≡ parts array j = ap (λ a. part_sum a j) (stored_filled v sent) in
    elim (Bool-cases (j == i)) [
      | inl e ↦
          let same : j ≡ i = ground arith in
          inr (sent, inr (ground arith, ground (arith, ap (parts array) same)))
      | inr e ↦ elim (v.known i small) [
        | inl (unsent, at_wait) ↦ absurd (ground arith)
        | inr (yes_sent, inl up) ↦ inr (sent, inl (ground arith))
        | inr (yes_sent, inr (ended, kept)) ↦ inr (sent, inr (ground arith, ground arith))
      ]
    ]

step-Inv :
    {array : ℕ → ℕ} {s t : System} (step : Step s t)
    → is_regular step ≡ true
    → Inv array s
    → Inv array t
step-Inv (create room) r v = absurd (omega (arith, v.all_created))
step-Inv (copy j is_born) r v = absurd ((none_before j v).0 is_born)
step-Inv (wait j {idx} is_copied) r v = absurd ((none_before j v).1 idx is_copied)
step-Inv (wakes_alone j h) r v = absurd (ground arith)
step-Inv {array} {s} (broadcasts all unsent) r v = record {
  all_created = all;
  stored = inr (refl, ap (fill array_size 0) (stored_before v unsent));
  known = λ j small. inr (refl, inl (broadcasts-Known array s j unsent (v.known j small)));
  no_more = λ j large. ap wake (v.no_more j large);
}
step-Inv {array} {s} (work j {idx} is_woken) r v =
    let (sent, small, own) = woken_own j idx v is_woken in
    subst
      (λ k. Inv array (record s {
        sum_array = λ i. if k == i then part_sum s.array k else s.sum_array i;
        workers = at s.workers j done;
      }))
      (sym own)
      (record {
        all_created = v.all_created;
        stored = v.stored;
        known = λ i i_small. work-Known j i v (is_woken ∙ ap woken own) sent i_small;
        no_more = λ i large. ground (arith, v.no_more i);
      })

steps-Inv : {array : ℕ → ℕ} {s t : System} → Inv array s → Steps s t → Inv array t
steps-Inv v here = v
steps-Inv v (further r st regular) = step-Inv st regular (steps-Inv v r)

ready-Inv : {s : System} → IsReady s → Inv s.array s
ready-Inv r = record {
  all_created = r.all_created;
  stored = inl (r.unsent, refl);
  known = λ j small. inl (r.unsent, r.waits j small);
  no_more = r.no_more;
}

done-part :
    {array : ℕ → ℕ} {s : System} (j : ℕ)
    → Inv array s
    → s.workers j ≡ done
    → s.sum_array j ≡ parts array j
done-part j v e = elim (stage j v) [
  | inl gone ↦ absurd (ground arith)
  | inr (small, inl (unsent, at_wait)) ↦ absurd (ground arith)
  | inr (small, inr (sent, inl up)) ↦ absurd (ground arith)
  | inr (small, inr (sent, inr (ended, kept))) ↦ kept
]

join_loop-ext :
    (f g : ℕ → ℕ) (n i sum : ℕ)
    → ((j : ℕ) → j < i + n → f j ≡ g j)
    → join_loop f n i sum ≡ join_loop g n i sum
unfolding join_loop
join_loop-ext f g zero i sum h = refl
join_loop-ext f g (suc n) i sum h =
    join_loop-ext f g n (i + 1) ((sum + f i) % 2 ^ 32) (λ j small. h j (omega arith))
    ∙ ap (λ k. join_loop g n (i + 1) ((sum + k) % 2 ^ 32)) (h i (omega arith))

total_of_parts : (array : ℕ → ℕ) → join_loop (parts array) thread_num 0 0 ≡ 4950
unfolding join_loop part_sum sum_loop fill
total_of_parts array = refl

-- Let all four threads be created and wait, each with its own index, before `main` fills the array.
-- Whatever the array holds, and in whatever order the threads work after that, if no thread wakes up by
-- itself, then once all four have ended `main` prints the sum of the numbers from 0 to 99.
pub waiters_sum :
    {s t : System}
    → IsReady s
    → Steps s t
    → ((j : ℕ) → j < thread_num → t.workers j ≡ done)
    → printed t ≡ 4950
waiters_sum {s} {t} ready r all_done =
    let v = steps-Inv (ready-Inv ready) r in
    join_loop-ext t.sum_array (parts s.array) thread_num 0 0
      (λ j small. done-part j v (all_done j small))
    ∙ total_of_parts s.array
