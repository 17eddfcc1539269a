-- ===== src/Threads/Unlocked.antt =====
-- 14_Linux_Mulit_thread/count_thread/main.c: the same threads without a mutex.
use network_ex.Common.{ℕ, ◌+◌, ◌<◌, ◌≡◌, refl, ◌==◌, if◌then◌else◌, arith}
use network_ex.Threads.Mutex.{max_thread, increment}

-- Where a thread stands in `*count = *count+1`.
pub data Pc : Type 0 where
  top : Pc  -- before `*count` is read
  loaded : (value : ℕ) → Pc  -- before it is written

pub record System : Type 0 where
  pub count : ℕ
  pub pcs : ℕ → Pc

abbrev pub at : (ℕ → Pc) → ℕ → Pc → ℕ → Pc
at pcs i p j = if i == j then p else pcs j

-- A step of one of the threads.
pub data Step (s : System) : System → Type 0 where
  load :
      (i : ℕ)
      → i < max_thread
      → s.pcs i ≡ top
      → Step s (record s { pcs = at s.pcs i (loaded (increment s.count)) })
  store :
      (i : ℕ) {v : ℕ}
      → i < max_thread
      → s.pcs i ≡ loaded v
      → Step s (record { count = v; pcs = at s.pcs i top })

abbrev pub step_stores : {s t : System} → Step s t → ℕ
step_stores (load i small here) = 0
step_stores (store i small here) = 1

abbrev pub init : ℕ → System
init n = record { count = n; pcs = λ i. top }

-- The systems that are reached, with the count of the stores.
pub data Reach (n : ℕ) : ℕ → System → Type 0 where
  start : Reach n 0 (init n)
  later : {k : ℕ} {s t : System} → Reach n k s → (st : Step s t) → Reach n (k + step_stores st) t

-- From any count both threads can store once, and the count has gone up by 1 only.
pub update_lost : (n : ℕ) → (s : System) × Reach n 2 s × (s.count ≡ increment n)
update_lost n = (
  _,
  later
      (later (later (later start (load 0 (omega arith) refl)) (load 1 (omega arith) refl))
        (store 0 (omega arith) refl))
      (store 1 (omega arith) refl),
  refl,
)
