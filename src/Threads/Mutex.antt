-- ===== src/Threads/Mutex.antt =====
-- 14_Linux_Mulit_thread/count_thread_mutex/main.c: threads that count under a mutex, a shared access
-- at a time.
use network_ex.Common.{ℕ, ◌+◌, ◌%◌, ◌^◌, ◌<◌, ◌≡◌, Option, none, some, ◌==◌, if◌then◌else◌}

-- MAX_THREAD
abbrev pub max_thread : ℕ
max_thread = 2

-- Where a thread stands in the loop of `t_func`.
pub data Pc : Type 0 where
  top : Pc  -- before `pthread_mutex_lock`
  locked : Pc  -- before `tmp = *count`
  loaded : (tmp : ℕ) → Pc  -- after `tmp++`, before `*count = tmp`
  stored : Pc  -- before `pthread_mutex_unlock`

-- The mutex, with the thread that holds it, and `count` of `main` as its 32-bit pattern.
pub record Shared : Type 0 where
  pub owner : Option ℕ
  pub count : ℕ

-- `tmp++` in an `int`, as gcc wraps it.
abbrev pub increment : ℕ → ℕ
increment n = (n + 1) % 2 ^ 32

-- One step of the thread `i`. A thread waits in `pthread_mutex_lock` while the mutex is held.
pub data Move (i : ℕ) (m : Shared) : Pc → Shared → Pc → Type 0 where
  lock : m.owner ≡ none → Move i m top (record m { owner = some i }) locked
  load : Move i m locked m (loaded (increment m.count))
  store : {v : ℕ} → Move i m (loaded v) (record m { count = v }) stored
  unlock : Move i m stored (record m { owner = none }) top

pub record System : Type 0 where
  pub shared : Shared
  pub pcs : ℕ → Pc

abbrev pub at : (ℕ → Pc) → ℕ → Pc → ℕ → Pc
at pcs i p j = if i == j then p else pcs j

-- The threads move in any order.
pub data Step (s : System) : System → Type 0 where
  moves :
      (i : ℕ) {m : Shared} {p : Pc}
      → i < max_thread
      → Move i s.shared (s.pcs i) m p
      → Step s (record { shared = m; pcs = at s.pcs i p })

-- After `pthread_mutex_init`, with the threads before their loops.
abbrev pub init : ℕ → System
init n = record { shared = record { owner = none; count = n }; pcs = λ i. top }

pub data Reach (n : ℕ) : System → Type 0 where
  start : Reach n (init n)
  later : {s t : System} → Reach n s → Step s t → Reach n t

-- Between the two calls on the mutex.
abbrev pub IsInside : Pc → Type 0
IsInside top = ⊥
IsInside _ = Unit {0}
