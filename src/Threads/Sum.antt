-- ===== src/Threads/Sum.antt =====
-- 14_Linux_Mulit_thread/catc_multi/main.c: four threads that sum a quarter of an array each, and wait
-- on a condition before.
use network_ex.Common.{
  ℕ, zero, suc, ◌+◌, ◌*◌, ◌%◌, ◌^◌, ◌<◌, ◌≡◌, Bool, true, false, ◌==◌, if◌then◌else◌,
}

-- ARRAY_SIZE
abbrev pub array_size : ℕ
array_size = 100

-- THREAD_NUM
abbrev pub thread_num : ℕ
thread_num = 4

abbrev pub word : ℕ
word = 2 ^ 32

-- The rounds left of the loop of `t_func`, from the element `j` on: `sum` as a 32-bit pattern.
unfoldable pub sum_loop : (ℕ → ℕ) → ℕ → ℕ → ℕ → ℕ
sum_loop array zero j sum = sum
sum_loop array (suc n) j sum = sum_loop array n (j + 1) ((sum + array j) % word)

-- What the thread with the index `idx` stores in `sum_array`.
unfoldable pub part_sum : (ℕ → ℕ) → ℕ → ℕ
unfolding sum_loop
part_sum array idx = sum_loop array 25 (idx * 25) 0

-- The loop of `main` that adds up `sum_array`.
unfoldable pub join_loop : (ℕ → ℕ) → ℕ → ℕ → ℕ → ℕ
join_loop sum_array zero i sum = sum
join_loop sum_array (suc n) i sum = join_loop sum_array n (i + 1) ((sum + sum_array i) % word)

-- The loop that fills the array.
unfoldable pub fill : ℕ → ℕ → (ℕ → ℕ) → ℕ → ℕ
fill zero i array = array
fill (suc n) i array = fill n (i + 1) (λ j. if i == j then i else array j)

-- Where a thread stands.
pub data Worker : Type 0 where
  absent : Worker  -- before `pthread_create`
  born : Worker  -- before it copies `d_info`
  copied : (idx : ℕ) → Worker  -- before `pthread_mutex_lock`
  waiting : (idx : ℕ) → Worker  -- in `pthread_cond_wait`
  woken : (idx : ℕ) → Worker
  done : Worker

-- What `main` and the threads share, and how far `main` is: `created` threads, the loop that fills
-- the array and `pthread_cond_broadcast` done or not.
pub record System : Type 0 where
  pub created : ℕ
  pub d_info_idx : ℕ
  pub array : ℕ → ℕ
  pub broadcast : Bool
  pub sum_array : ℕ → ℕ
  pub workers : ℕ → Worker

-- Only who waits is woken.
abbrev pub wake : Worker → Worker
wake (waiting idx) = woken idx
wake w = w

abbrev pub at : (ℕ → Worker) → ℕ → Worker → ℕ → Worker
at workers j w i = if j == i then w else workers i

-- A thread copies `d_info` as it is when the thread gets to run. `pthread_cond_wait` may return before
-- the broadcast too.
pub data Step (s : System) : System → Type 0 where
  create :
      s.created < thread_num
      → Step s (record s {
        created = s.created + 1;
        d_info_idx = s.created;
        workers = at s.workers s.created born;
      })
  copy :
      (j : ℕ)
      → s.workers j ≡ born
      → Step s (record s { workers = at s.workers j (copied s.d_info_idx) })
  wait :
      (j : ℕ) {idx : ℕ}
      → s.workers j ≡ copied idx
      → Step s (record s { workers = at s.workers j (waiting idx) })
  wakes_alone :
      (j : ℕ) {idx : ℕ}
      → s.workers j ≡ waiting idx
      → Step s (record s { workers = at s.workers j (woken idx) })
  broadcasts :
      s.created ≡ thread_num
      → s.broadcast ≡ false
      → Step s (record s {
        array = fill array_size 0 s.array;
        broadcast = true;
        workers = λ j. wake (s.workers j);
      })
  work :
      (j : ℕ) {idx : ℕ}
      → s.workers j ≡ woken idx
      → Step s (record s {
        sum_array = λ i. if idx == i then part_sum s.array idx else s.sum_array i;
        workers = at s.workers j done;
      })

-- The step is no wakeup without the broadcast.
abbrev pub is_regular : {s t : System} → Step s t → Bool
is_regular (wakes_alone j h) = false
is_regular _ = true

-- Steps of `main` and the threads in any order, in which no thread wakes up but by the broadcast.
pub data Steps (s : System) : System → Type 0 where
  here : Steps s s
  further : {t u : System} → Steps s t → (step : Step t u) → is_regular step ≡ true → Steps s u

-- What `main` prints after all threads have ended.
abbrev pub printed : System → ℕ
printed s = join_loop s.sum_array thread_num 0 0
