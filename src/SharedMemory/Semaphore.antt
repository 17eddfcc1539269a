-- ===== src/SharedMemory/Semaphore.antt =====
-- One producer and one consumer over one semaphore and one shared `int`, a shared access at a time:
-- the loops of 11_IPC/shm_producer_sem/main.c and 11_IPC/shm_consumer_sem/main.c.
use network_ex.Common.{ℕ, ◌+◌, ◌-◌, ◌%◌, ◌^◌, ◌<◌, ◌≡◌, Bool, true, false}

-- The semaphore, and `*cal_num` as its 32-bit pattern.
pub record Memory : Type 0 where
  pub sem : ℕ
  pub cal_num : ℕ

pub data Role : Type 0 where
  producer consumer : Role

-- Where a process stands in its loop, with the local variable that is live there.
pub data Pc : Type 0 where
  top : Pc  -- before `semop(semid, &semopen, 1)`
  inside : Pc  -- before `*cal_num` is read
  loaded : (local_var : ℕ) → Pc  -- before `*cal_num` is written
  stored : Pc  -- before `semop(semid, &semclose, 1)`
  stopped : Pc  -- after `return 1`

-- `*cal_num + 1` in an `int`, as gcc wraps it.
abbrev pub increment : ℕ → ℕ
increment n = (n + 1) % 2 ^ 32

-- One step of a process. Where the first `semop` fails, the producer returns, and the consumer
-- prints an error and goes on.
pub data Move (m : Memory) : Role → Pc → Memory → Pc → Type 0 where
  acquire : {r : Role} → 0 < m.sem → Move m r top (record m { sem = m.sem - 1 }) inside
  producer_fails : Move m producer top m stopped
  consumer_fails : Move m consumer top m inside
  load : {r : Role} → Move m r inside m (loaded (increment m.cal_num))
  store : {r : Role} {v : ℕ} → Move m r (loaded v) (record m { cal_num = v }) stored
  release : {r : Role} → Move m r stored (record m { sem = m.sem + 1 }) top

pub record System : Type 0 where
  pub mem : Memory
  pub open mem use *
  pub producer_pc : Pc
  pub consumer_pc : Pc

-- The processes move in any order.
pub data Step (s : System) : System → Type 0 where
  produce :
      {m : Memory} {p : Pc}
      → Move s.mem producer s.producer_pc m p
      → Step s (record s { mem = m; producer_pc = p })
  consume :
      {m : Memory} {p : Pc}
      → Move s.mem consumer s.consumer_pc m p
      → Step s (record s { mem = m; consumer_pc = p })

-- The producer has set the semaphore to 1, and both are before their loops.
abbrev pub init : ℕ → System
init n = record { mem = record { sem = 1; cal_num = n }; producer_pc = top; consumer_pc = top }

-- The move is no failure that the consumer goes on from.
abbrev pub waits : {m m' : Memory} {r : Role} {p p' : Pc} → Move m r p m' p' → Bool
waits consumer_fails = false
waits _ = true

-- The move writes the shared number.
abbrev pub writes : {m m' : Memory} {r : Role} {p p' : Pc} → Move m r p m' p' → ℕ
writes store = 1
writes _ = 0

abbrev pub step_waits : {s t : System} → Step s t → Bool
step_waits (produce mv) = waits mv
step_waits (consume mv) = waits mv

abbrev pub step_writes : {s t : System} → Step s t → ℕ
step_writes (produce mv) = writes mv
step_writes (consume mv) = writes mv

-- The systems that are reached while the consumer's `semop` does not fail, with the count of the
-- writes so far.
pub data Reach (n : ℕ) : ℕ → System → Type 0 where
  start : Reach n 0 (init n)
  later :
      {k : ℕ} {s t : System}
      → Reach n k s
      → (st : Step s t) → step_waits st ≡ true
      → Reach n (k + step_writes st) t

-- Between the two calls of `semop`.
abbrev pub critical : Pc → ℕ
critical inside = 1
critical (loaded _) = 1
critical stored = 1
critical _ = 0
