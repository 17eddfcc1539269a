-- ===== src/SharedMemory/Unsynchronised.antt =====
-- 11_IPC/shm_producer/main.c and 11_IPC/shm_consumer/main.c: their loops, one access to the shared
-- number at a time.
use network_ex.Common.{ℕ, ◌+◌, ◌%◌, ◌^◌, ◌≡◌, Option, none, some, List, [], ◌∷◌}

-- The shared `int` as its 32-bit pattern, what the producer has loaded of it, and what the consumer has
-- printed, the last first.
pub record Shared : Type 0 where
  pub cal_num : ℕ
  pub loaded : Option ℕ
  pub printed : List ℕ

-- Once both have attached the memory.
abbrev pub attached : ℕ → Shared
attached n = record { cal_num = n; loaded = none; printed = [] }

-- The number that is stored, with an `int` taken to wrap.
unfoldable pub plus_two : ℕ → ℕ
plus_two n = (n + 2) % 2 ^ 32

pub data Access : Shared → Shared → Type 0 where
  load : {s : Shared} → s.loaded ≡ none → Access s (record s { loaded = some s.cal_num })
  store :
      {s : Shared}
      → (n : ℕ) → s.loaded ≡ some n
      → Access s (record s { cal_num = plus_two n; loaded = none })
  print : {s : Shared} → Access s (record s { printed = s.cal_num ∷ s.printed })

-- How many stores an access is.
abbrev pub stores_of : {s t : Shared} → Access s t → ℕ
stores_of (load e) = 0
stores_of (store n e) = 1
stores_of print = 0

-- The numbers of stores that the prints have come after, the last print first.
abbrev pub then_print : {s t : Shared} → Access s t → ℕ → List ℕ → List ℕ
then_print (load e) stores prints = prints
then_print (store n e) stores prints = prints
then_print print stores prints = stores ∷ prints

-- Any accesses of one producer and one consumer from the number `n`, in any order: how many stores they
-- are, how many stores came before each print, and what they lead to.
pub data Accessed (n : ℕ) : ℕ → List ℕ → Shared → Type 0 where
  at_first : Accessed n 0 [] (attached n)
  and_then :
      {s t : Shared} {stores : ℕ} {prints : List ℕ}
      → Accessed n stores prints s
      → (access : Access s t)
      → Accessed n (stores + stores_of access) (then_print access stores prints) t
