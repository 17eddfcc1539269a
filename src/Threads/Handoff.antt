-- ===== src/Threads/Handoff.antt =====
-- `main` of 14_Linux_Mulit_thread/echo_server_thread/main.c, which hands `&client_fd` to each thread.
use network_ex.Common.{ℕ, ◌+◌, ◌≡◌, ◌≢◌, Option, none, some, Bool, true, false, ◌==◌, if◌then◌else◌}

-- Where a thread stands: before it copies `*(int *)data`, and with its `sockfd`.
pub data Thread : Type 0 where
  absent : Thread
  born : Thread
  serving : (sockfd : ℕ) → Thread
  lost : Thread  -- with -1 in `sockfd`

-- The variable `client_fd` of `main`, which is `none` while it is -1; whether `main` is between
-- `accept` and `pthread_create`; the number of threads; the threads; and the connections in the order
-- in which `accept` gave them.
pub record System : Type 0 where
  pub client_fd : Option ℕ
  pub has_new : Bool
  pub created : ℕ
  pub threads : ℕ → Thread
  pub accepted : ℕ → Option ℕ

abbrev pub at : {A : Type 0} → (ℕ → A) → ℕ → A → ℕ → A
at f j v i = if j == i then v else f i

abbrev pub init : System
init = record {
  client_fd = none;
  has_new = false;
  created = 0;
  threads = λ j. absent;
  accepted = λ j. none;
}

-- A step of `main` or of a thread.
pub data Step (s : System) : System → Type 0 where
  fails : s.has_new ≡ false → Step s (record s { client_fd = none })
  accepts :
      (fd : ℕ)
      → s.has_new ≡ false
      → Step s (record s {
        client_fd = some fd;
        has_new = true;
        accepted = at s.accepted s.created (some fd);
      })
  creates :
      s.has_new ≡ true
      → Step s (record s {
        has_new = false;
        created = s.created + 1;
        threads = at s.threads s.created born;
      })
  copies :
      (j : ℕ) {fd : ℕ}
      → s.threads j ≡ born
      → s.client_fd ≡ some fd
      → Step s (record s { threads = at s.threads j (serving fd) })
  misses :
      (j : ℕ)
      → s.threads j ≡ born
      → s.client_fd ≡ none
      → Step s (record s { threads = at s.threads j lost })

pub data Reach : System → Type 0 where
  start : Reach init
  later : {s t : System} → Reach s → Step s t → Reach t

-- `main` does not come to `accept` before every thread has copied its descriptor.
abbrev pub IsCalm : {s t : System} → Step s t → Type 0
IsCalm {s} (fails idle) = (j : ℕ) → s.threads j ≢ born
IsCalm {s} (accepts fd idle) = (j : ℕ) → s.threads j ≢ born
IsCalm (creates new) = Unit {0}
IsCalm (copies j is_born here) = Unit {0}
IsCalm (misses j is_born gone) = Unit {0}

pub data ReachCalmly : System → Type 0 where
  calm_start : ReachCalmly init
  calm_later : {s t : System} → ReachCalmly s → (st : Step s t) → IsCalm st → ReachCalmly t
