-- ===== src/Threads/Examples.antt =====
-- A thread that locks; four that wait and are woken; and one that comes after the broadcast.
use network_ex.Common.{ℕ, ◌<◌, ◌≡◌, ◌≢◌, refl, some, true, false, ◌==◌, if◌then◌else◌, arith, ltb}
use network_ex.Threads.Mutex
use network_ex.Threads.Refinement.{Counts, mutex_refines}
use network_ex.Threads.Sum.{
  array_size, thread_num, part_sum, fill, wake, at, absent, born, waiting, copied, done, System,
  copy, broadcasts, work, Steps, here, further, printed,
}
use network_ex.Threads.Handoff
use network_ex.Threads.Served.{HasOwn, calm_threads_serve}
use network_ex.Threads.Wakeup.{missed_broadcast_hangs}
use network_ex.Threads.Total.{IsReady, waiters_sum}

abbrev one_locked : Mutex.System
one_locked = record {
  shared = record { owner = some 1; count = 7 };
  pcs = Mutex.at (λ i. Mutex.top) 1 Mutex.locked;
}

locks : Mutex.Step (Mutex.init 7) one_locked
locks = Mutex.moves 1 (omega arith) (Mutex.lock refl)

one_loaded : Mutex.System
one_loaded = record {
  shared = record { owner = some 1; count = 7 };
  pcs = Mutex.at one_locked.pcs 1 (Mutex.loaded 8);
}

loads : Mutex.Step one_locked one_loaded
unfolding one_loaded
loads = Mutex.moves 1 (omega arith) Mutex.load

abbrev one_stored : Mutex.System
one_stored = record {
  shared = record { owner = some 1; count = 8 };
  pcs = Mutex.at one_loaded.pcs 1 Mutex.stored;
}

stores : Mutex.Step one_loaded one_stored
unfolding one_loaded
stores = Mutex.moves 1 (omega arith) Mutex.store

mutex_refines_example :
    ((i j : ℕ) → Mutex.IsInside (one_loaded.pcs i) → Mutex.IsInside (one_loaded.pcs j) → i ≡ j)
    × Counts 7 8
unfolding one_loaded
mutex_refines_example = mutex_refines (Mutex.later (Mutex.later Mutex.start locks) loads) stores

-- All four threads wait, and the array holds 1 everywhere.
abbrev ready : System
ready = record {
  created = 4;
  d_info_idx = 3;
  array = λ j. 1;
  broadcast = false;
  sum_array = λ j. 0;
  workers = λ j. if ltb j 4 then waiting j else absent;
}

ready-IsReady : IsReady ready
ready-IsReady = record {
  all_created = refl;
  unsent = refl;
  waits = λ j small. ground arith;
  no_more = λ j large. ground arith;
}

-- They are woken in the order 2, 0, 3, 1.
abbrev fired : System
fired = record ready {
  array = fill array_size 0 ready.array;
  broadcast = true;
  workers = λ j. wake (ready.workers j);
}

-- What the thread `j` leaves when it is done.
abbrev after_work : ℕ → System → System
after_work j s = record s {
  sum_array = λ i. if j == i then part_sum s.array j else s.sum_array i;
  workers = at s.workers j done;
}

abbrev ended_all : System
ended_all = after_work 1 (after_work 3 (after_work 0 (after_work 2 fired)))

all_work : Steps ready ended_all
all_work =
    further
      (further
        (further (further (further here (broadcasts refl refl) refl) (work 2 refl) refl)
          (work 0 refl) refl)
        (work 3 refl) refl)
      (work 1 refl) refl

all_ended : (j : ℕ) → j < thread_num → ended_all.workers j ≡ done
all_ended j small = ground arith

waiters_sum_example : printed ended_all ≡ 4950
waiters_sum_example = waiters_sum ready-IsReady all_work all_ended

-- The thread 3 is created, but has not come to its wait when the broadcast is made.
abbrev missed : System
missed = record ready { broadcast = true; workers = λ j. if j == 3 then born else done }

copies :
    Steps missed (record missed { workers = λ j. if 3 == j then copied 3 else missed.workers j })
copies = further here (copy 3 refl) refl

missed_broadcast_hangs_example : (if 3 == 3 then copied 3 else missed.workers 3) ≢ done
missed_broadcast_hangs_example = missed_broadcast_hangs 3 refl tt copies

nobody_yet : (j : ℕ) → Handoff.init.threads j ≢ Handoff.born
nobody_yet j e = ground arith

nobody_left :
    (j : ℕ)
    → Handoff.at (Handoff.at Handoff.init.threads 0 Handoff.born) 0 (Handoff.serving 4) j
      ≢ Handoff.born
nobody_left j e = ground arith

-- Connection 4 is accepted and gets the thread 0, which copies its descriptor; then 5 is accepted.
abbrev one_served : (s : Handoff.System) × Handoff.ReachCalmly s
one_served = (
  _,
  Handoff.calm_later
      (Handoff.calm_later
        (Handoff.calm_later
          (Handoff.calm_later Handoff.calm_start (Handoff.accepts 4 refl) nobody_yet)
          (Handoff.creates refl) tt)
        (Handoff.copies 0 refl refl) tt)
      (Handoff.accepts 5 refl) nobody_left,
)

calm_threads_serve_example : HasOwn (Handoff.serving 4) (some 5) (some 4)
calm_threads_serve_example = calm_threads_serve 0 one_served.1
