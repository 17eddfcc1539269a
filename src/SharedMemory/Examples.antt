-- ===== src/SharedMemory/Examples.antt =====
-- The producer takes the semaphore and counts once; and without one, the consumer reads twice.
use network_ex.SharedMemory.Unsynchronised
use network_ex.SharedMemory.Unsynchronised.{plus_two, Accessed, at_first, and_then, load, print}
use network_ex.SharedMemory.Reads.{IsCounted, reads_advance}
use network_ex.Common.{◌+◌, ◌%◌, ◌^◌, ◌≤◌, ◌≡◌, refl, none, [], ◌∷◌, arith}
use network_ex.SharedMemory.Semaphore.{
  producer, top, stored, acquire, load, store, System, produce, Reach, start, later, critical,
}
use network_ex.SharedMemory.Exclusion.{mutual_exclusion, no_lost_update}

abbrev counted_once : System
counted_once = record {
  mem = record { sem = 0; cal_num = 8 };
  producer_pc = stored;
  consumer_pc = top;
}

counts : Reach 7 1 counted_once
counts =
    later
      (later (later start (produce (acquire {r = producer} (omega arith))) refl)
        (produce (load {r = producer})) refl)
      (produce (store {r = producer})) refl

mutual_exclusion_example : critical counted_once.producer_pc + critical counted_once.consumer_pc ≤ 1
mutual_exclusion_example = mutual_exclusion (omega arith) counts

no_lost_update_example : counted_once.mem.cal_num ≡ (7 + 1) % 2 ^ 32
no_lost_update_example = no_lost_update (omega arith) counts

-- The consumer reads between the load and the store, and after them.
two_reads : Accessed 7 1 (1 ∷ 0 ∷ []) (record { cal_num = 9; loaded = none; printed = 9 ∷ 7 ∷ [] })
unfolding plus_two
two_reads =
    and_then
      (and_then (and_then (and_then at_first (load refl)) print) (Unsynchronised.store 7 refl))
      print

reads_advance_example :
    IsCounted 7 1 (1 ∷ 0 ∷ []) (record { cal_num = 9; loaded = none; printed = 9 ∷ 7 ∷ [] })
reads_advance_example = reads_advance (omega arith) two_reads
