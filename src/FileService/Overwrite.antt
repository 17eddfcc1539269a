-- ===== src/FileService/Overwrite.antt =====
-- What the writing loops leave in a file: the bytes that arrived, over the start of the old content.
use mathlib.Core.List.{append_assoc, append-nil}
use network_ex.Common.{
  ℕ, ◌+◌, ◌≡◌, refl, sym, ap, ◌∙◌, true, Option, none, some, List, [], ◌∷◌, ◌++◌, length, take,
  drop, arith, length-append, take-append, take_all, drop-append, drop-drop,
}
use network_ex.Common.Bytes.{Bytes}
use network_ex.FileService.Disk.{OpenFile, write_at, Answers, Full, received}
use network_ex.FileService.Server.{store_chunks}
use network_ex.FileService.Client.{save_chunks}

-- A file whose first bytes have been written again.
abbrev pub overwritten : Bytes → Bytes → Bytes
overwritten old bs = bs ++ drop (length bs) old

-- The file after a run of writes of `bs` in all.
abbrev after : Bytes → Bytes → OpenFile
after old bs = record { content = overwritten old bs; offset = length bs }

drop-overwritten :
    (old p b : Bytes)
    → drop (length p + length b) (overwritten old p) ≡ drop (length p + length b) old
drop-overwritten old p b =
    sym (drop-drop (length p) (length b) (overwritten old p))
    ∙ ap (drop (length b)) (drop-append (length p) p (drop (length p) old) refl)
    ∙ drop-drop (length p) (length b) old

write_at-after : (old p b : Bytes) → write_at (after old p) b ≡ after old (p ++ b)
write_at-after old p b = λ i. record { content = content i; offset = sym (length-append p b) i }
  where
    content :
        take (length p) (overwritten old p) ++ (b ++ drop (length p + length b) (overwritten old p))
        ≡ overwritten old (p ++ b)
    content = rw (take-append (length p) p (drop (length p) old) refl) (
        rw (drop-overwritten old p b)
          (rw (length-append p b) (sym (append_assoc p b (drop (length p + length b) old)))))

after_cons :
    (old p b : Bytes) (rest : List (Option Bytes)) {f : OpenFile}
    → f ≡ after old (p ++ b ++ received rest)
    → f ≡ after old (p ++ (b ++ received rest))
after_cons old p b rest e = e ∙ ap (after old) (append_assoc p b (received rest))

after_end : (old p : Bytes) → after old p ≡ after old (p ++ [])
after_end old p = ap (after old) (sym (append-nil p))

-- The server's loop stores all that arrives, when every write is full.
pub store_chunks-after :
    (disk : Answers)
    → Full disk
    → (old : Bytes) (incoming : List (Option Bytes)) (k : ℕ) (p : Bytes)
    → store_chunks disk k incoming (after old p) ≡ after old (p ++ received incoming)
unfolding store_chunks
store_chunks-after disk full old [] k p = after_end old p
store_chunks-after disk full old (none ∷ rest) k p = after_end old p
store_chunks-after disk full old (some [] ∷ rest) k p = after_end old p
store_chunks-after disk full old (some (b ∷ bs) ∷ rest) k p =
    let ih : store_chunks disk (k + 1) rest (write_at (after old p) (b ∷ bs))
        ≡ after old (p ++ (b ∷ bs ++ received rest)) =
      rw (write_at-after old p (b ∷ bs)) (
        after_cons old p (b ∷ bs) rest
          (store_chunks-after disk full old rest (k + 1) (p ++ b ∷ bs))) in
    ground (arith, full k (length (b ∷ bs)), take_all (length bs) bs refl, ih)

-- The client's loop, when it ends well, has stored all that arrived, whatever `write` answered.
pub save_chunks-after :
    (disk : Answers) (old : Bytes) (incoming : List (Option Bytes)) (k : ℕ) (p : Bytes)
    → (save_chunks disk k incoming (after old p)).complete ≡ true
    → (save_chunks disk k incoming (after old p)).file ≡ after old (p ++ received incoming)
unfolding save_chunks
save_chunks-after disk old [] k p h = after_end old p
save_chunks-after disk old (none ∷ rest) k p h = after_end old p
save_chunks-after disk old (some [] ∷ rest) k p h = after_end old p
save_chunks-after disk old (some (b ∷ bs) ∷ rest) k p h =
    let ih : (save_chunks disk (k + 1) rest (write_at (after old p) (b ∷ bs))).complete ≡ true
        → (save_chunks disk (k + 1) rest (write_at (after old p) (b ∷ bs))).file
          ≡ after old (p ++ (b ∷ bs ++ received rest)) =
      rw (write_at-after old p (b ∷ bs)) (λ c.
        after_cons old p (b ∷ bs) rest (save_chunks-after disk old rest (k + 1) (p ++ b ∷ bs) c)) in
    ground (arith, ih)

-- With full writes it does end well.
pub save_chunks-complete :
    (disk : Answers)
    → Full disk
    → (incoming : List (Option Bytes)) (k : ℕ) (f : OpenFile)
    → (save_chunks disk k incoming f).complete ≡ true
unfolding save_chunks
save_chunks-complete disk full [] k f = refl
save_chunks-complete disk full (none ∷ rest) k f = refl
save_chunks-complete disk full (some [] ∷ rest) k f = refl
save_chunks-complete disk full (some (b ∷ bs) ∷ rest) k f = ground (
  arith,
  full k (length (b ∷ bs)),
  save_chunks-complete disk full rest (k + 1) (write_at f (b ∷ bs)),
)
