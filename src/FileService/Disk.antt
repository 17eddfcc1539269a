-- ===== src/FileService/Disk.antt =====
-- What the file server and its client see of the operating system: files by name, an open file with
-- its offset, and the answers of `write` and `send`.
use network_ex.Common.{
  ℕ, ◌+◌, ◌≡◌, Option, none, some, List, [], ◌∷◌, ◌++◌, length, take, drop, if◌then◌else◌,
}
use network_ex.Common.Bytes.{Bytes, bytes_eq}

-- The content of the file of each name; `open` fails where there is `none`.
abbrev pub Files : Type 0
Files = Bytes → Option Bytes

abbrev pub put : Files → Bytes → Bytes → Files
put files name content n = if bytes_eq name n then some content else files n

pub record OpenFile : Type 0 where
  pub content : Bytes
  pub offset : ℕ

-- The file as `open` leaves it without O_TRUNC and O_APPEND.
abbrev pub opened : Bytes → OpenFile
opened content = record { content = content; offset = 0 }

-- The effect on a regular file of a `write` that stores `bs`.
abbrev pub write_at : OpenFile → Bytes → OpenFile
write_at f bs = record {
  content = take f.offset f.content ++ (bs ++ drop (f.offset + length bs) f.content);
  offset = f.offset + length bs;
}

-- The answer of the k-th `write` (or `send`) of a loop to a request for n bytes: how many it took,
-- or `none` for -1.
abbrev pub Answers : Type 0
Answers = ℕ → ℕ → Option ℕ

-- Every call takes all that it is given.
abbrev pub Full : Answers → Type 0
Full answers = (k n : ℕ) → answers k n ≡ some n

-- The bytes that a connection delivers before it ends. `none` is an error, an empty block is the
-- end of the stream, and so is the end of the list.
abbrev pub received : List (Option Bytes) → Bytes
received [] = []
received (none ∷ rest) = []
received (some [] ∷ rest) = []
received (some (b ∷ bs) ∷ rest) = (b ∷ bs) ++ received rest
