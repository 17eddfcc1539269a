-- ===== src/FileService/Query.antt =====
-- `struct Cquery`, the request that the client sends and the server reads.
use network_ex.Common.{ℕ, ◌++◌, length, take, drop}
use network_ex.Common.Bytes.{Bytes}
use network_ex.Common.Words.{word_bytes, bytes_word}

abbrev pub q_upload : ℕ
q_upload = 1

abbrev pub q_download : ℕ
q_download = 2

abbrev pub q_list : ℕ
q_list = 3

-- MAXLINE
abbrev pub max_line : ℕ
max_line = 1024

-- `command` holds the word as it stands in memory.
pub record Cquery : Type 0 where
  pub command : ℕ
  pub f_name : Bytes

abbrev pub name_size : ℕ
name_size = 64

-- The memory of the structure, sizeof(query) = 68 bytes.
abbrev pub memory : Cquery → Bytes
memory q = word_bytes q.command ++ q.f_name

-- The structure that a block of memory holds.
abbrev pub at_memory : Bytes → Cquery
at_memory bs = record { command = bytes_word bs; f_name = take name_size (drop 4 bs) }

-- `recv` stores what it got over the start of a structure that has old memory.
abbrev pub overlay : Bytes → Bytes → Bytes
overlay bs old = bs ++ drop (length bs) old
