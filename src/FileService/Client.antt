-- ===== src/FileService/Client.antt =====
-- 26_file_server/file_cli/main.c: the three requests of the client over a connected socket.
use network_ex.Common.{
  ℕ, zero, suc, ◌+◌, Option, none, some, List, [], ◌∷◌, Bool, true, false, length, take, drop, ltb,
  ◌==◌, if◌then◌else◌,
}
use network_ex.Common.Bytes.{Bytes, c_string, filled}
use network_ex.Common.Words.{htonl}
use network_ex.Common.Int.{ℤ, pos, negsuc}
use network_ex.FileService.Disk.{Files, put, OpenFile, opened, write_at, Answers}
use network_ex.FileService.Query.{Cquery, memory, name_size, max_line, q_upload, q_download, q_list}

abbrev pub minus_one : ℤ
minus_one = negsuc 0

-- What a request leaves: the value returned, the files, and the bytes of each `send`.
pub record Done : Type 0 where
  pub ret : ℤ
  pub files : Files
  pub sent : List Bytes

-- The query: `memset`, the command in network order, and `sprintf` of the name into the 64 bytes of
-- `fname`. `none` where the name with its NUL does not fit them.
unfoldable pub make_query : ℕ → Bytes → Option Cquery
make_query command file =
    if ltb (length file) name_size
    then some (record { command = htonl command; f_name = filled name_size file })
    else none

-- How a loop over `send` or `write` ended: whether every call took all that it was given.
pub record Sending : Type 0 where
  pub complete : Bool
  pub blocks : List Bytes

-- The loop of `upload` over what is left of the file. Every round but the last takes a byte, so the
-- length of the file and one is fuel enough.
unfoldable pub upload_chunks : Answers → ℕ → ℕ → Bytes → Sending
upload_chunks socket zero k rest = record { complete = false; blocks = [] }
upload_chunks socket (suc fuel) k [] = record { complete = true; blocks = [] }
upload_chunks socket (suc fuel) k (b ∷ rest) =
    let chunk = take max_line (b ∷ rest) in
    elim (socket k (length chunk)) [
      | none ↦ record { complete = false; blocks = [] }
      | some n ↦
          let more = upload_chunks socket fuel (k + 1) (drop max_line (b ∷ rest)) in
          if n == length chunk
          then record { complete = more.complete; blocks = chunk ∷ more.blocks }
          else record { complete = false; blocks = take n chunk ∷ [] }
    ]

abbrev value_of : Bool → ℤ
value_of complete = if complete then pos 1 else minus_one

-- `none` where the name overflows the query.
unfoldable pub upload : Answers → Files → Bytes → Option Done
unfolding upload_chunks
upload socket files file = elim (files file) [
  | none ↦ some (record { ret = minus_one; files = files; sent = [] })
  | some content ↦ elim (make_query q_upload file) [
    | none ↦ none
    | some query ↦
        let request = memory query in
        let out = upload_chunks socket (length content + 1) 1 content in
        elim (socket 0 (length request)) [
          | none ↦ some (record { ret = minus_one; files = files; sent = [] })
          | some zero ↦ some (record { ret = minus_one; files = files; sent = [] })
          | some (suc n) ↦ some (record {
            ret = value_of out.complete;
            files = files;
            sent = take (suc n) request ∷ out.blocks;
          })
        ]
  ]
]

pub record Saving : Type 0 where
  pub complete : Bool
  pub file : OpenFile

-- The loop of `download`: each block that arrives is written; a short `write` ends it.
unfoldable pub save_chunks : Answers → ℕ → List (Option Bytes) → OpenFile → Saving
save_chunks disk k [] f = record { complete = true; file = f }
save_chunks disk k (none ∷ rest) f = record { complete = true; file = f }
save_chunks disk k (some [] ∷ rest) f = record { complete = true; file = f }
save_chunks disk k (some (b ∷ bs) ∷ rest) f = elim (disk k (length (b ∷ bs))) [
  | none ↦ record { complete = false; file = f }
  | some n ↦
      let more = save_chunks disk (k + 1) rest (write_at f (b ∷ bs)) in
      if n == length (b ∷ bs)
      then more
      else record { complete = false; file = write_at f (take n (b ∷ bs)) }
]

-- The file is opened before the query is made; `none` where the name overflows the query.
unfoldable pub download : Answers → Answers → Files → List (Option Bytes) → Bytes → Option Done
unfolding save_chunks
download socket disk files incoming file = elim (files file) [
  | none ↦ some (record { ret = minus_one; files = files; sent = [] })
  | some old ↦ elim (make_query q_download file) [
    | none ↦ none
    | some query ↦
        let request = memory query in
        let saved = save_chunks disk 0 incoming (opened old) in
        elim (socket 0 (length request)) [
          | none ↦ some (record { ret = minus_one; files = files; sent = [] })
          | some zero ↦ some (record { ret = minus_one; files = files; sent = [] })
          | some (suc n) ↦ some (record {
            ret = value_of saved.complete;
            files = put files file saved.file.content;
            sent = take (suc n) request ∷ [];
          })
        ]
  ]
]

-- The loop of `get_list`: each block is put into the cleared buffer and printed as a C string.
-- `none` where a block fills the buffer and has no NUL.
unfoldable pub print_chunks : List (Option Bytes) → Option (List Bytes)
print_chunks [] = some []
print_chunks (none ∷ rest) = some []
print_chunks (some [] ∷ rest) = some []
print_chunks (some (b ∷ bs) ∷ rest) =
    let more = print_chunks rest in
    elim (c_string (filled max_line (b ∷ bs))) [
      | none ↦ none
      | some text ↦ elim more [ none ↦ none | some texts ↦ some (text ∷ texts) ]
    ]

-- What `get_list` sends and prints.
pub record Listing : Type 0 where
  pub sent : List Bytes
  pub printed : List Bytes

unfoldable pub get_list : Answers → List (Option Bytes) → Option Listing
unfolding print_chunks
get_list socket incoming =
    let request = memory (record { command = htonl q_list; f_name = filled name_size [] }) in
    elim (socket 0 (length request)) [
      | none ↦ some (record { sent = []; printed = [] })
      | some zero ↦ some (record { sent = []; printed = [] })
      | some (suc n) ↦ elim (print_chunks incoming) [
        | none ↦ none
        | some texts ↦ some (record { sent = take (suc n) request ∷ []; printed = texts })
      ]
    ]
