-- ===== src/FileService/Server.antt =====
-- 26_file_server/file_server/main.c: one connection of the server.
use mathlib.Core.Option
use network_ex.Common.{
  ℕ, zero, suc, ◌+◌, ◌-◌, Option, none, some, List, [], ◌∷◌, ◌++◌, Bool, true, false, length, take,
  drop, replicate, ltb, ◌==◌, if◌then◌else◌,
}
use network_ex.Common.Bytes.{Bytes, codes, c_string}
use network_ex.Common.Words.{ntohl}
use network_ex.Common.Int.{ℤ, pos, negsuc}
use network_ex.FileService.Disk.{Files, put, OpenFile, opened, write_at, Answers}
use network_ex.FileService.Query.{
  Cquery, at_memory, overlay, max_line, q_upload, q_download, q_list,
}

-- A column of a row of `file_info`: its name, and its value or NULL.
abbrev pub Column : Type 0
Column = Bytes × Option Bytes

-- What the server takes from outside: the answers of `write` and `send`, the outcome of
-- `sqlite3_open` and of `sqlite3_exec` with the rows that it calls back with, and the memory of
-- locals that are read before they are set.
pub record World : Type 0 where
  pub disk : Answers
  pub socket : Answers
  pub db_opens : Bool
  pub rows : List (List Column)
  pub exec_works : Bool
  pub stack : Bytes
  pub old_sendn : ℤ

-- What a connection leaves: the value returned, the files, and the bytes of each `send`.
pub record Served : Type 0 where
  pub ret : ℤ
  pub files : Files
  pub sent : List Bytes

abbrev pub minus_one : ℤ
minus_one = negsuc 0

-- The loop of `serv_file_upload`: each block that arrives is written, until the stream ends or a
-- `write` fails. A short `write` is not noticed.
unfoldable pub store_chunks : Answers → ℕ → List (Option Bytes) → OpenFile → OpenFile
store_chunks disk k [] f = f
store_chunks disk k (none ∷ rest) f = f
store_chunks disk k (some [] ∷ rest) f = f
store_chunks disk k (some (b ∷ bs) ∷ rest) f = elim (disk k (length (b ∷ bs))) [
  | none ↦ f
  | some n ↦ store_chunks disk (k + 1) rest (write_at f (take n (b ∷ bs)))
]

unfoldable pub serv_file_upload : World → Files → List (Option Bytes) → Bytes → Served
unfolding store_chunks
serv_file_upload w files incoming filename = elim (files filename) [
  | none ↦ record { ret = minus_one; files = files; sent = [] }
  | some old ↦ record {
    ret = if w.db_opens then pos 1 else minus_one;
    files = put files filename (store_chunks w.disk 0 incoming (opened old)).content;
    sent = [];
  }
]

-- What the loop of `serv_file_download` leaves in `sendn`, and what it sent.
pub record Sending : Type 0 where
  pub sendn : ℤ
  pub blocks : List Bytes

-- The loop of `serv_file_download` over what is left of the file, MAXLINE bytes at a time. Every
-- round but the last takes a byte, so the length of the file and one is fuel enough.
unfoldable pub send_chunks : Answers → ℕ → ℕ → Bytes → ℤ → Sending
send_chunks socket zero k rest sendn = record { sendn = sendn; blocks = [] }
send_chunks socket (suc fuel) k [] sendn = record { sendn = sendn; blocks = [] }
send_chunks socket (suc fuel) k (b ∷ rest) sendn =
    let chunk = take max_line (b ∷ rest) in
    elim (socket k (length chunk)) [
      | none ↦ record { sendn = minus_one; blocks = [] }
      | some n ↦
          let more = send_chunks socket fuel (k + 1) (drop max_line (b ∷ rest)) (pos n) in
          record { sendn = more.sendn; blocks = take n chunk ∷ more.blocks }
    ]

abbrev pub is_minus_one : ℤ → Bool
is_minus_one (negsuc zero) = true
is_minus_one _ = false

unfoldable pub serv_file_download : World → Files → Bytes → Served
unfolding send_chunks
serv_file_download w files filename = elim (files filename) [
  | none ↦ record { ret = minus_one; files = files; sent = [] }
  | some content ↦
      let out = send_chunks w.socket (length content + 1) 0 content w.old_sendn in
      record {
        ret = if is_minus_one out.sendn then minus_one else pos 1;
        files = files;
        sent = out.blocks;
      }
]

abbrev newline : ℕ
newline = 10

-- LOWER_BOUNDER
abbrev pub lower_bounder : Bytes
lower_bounder = codes "========================================="

abbrev pub value_or_null : Option Bytes → Bytes
value_or_null none = codes "NULL"
value_or_null (some v) = v

-- "%10s = %s\n"
unfoldable pub column_line : Column → Bytes
column_line (name, value) =
    (replicate (10 - length name) b' ' ++ name)
    ++ (codes " = " ++ (value_or_null value ++ newline ∷ []))

-- `callback` for one row: the lines that it hands to `send`. `none` where a line with its NUL does
-- not fit `buf`.
unfoldable pub callback : List Column → Option (List Bytes)
unfolding column_line
callback [] = some ((lower_bounder ++ newline ∷ []) ∷ [])
callback (c ∷ cs) =
    let rest = callback cs in
    if ltb (length (column_line c)) max_line
    then Option.map (λ lines. column_line c ∷ lines) rest
    else none

-- `sqlite3_exec` calls back once for each row, since `callback` returns 0.
unfoldable pub callbacks : List (List Column) → Option (List Bytes)
unfolding callback
callbacks [] = some []
callbacks (row ∷ rows) =
    let rest = callbacks rows in
    elim (callback row) [ none ↦ none | some lines ↦ Option.map (λ more. lines ++ more) rest ]

-- What the k-th `send` and those after it take of the lines; no answer is looked at.
unfoldable pub hand_over : Answers → ℕ → List Bytes → List Bytes
hand_over socket k [] = []
hand_over socket k (line ∷ lines) =
    elim (socket k (length line)) [ none ↦ [] | some n ↦ take n line ]
    ∷ hand_over socket (k + 1) lines

unfoldable pub serv_file_list : World → Files → Option Served
unfolding callbacks hand_over
serv_file_list w files =
    if w.db_opens
    then Option.map
        (λ lines. record { ret = pos 1; files = files; sent = hand_over w.socket 0 lines })
        (callbacks w.rows)
    else some (record { ret = minus_one; files = files; sent = [] })

abbrev pub returns_one : Served → Served
returns_one s = record s { ret = pos 1 }

-- The switch of `proc`, which ignores what the handler returns. An upload or a download opens the C
-- string in `f_name`; `none` where the array has no NUL.
unfoldable pub dispatch : World → Files → List (Option Bytes) → Cquery → Option Served
unfolding serv_file_upload serv_file_download serv_file_list
dispatch w files incoming query =
    let command = ntohl query.command in
    if command == q_upload
    then Option.map (λ name. returns_one (serv_file_upload w files incoming name))
        (c_string query.f_name)
    else if command == q_download
    then Option.map (λ name. returns_one (serv_file_download w files name)) (c_string query.f_name)
    else if command == q_list
    then Option.map returns_one (serv_file_list w files)
    else some (record { ret = pos 1; files = files; sent = [] })

-- `proc`: one request, from the first block that arrives; the other blocks are left for the handler.
unfoldable pub proc : World → Files → List (Option Bytes) → Option Served
unfolding dispatch
proc w files (some (b ∷ bs) ∷ rest) = dispatch w files rest (at_memory (overlay (b ∷ bs) w.stack))
proc w files _ = some (record { ret = minus_one; files = files; sent = [] })
