-- ===== src/FileService/List.antt =====
-- A listing, from the rows of the server's database to what the client prints.
use mathlib.Core.Path.{subst}
use mathlib.Core.Option
use mathlib.Core.List.{append_assoc}
use network_ex.Common.{
  ℕ, zero, suc, ◌+◌, ◌-◌, ◌<◌, ◌≡◌, ◌≢◌, refl, sym, ap, ◌∙◌, Option, none, some, List, [], ◌∷◌,
  ◌++◌, true, All, All-append, concat, length, take_all, replicate, lt→ltb, arith,
}
use network_ex.Common.Bytes.{Bytes, NulFree, codes, filled, c_string-filled}
use network_ex.Common.Int.{pos}
use network_ex.FileService.Disk.{Files, Answers, Full, received}
use network_ex.FileService.Query.{memory, name_size, max_line, q_list}
use network_ex.FileService.Request.{query_of}
use network_ex.FileService.Server.{
  Column, World, Served, lower_bounder, value_or_null, column_line, callback, callbacks, hand_over,
  serv_file_list, proc, returns_one,
}
use network_ex.FileService.Client.{print_chunks, Listing, get_list}
use network_ex.FileService.Dispatch.{proc-list}

-- A column whose line leaves room for its NUL in the buffer of `callback`.
pub record IsColumn (c : Column) : Type 0 where
  pub name_text : NulFree c.0
  pub value_text : NulFree (value_or_null c.1)
  pub fits : length (column_line c) < max_line

-- The text of a row, and of all rows.
abbrev pub row_text : List Column → Bytes
row_text [] = lower_bounder ++ 10 ∷ []
row_text (c ∷ cs) = column_line c ++ row_text cs

abbrev pub listing_text : List (List Column) → Bytes
listing_text [] = []
listing_text (row ∷ rows) = row_text row ++ listing_text rows

-- The client reads a block that does not fill its buffer.
abbrev pub IsShort : Option Bytes → Type 0
IsShort none = Unit {0}
IsShort (some block) = length block < max_line

callback-text :
    (row : List Column)
    → All IsColumn row
    → (lines : List Bytes) × (callback row ≡ some lines) × (concat lines ≡ row_text row)
unfolding callback
callback-text [] h = (_, refl, refl)
callback-text (c ∷ cs) h =
    let (lines, e, same) = callback-text cs h.1 in
    (column_line c ∷ lines, rw (lt→ltb _ _ h.0.fits, e) refl, ap (λ l. column_line c ++ l) same)

concat-append : (xs ys : List Bytes) → concat (xs ++ ys) ≡ concat xs ++ concat ys
concat-append [] ys = refl
concat-append (x ∷ xs) ys =
    ap (λ l. x ++ l) (concat-append xs ys) ∙ sym (append_assoc x (concat xs) (concat ys))

pub callbacks-text :
    (rows : List (List Column))
    → All (All IsColumn) rows
    → (lines : List Bytes) × (callbacks rows ≡ some lines) × (concat lines ≡ listing_text rows)
unfolding callbacks
callbacks-text [] h = ([], refl, refl)
callbacks-text (row ∷ rows) h =
    let (first, e, same) = callback-text row h.0 in
    let (others, e', same') = callbacks-text rows h.1 in
    (
      first ++ others,
      ground (arith, e, e'),
      concat-append first others
          ∙ ap (λ l. l ++ concat others) same
          ∙ ap (λ l. row_text row ++ l) same',
    )

hand_over-Full :
    (socket : Answers)
    → Full socket
    → (k : ℕ) (lines : List Bytes) → hand_over socket k lines ≡ lines
unfolding hand_over
hand_over-Full socket full k [] = refl
hand_over-Full socket full k (line ∷ lines) = ground (
  arith,
  full k (length line),
  take_all (length line) line refl,
  hand_over-Full socket full (k + 1) lines,
)

replicate-NulFree : (n : ℕ) → NulFree (replicate n b' ')
replicate-NulFree zero = tt
replicate-NulFree (suc n) = (omega arith, replicate-NulFree n)

column_line-NulFree : (c : Column) → IsColumn c → NulFree (column_line c)
unfolding column_line
column_line-NulFree (name, value) h =
    All-append (λ b. b ≢ 0) (replicate (10 - length name) b' ' ++ name) _
      (All-append (λ b. b ≢ 0) (replicate (10 - length name) b' ') name
        (replicate-NulFree (10 - length name)) h.name_text)
      (All-append (λ b. b ≢ 0) (codes " = ") (value_or_null value ++ 10 ∷ []) (omega arith)
        (All-append (λ b. b ≢ 0) (value_or_null value) (10 ∷ []) h.value_text (omega arith)))

row_text-NulFree : (row : List Column) → All IsColumn row → NulFree (row_text row)
row_text-NulFree [] h = omega arith
row_text-NulFree (c ∷ cs) h =
    All-append (λ b. b ≢ 0) (column_line c) (row_text cs) (column_line-NulFree c h.0)
      (row_text-NulFree cs h.1)

listing_text-NulFree :
    (rows : List (List Column)) → All (All IsColumn) rows → NulFree (listing_text rows)
listing_text-NulFree [] h = tt
listing_text-NulFree (row ∷ rows) h =
    All-append (λ b. b ≢ 0) (row_text row) (listing_text rows) (row_text-NulFree row h.0)
      (listing_text-NulFree rows h.1)

All-split : (xs ys : Bytes) → NulFree (xs ++ ys) → NulFree xs × NulFree ys
All-split [] ys h = (tt, h)
All-split (x ∷ xs) ys h = let (left, right) = All-split xs ys h.1 in ((h.0, left), right)

-- Text in blocks that do not fill the buffer is printed as it is.
print_chunks-text :
    (incoming : List (Option Bytes))
    → All IsShort incoming
    → NulFree (received incoming)
    → (texts : List Bytes) × (print_chunks incoming ≡ some texts)
      × (concat texts ≡ received incoming)
unfolding print_chunks
print_chunks-text [] h n = ([], refl, refl)
print_chunks-text (none ∷ rest) h n = ([], refl, refl)
print_chunks-text (some [] ∷ rest) h n = ([], refl, refl)
print_chunks-text (some (b ∷ bs) ∷ rest) h n =
    let (block, others) = All-split (b ∷ bs) (received rest) n in
    let (texts, e, same) = print_chunks-text rest h.1 others in
    (
      (b ∷ bs) ∷ texts,
      ground (arith, c_string-filled max_line (b ∷ bs) block h.0, e),
      ap (λ l. (b ∷ bs) ++ l) same,
    )

get_list-text :
    (socket : Answers) (incoming : List (Option Bytes)) (texts : List Bytes)
    → Full socket
    → print_chunks incoming ≡ some texts
    → get_list socket incoming
      ≡ some (record { sent = memory (query_of q_list []) ∷ []; printed = texts })
unfolding get_list
get_list-text socket incoming texts full e = ground (
  arith,
  full 0 (length (memory (query_of q_list []))),
  e,
  take_all (length (filled name_size [])) (filled name_size []) refl,
)

pub serv_file_list-text :
    (w : World) (files : Files) (lines : List Bytes)
    → Full w.socket
    → w.db_opens ≡ true
    → callbacks w.rows ≡ some lines
    → serv_file_list w files ≡ some (record { ret = pos 1; files = files; sent = lines })
unfolding serv_file_list
serv_file_list-text w files lines full opens e =
    ground (arith, opens, e, hand_over-Full w.socket full 0 lines)

-- A listing from end to end, where every `send` takes all that it is given, the database opens, its
-- rows hold C strings, and each of their lines leaves room for a NUL in the buffer: the server answers
-- the client's request with the text of the rows, a line for each column and a border behind each row,
-- and changes no file; and a client that receives that text, cut into whatever blocks that do not fill
-- its buffer, prints it.
pub list_end_to_end :
    (socket : Answers) (w : World) (files : Files) (incoming : List (Option Bytes))
    → Full socket
    → Full w.socket
    → w.db_opens ≡ true
    → All (All IsColumn) w.rows
    → received incoming ≡ listing_text w.rows
    → All IsShort incoming
    → (request : Bytes) × (served : Served) × (listing : Listing) × (proc w files
          (some request ∷ [])
        ≡ some served)
      × (served.files ≡ files)
      × (concat served.sent ≡ listing_text w.rows)
      × (get_list socket incoming ≡ some listing)
      × (listing.sent ≡ request ∷ [])
      × (concat listing.printed ≡ listing_text w.rows)
list_end_to_end socket w files incoming full_s full_w opens columns same short =
    let (lines, called, text) = callbacks-text w.rows columns in
    let no_nul : NulFree (received incoming) =
      subst NulFree (sym same) (listing_text-NulFree w.rows columns) in
    let (texts, prints, printed) = print_chunks-text incoming short no_nul in
    (
      memory (query_of q_list []),
      record { ret = pos 1; files = files; sent = lines },
      record { sent = memory (query_of q_list []) ∷ []; printed = texts },
      proc-list w files [] [] tt (omega arith)
          ∙ ap (Option.map returns_one) (serv_file_list-text w files lines full_w opens called),
      refl,
      text,
      get_list-text socket incoming texts full_s prints,
      refl,
      printed ∙ same,
    )
