-- ===== src/SelectDemo/Files.antt =====
-- 13_Select/myselect/main.c: `main` and `ReadLine`.
use network_ex.Common.{
  ℕ, zero, suc, ◌+◌, Option, none, some, List, [], ◌∷◌, ◌++◌, Bool, true, false, length, take, drop,
  ltb, if◌then◌else◌,
}
use network_ex.Common.Bytes.{Bytes, codes, c_string, filled}
use network_ex.Common.Decimal.{decimal}

-- MAX_LINE
abbrev pub max_line : ℕ
max_line = 1024

-- "(%d) -> " with the number of a descriptor.
abbrev pub mark : ℕ → Bytes
mark i = codes "(" ++ (decimal i ++ codes ") -> ")

abbrev pub then_line : Option Bytes → Option (List Bytes) → Option (List Bytes)
then_line none more = none
then_line (some text) none = none
then_line (some text) (some lines) = some (text ∷ lines)

abbrev pub with_mark : ℕ → Option Bytes → Option Bytes
with_mark i none = none
with_mark i (some text) = some (mark i ++ text)

-- After a `read`: the last one is the one that gives fewer bytes than it was asked for.
abbrev pub then_read : Bool → Option Bytes → Option (List Bytes) → Option (List Bytes)
then_read true text more = then_line text (some [])
then_read false text more = then_line text more

-- The loop on one descriptor, with the bytes that it gives before a `read` gives fewer than it was
-- asked for; there are none where `read` fails. `none` where the fuel runs out.
unfoldable pub show_file : ℕ → ℕ → Bytes → Option (List Bytes)
show_file zero i content = none
show_file (suc fuel) i content =
    let more = show_file fuel i (drop 1023 content) in
    let block = take 1023 content in
    then_read (ltb (length block) 1023) (with_mark i (c_string (filled max_line block))) more

abbrev pub then_lines : Option (List Bytes) → Option (List Bytes) → Option (List Bytes)
then_lines none more = none
then_lines (some lines) none = none
then_lines (some lines) (some more) = some (lines ++ more)

-- `ReadLine` on the `n` descriptors from `i` on, of which `select` has left the ready ones in the set.
-- Every loop is given the length of the content and one as its fuel.
unfoldable pub read_line : (ℕ → Bool) → (ℕ → Bytes) → ℕ → ℕ → Option (List Bytes)
read_line ready content zero i = some []
read_line ready content (suc n) i =
    let more = read_line ready content n (i + 1) in
    if ready i then then_lines (show_file (length (content i) + 1) i (content i)) more else more

-- What `select` leaves in the set, and what the descriptors then give.
pub record Round : Type 0 where
  pub ready : ℕ → Bool
  pub content : ℕ → Bytes

-- How `main` comes out: with 1 where the file does not open, or with what it has printed so far.
pub data Outcome : Type 0 where
  returns_one : Outcome
  prints : List Bytes → Outcome

unfoldable pub rounds_of : ℕ → List Round → Option (List Bytes)
rounds_of maxfd [] = some []
rounds_of maxfd (r ∷ rest) =
    then_lines (read_line r.ready r.content (maxfd + 1) 0) (rounds_of maxfd rest)

abbrev pub printed_of : Option (List Bytes) → Option Outcome
printed_of none = none
printed_of (some lines) = some (prints lines)

-- `main` after the message that names the file. The loop over the arguments ends before the second
-- of them, so `maxfd` is the descriptor of the one file that is opened.
unfoldable pub myselect_main : Option ℕ → List Round → Option Outcome
myselect_main none rounds = some returns_one
myselect_main (some tfd) rounds = printed_of (rounds_of tfd rounds)
