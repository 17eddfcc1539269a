-- ===== src/Multicast/Channel.antt =====
-- 23_multi_cast/chat_multi_casting/main.c: the setup, the process that reads and the one that sends.
use network_ex.Common.{
  ℕ, zero, suc, Option, none, some, List, [], ◌∷◌, ◌++◌, Bool, true, false, ◌||◌, length, take, ltb,
  if◌then◌else◌,
}
use network_ex.Common.Bytes.{Bytes, codes, c_string, filled, bytes_eq}

-- MAXLINE
abbrev pub line_size : ℕ
line_size = 1024

abbrev pub name_size : ℕ
name_size = 16

-- `msg_exit`
abbrev pub msg_exit : Bytes
msg_exit = codes "exit" ++ 10 ∷ []

-- What `fork` answers.
pub data Forked : Type 0 where
  failed child parent : Forked

-- The answers of the calls. What is asked of a descriptor is answered by its number.
pub record Kernel : Type 0 where
  pub first_socket : Option ℕ
  pub joins : ℕ → Bool
  pub reuses : ℕ → Bool
  pub binds : ℕ → Bool
  pub second_socket : Option ℕ
  pub forks : Forked
  pub leaves : ℕ → Bool
  pub receives : ℕ → List (Option Bytes)
  pub typed : List (Option Bytes)

-- `strstr(message, text) != NULL`
unfoldable pub contains : Bytes → Bytes → Bool
contains text [] = bytes_eq text []
contains text (b ∷ s) = bytes_eq (take (length text) (b ∷ s)) text || contains text s

-- What the child printed of what came, and whether it has returned; the text of an error is left out.
pub record Heard : Type 0 where
  pub printed : List Bytes
  pub returned : Bool

abbrev pub then_printed : Bytes → Option Heard → Option Heard
then_printed text none = none
then_printed text (some h) = some (record h { printed = text ∷ h.printed })

-- The rest of a round of the child, on the string in `message`.
abbrev pub on_message : Bool → Bytes → Option Heard → Option Heard
on_message leaves text more =
    if contains msg_exit text
    then if leaves
      then then_printed text (then_printed (codes "EXIT" ++ 10 ∷ []) more)
      else some (record { printed = text ∷ (codes "EXIT" ++ 10 ∷ []) ∷ []; returned = true })
    else then_printed text more

-- The loop of the child. Every answer of `recvfrom` but 0 ends it, -1 and a number of bytes alike.
unfoldable pub child_loop : Bool → List (Option Bytes) → Option Heard
child_loop leaves [] = some (record { printed = []; returned = false })
child_loop leaves (none ∷ rest) = some (record { printed = []; returned = true })
child_loop leaves (some (b ∷ bs) ∷ rest) = some (record { printed = []; returned = true })
child_loop leaves (some [] ∷ rest) =
    let more = child_loop leaves rest in
    elim (c_string (filled line_size [])) [ none ↦ none | some text ↦ on_message leaves text more ]

-- The loop of the parent: what it has sent. `sprintf` reads `message` while it writes it, which is
-- undefined for every line.
unfoldable pub parent_loop : List (Option Bytes) → Option (List Bytes)
parent_loop [] = some []
parent_loop (line ∷ rest) = none

-- How `main` comes out.
pub data Outcome : Type 0 where
  returns_one : Outcome
  reading : Heard → Outcome
  sending : List Bytes → Outcome

abbrev pub as_child : Option Heard → Option Outcome
as_child none = none
as_child (some h) = some (reading h)

abbrev pub as_parent : Option (List Bytes) → Option Outcome
as_parent none = none
as_parent (some sent) = some (sending sent)

-- `read_fd` is what `socket(...) < 0` gives: 1 where `socket` fails, and 0 where it does not.
abbrev pub read_fd : Option ℕ → ℕ
read_fd none = 1
read_fd (some fd) = 0

-- After `fork`.
abbrev pub forked : Kernel → ℕ → Forked → Option Outcome
forked k fd failed = some returns_one
forked k fd child = as_child (child_loop (k.leaves fd) (k.receives fd))
forked k fd parent = as_parent (parent_loop k.typed)

-- After the first `socket`.
abbrev pub set_up : Kernel → ℕ → Option Outcome
set_up k (suc fd) = some returns_one
set_up k zero =
    if k.joins 0
    then if k.reuses 0
      then if k.binds 0
        then elim k.second_socket [ none ↦ some returns_one | some send_fd ↦ forked k 0 k.forks ]
        else some returns_one
      else some returns_one
    else some returns_one

-- `main` with its third argument, from the copy of it on; `none` where it does not fit `name`, and
-- where a loop is undefined.
unfoldable pub multicast_main : Bytes → Kernel → Option Outcome
multicast_main arg k =
    if ltb (length arg) name_size then set_up k (read_fd k.first_socket) else none
