-- ===== src/SelectDemo/Prompt.antt =====
-- 13_Select/prompt_timeout/main.c: the loop of `main`.
use network_ex.Common.{
  ℕ, Option, none, some, List, [], ◌∷◌, ◌++◌, Bool, true, false, take, if◌then◌else◌,
}
use network_ex.Common.Bytes.{Bytes, codes, c_string, filled, bytes_eq}

-- MAX_LINE
abbrev pub max_line : ℕ
max_line = 80

-- What a call of `select` comes to: the five seconds go by, or something else, and then a `read` of up to
-- 79 bytes, which is `none` where it fails.
pub data Event : Type 0 where
  timed_out : Event
  reads : Option Bytes → Event

-- `strncmp(rbuf, "quit\n", 5) == 0`
abbrev pub is_quit : Bytes → Bool
is_quit rbuf = bytes_eq (take 5 rbuf) (codes "quit" ++ 10 ∷ [])

-- `rbuf`, which is cleared before.
abbrev pub rbuf_of : Option Bytes → Bytes
rbuf_of none = filled max_line []
rbuf_of (some block) = filled max_line block

abbrev pub time_out_text : Bytes
time_out_text = 10 ∷ codes "Error :  Time out" ++ 10 ∷ []

abbrev pub message_text : Bytes → Bytes
message_text text = codes "Your Message : " ++ text

-- What was printed behind each prompt but the last, and whether `main` has returned.
pub record Prompted : Type 0 where
  pub printed : List Bytes
  pub returned : Bool

abbrev pub then_printed : Option Bytes → Option Prompted → Option Prompted
then_printed none more = none
then_printed (some text) none = none
then_printed (some text) (some p) = some (record p { printed = text ∷ p.printed })

abbrev pub on_block : Bytes → Option Prompted → Option Prompted
on_block rbuf more =
    if is_quit rbuf then some (record { printed = []; returned = true }) else elim (c_string rbuf) [
      | none ↦ none
      | some text ↦ then_printed (some (message_text text)) more
    ]

unfoldable pub prompt_loop : List Event → Option Prompted
prompt_loop [] = some (record { printed = []; returned = false })
prompt_loop (timed_out ∷ rest) = then_printed (some time_out_text) (prompt_loop rest)
prompt_loop (reads block ∷ rest) = on_block (rbuf_of block) (prompt_loop rest)
