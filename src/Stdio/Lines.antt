-- ===== src/Stdio/Lines.antt =====
-- 12_recv_send/echo_server_stdio/main.c: lines through `fgets` and `fputs`.
use network_ex.Common.{
  ℕ, zero, suc, ◌+◌, Option, none, some, List, [], ◌∷◌, ◌++◌, Bool, true, false, length, ltb, ◌==◌,
  if◌then◌else◌,
}
use network_ex.Common.Bytes.{Bytes, c_string}
use network_ex.Common.Fgets.{take_line}

-- The most bytes that `fgets(buf, MAXBUF-1, sock_fp)` stores before the NUL.
abbrev pub line_max : ℕ
line_max = 254

-- What was last done with the stream: nothing, a read, which may have met the end, or a write.
pub data Last : Type 0 where
  opened : Last
  took : (met_end : Bool) → Last
  put : Last

abbrev pub may_read : Last → Bool
may_read put = false
may_read last = true

abbrev pub may_write : Last → Bool
may_write (took false) = false
may_write last = true

-- How some rounds on a connection come out.
pub data Ending : Type 0 where
  closed undefined goes_on : Ending

-- The strings given to `fputs` with success, and how it came out.
pub record Talk : Type 0 where
  pub echoed : List Bytes
  pub ending : Ending

abbrev pub ends : Ending → Talk
ends ending = record { echoed = []; ending = ending }

-- `fputs` after a read, with the C string in `buf` and its outcome, and the rounds behind it.
abbrev pub on_text : Last → Bool → Option Bytes → Talk → Talk
on_text last works none more = ends undefined
on_text last works (some text) more =
    if may_write last
    then if works then record more { echoed = text ∷ more.echoed } else ends closed
    else ends undefined

-- Whether a line has a newline.
abbrev pub has_newline : Bytes → Bool
has_newline [] = false
has_newline (b ∷ s) = let more = has_newline s in if b == 10 then true else more

-- `fgets` meets the end where it has neither a newline nor all the bytes that it asks for.
abbrev pub meets_end : Bytes → Bool
meets_end line = if has_newline line then false else ltb (length line) line_max

-- Some rounds of the inner loop, on the bytes that the stream holds up to its end, with the outcome of
-- each `fputs`.
unfoldable pub echo_lines : (ℕ → Bool) → ℕ → ℕ → Last → Bytes → Talk
echo_lines puts zero k last s = ends goes_on
echo_lines puts (suc rounds) k last [] = if may_read last then ends closed else ends undefined
echo_lines puts (suc rounds) k last (b ∷ s) =
    let (line, rest) = take_line line_max (b ∷ s) in
    let more = echo_lines puts rounds (k + 1) put rest in
    if may_read last
    then on_text (took (meets_end line)) (puts k) (c_string (line ++ 0 ∷ [])) more
    else ends undefined
