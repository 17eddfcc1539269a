-- ===== src/Shell/Loop.antt =====
-- The loop of 10_proc/myshell/main.c over the bytes of its standard input.
use mathlib.Core.Option
use network_ex.Common.{
  ℕ, zero, suc, ◌+◌, Option, none, some, List, [], ◌∷◌, ◌++◌, Bool, true, false, take, ◌>>=◌,
  if◌then◌else◌,
}
use network_ex.Common.Bytes.{Bytes, codes, c_string, filled, bytes_eq}
use network_ex.Common.Fgets.{take_line}

-- MAX_LINE
abbrev pub buf_size : ℕ
buf_size = 256

-- The most bytes that `fgets(buf, MAX_LINE-1, stdin)` stores before the NUL.
abbrev pub line_max : ℕ
line_max = 254

-- `strncmp(buf, "quit\n", 5) == 0`
abbrev pub is_quit : Bytes → Bool
is_quit buf = bytes_eq (take 5 buf) (codes "quit" ++ 10 ∷ [])

-- `chop` on the string in `buf`: the last byte goes. `none` for the empty string, where the NUL is
-- written before the array.
unfoldable pub chop : Bytes → Option Bytes
chop [] = none
chop (b ∷ []) = some []
chop (b ∷ c ∷ s) = Option.map (λ t. b ∷ t) (chop (c ∷ s))

-- How some rounds of the shell come out: "quit" ends it, a round writes before the array, or it is
-- still in its loop.
pub data Ending : Type 0 where
  quits overruns goes_on : Ending

-- The paths that children were made for, each of which runs it or ends, in order, and how it came out.
pub record Run : Type 0 where
  pub commands : List Bytes
  pub ending : Ending

abbrev pub ends : Ending → Run
ends ending = record { commands = []; ending = ending }

abbrev pub then_command : Bool → Bytes → Run → Run
then_command true path r = record r { commands = path ∷ r.commands }
then_command false path r = r

-- The round on the string in `buf`, whose last byte is to go, and the rounds behind it.
abbrev pub on_path : Bool → Option Bytes → Run → Run
on_path forks none more = ends overruns
on_path forks (some path) more = then_command forks path more

-- A round on the cleared buffer with what `fgets` stored, and the rounds behind it. What is stored
-- leaves room for a NUL, so the buffer holds a string.
abbrev pub on_line : Bool → Bytes → Run → Run
on_line forks line more =
    if is_quit (filled buf_size line)
    then ends quits
    else on_path forks (c_string (filled buf_size line) >>= chop) more

-- Some rounds of the loop, with the outcome of each `fork`. At the end of the input `fgets` stores
-- nothing, and the round goes on.
unfoldable pub shell_loop : (ℕ → Bool) → ℕ → ℕ → Bytes → Run
shell_loop forks zero k input = ends goes_on
shell_loop forks (suc rounds) k input =
    let (line, rest) = take_line line_max input in
    let more = shell_loop forks rounds (k + 1) rest in on_line (forks k) line more
