-- ===== src/Shell/Commands.antt =====
-- What the shell runs.
use mathlib.Core.List.{append_assoc, append-nil}
use network_ex.Common.{
  ℕ, zero, suc, ◌+◌, ◌<◌, ◌≡◌, ◌≢◌, refl, ap, ◌∙◌, some, List, [], ◌∷◌, ◌++◌, Bool, true, false,
  All, All-append, length, length-append, sym, if◌then◌else◌, arith,
}
use network_ex.Common.Bytes.{Bytes, NulFree, codes, c_string, filled, c_string-filled}
use network_ex.Common.Fgets.{take_line, take_line-line}
use network_ex.Shell.Loop.{
  buf_size, line_max, is_quit, chop, Ending, quits, overruns, Run, ends, then_command, on_line,
  shell_loop,
}

-- A path that is typed: no newline and no NUL, with room for the newline and a NUL, and not the word
-- that ends the shell.
pub record IsPath (path : Bytes) : Type 0 where
  pub one_line : All (λ b. b ≢ 10) path
  pub no_nul : NulFree path
  pub room : length path < line_max
  pub no_quit : is_quit (filled buf_size (path ++ 10 ∷ [])) ≡ false

abbrev pub typed : List Bytes → Bytes
typed [] = []
typed (path ∷ paths) = path ++ 10 ∷ typed paths

-- The paths whose `fork` works, where the first of them has the number `k`.
abbrev pub forked : (ℕ → Bool) → ℕ → List Bytes → List Bytes
forked forks k [] = []
forked forks k (path ∷ paths) =
    let more = forked forks (k + 1) paths in if forks k then path ∷ more else more

chop-append : (s : Bytes) (b : ℕ) → chop (s ++ b ∷ []) ≡ some s
unfolding chop
chop-append [] b = refl
chop-append (c ∷ []) b = refl
chop-append (c ∷ d ∷ s) b = ground (arith, chop-append (d ∷ s) b)

on_line-path :
    (forks : Bool) (path : Bytes) (more : Run)
    → IsPath path
    → on_line forks (path ++ 10 ∷ []) more ≡ then_command forks path more
on_line-path forks path more h =
    let text : c_string (filled buf_size (path ++ 10 ∷ [])) ≡ some (path ++ 10 ∷ []) =
      c_string-filled buf_size (path ++ 10 ∷ [])
        (All-append (λ b. b ≢ 0) path (10 ∷ []) h.no_nul (omega arith))
        (omega (arith, h.room, length-append path (10 ∷ []))) in
    rw (h.no_quit, text, chop-append path 10) refl

shell_loop-path :
    (forks : ℕ → Bool) (rounds k : ℕ) (path rest : Bytes)
    → IsPath path
    → shell_loop forks (suc rounds) k (path ++ 10 ∷ rest)
      ≡ then_command (forks k) path (shell_loop forks rounds (k + 1) rest)
unfolding shell_loop
shell_loop-path forks rounds k path rest h =
    ap (λ (p : Bytes × Bytes). on_line (forks k) p.0 (shell_loop forks rounds (k + 1) p.1))
      (take_line-line line_max path rest h.one_line h.room)
    ∙ on_line-path (forks k) path (shell_loop forks rounds (k + 1) rest) h

abbrev pub quit_line : Bytes
quit_line = codes "quit" ++ 10 ∷ []

shell_loop-quit :
    (forks : ℕ → Bool) (rounds k : ℕ) (rest : Bytes)
    → shell_loop forks (suc rounds) k (quit_line ++ rest) ≡ ends quits
unfolding shell_loop take_line
shell_loop-quit forks rounds k rest = refl

shell_loop-end :
    (forks : ℕ → Bool) (rounds k : ℕ) → shell_loop forks (suc rounds) k [] ≡ ends overruns
unfolding shell_loop take_line c_string chop
shell_loop-end forks rounds k = refl

typed-append :
    (path : Bytes) (paths : List Bytes) (rest : Bytes)
    → typed (path ∷ paths) ++ rest ≡ path ++ 10 ∷ (typed paths ++ rest)
typed-append path paths rest = append_assoc path (10 ∷ typed paths) rest

then_command-more :
    (works : Bool) (path : Bytes) (paths : List Bytes) (ending : Ending)
    → then_command works path (record { commands = paths; ending = ending })
      ≡ record { commands = if works then path ∷ paths else paths; ending = ending }
then_command-more true path paths ending = refl
then_command-more false path paths ending = refl

-- Paths, and then some input whose first round ends the shell.
shell_loop-typed :
    (forks : ℕ → Bool) (paths : List Bytes) (rest : Bytes) (ending : Ending) (rounds k : ℕ)
    → ((n j : ℕ) → shell_loop forks (suc n) j rest ≡ ends ending)
    → All IsPath paths
    → length paths < rounds
    → shell_loop forks rounds k (typed paths ++ rest)
      ≡ record { commands = forked forks k paths; ending = ending }
shell_loop-typed forks paths rest ending zero k last h enough = absurd (omega arith)
shell_loop-typed forks [] rest ending (suc rounds) k last h enough = last rounds k
shell_loop-typed forks (path ∷ paths) rest ending (suc rounds) k last h enough =
    ap (shell_loop forks (suc rounds) k) (typed-append path paths rest)
    ∙ shell_loop-path forks rounds k path (typed paths ++ rest) h.0
    ∙ ap (then_command (forks k) path)
        (shell_loop-typed forks paths rest ending rounds (k + 1) last h.1 (omega arith))
    ∙ then_command-more (forks k) path (forked forks (k + 1) paths) ending

-- Lines with paths that have no newline and no NUL, leave room for the newline and a NUL and are not
-- "quit", and more rounds than paths. In both cases the shell has made a child for each path, in order,
-- where `fork` works. If "quit" follows, whatever comes behind it, it then ends. If nothing follows, it
-- then writes the byte before its array.
pub shell_runs :
    (forks : ℕ → Bool) (paths : List Bytes) (rest : Bytes) (rounds : ℕ)
    → All IsPath paths
    → length paths < rounds
    → (shell_loop forks rounds 0 (typed paths ++ (quit_line ++ rest))
        ≡ record { commands = forked forks 0 paths; ending = quits })
      × (shell_loop forks rounds 0 (typed paths)
          ≡ record { commands = forked forks 0 paths; ending = overruns })
shell_runs forks paths rest rounds h enough = (
  shell_loop-typed forks paths (quit_line ++ rest) quits rounds 0
      (λ n j. shell_loop-quit forks n j rest) h enough,
  ap (shell_loop forks rounds 0) (sym (append-nil (typed paths)))
      ∙ shell_loop-typed forks paths [] overruns rounds 0 (λ n j. shell_loop-end forks n j) h
          enough,
)
