-- ===== src/Shell/Examples.antt =====
-- Two paths for the shell, and the first `fork` fails.
use network_ex.Common.{ℕ, ◌≡◌, refl, [], ◌∷◌, ◌++◌, Bool, ltb, arith}
use network_ex.Common.Bytes.{Bytes, codes}
use network_ex.Shell.Loop.{shell_loop, quits, overruns}
use network_ex.Shell.Commands.{IsPath, typed, quit_line, shell_runs}

abbrev forks : ℕ → Bool
forks k = ltb 0 k

abbrev ls : Bytes
ls = codes "/bin/ls"

ls-IsPath : IsPath ls
ls-IsPath = record {
  one_line = omega arith;
  no_nul = omega arith;
  room = omega arith;
  no_quit = refl;
}

shell_runs_example :
    (shell_loop forks 4 0 (typed (ls ∷ ls ∷ []) ++ (quit_line ++ ls))
      ≡ record { commands = ls ∷ []; ending = quits })
    × (shell_loop forks 4 0 (typed (ls ∷ ls ∷ []))
        ≡ record { commands = ls ∷ []; ending = overruns })
shell_runs_example = shell_runs forks (ls ∷ ls ∷ []) ls 4 (ls-IsPath, (ls-IsPath, tt)) (omega arith)
