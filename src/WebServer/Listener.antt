-- ===== src/WebServer/Listener.antt =====
-- `main` of 27_web_server/web_server/main.c: a child process for each connection.
use network_ex.Common.{
  Option, none, some, List, [], ◌∷◌, Bool, true, false, ltb, length, if◌then◌else◌,
}
use network_ex.Common.Bytes.{Bytes}
use network_ex.WebServer.Page.{World, max_line, Answer, webserv}

-- The outcomes of `socket`, `bind` and `listen`.
pub record Setup : Type 0 where
  pub socket : Bool
  pub binds : Bool
  pub listens : Bool

-- One round: what `accept` answers, -1 or a connection with what its one `read` gives, whether `fork`
-- works, and what the child finds outside.
pub record Round : Type 0 where
  pub accepted : Option (Option Bytes)
  pub forks : Bool
  pub world : World

-- What the rounds leave: the answer of each child, `none` for one that overran an array, and whether
-- the parent waits for more or has ended.
pub record Hosted : Type 0 where
  pub answers : List (Option Answer)
  pub waits : Bool

abbrev pub then_answer : Option Answer → Hosted → Hosted
then_answer answer hosted = record hosted { answers = answer ∷ hosted.answers }

-- The directory of `main` in place of that of the world.
abbrev pub rooted : Bytes → World → World
rooted root w = record w { root = root }

-- The loop of `main`. A child has its own memory, so what it overruns stays in it.
unfoldable pub host : Bytes → List Round → Hosted
host root [] = record { answers = []; waits = true }
host root (round ∷ rounds) =
    let more = host root rounds in
    elim round.accepted [
      | none ↦ record { answers = []; waits = false }
      | some input ↦
          if round.forks
          then then_answer (webserv (rooted root round.world) input) more
          else record { answers = []; waits = false }
    ]

-- `main` with its arguments: `none` where the directory and its NUL do not fit `root`, and `none` in
-- the result for the returns before the loop.
unfoldable pub server_main : List Bytes → Setup → List Round → Option (Option Hosted)
server_main (root ∷ []) setup rounds =
    if ltb (length root) max_line
    then if setup.socket
      then if setup.binds
        then if setup.listens then some (some (host root rounds)) else some none
        else some none
      else some none
    else none
server_main arguments setup rounds = some none
