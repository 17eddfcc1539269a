-- ===== src/FileService/Listener.antt =====
-- `main` of 26_file_server/file_server/main.c: a child process for each connection.
use network_ex.Common.{ℕ, Option, none, some, List, [], ◌∷◌, Bool, true, false, if◌then◌else◌}
use network_ex.Common.Bytes.{Bytes}
use network_ex.FileService.Disk.{Files}
use network_ex.FileService.Server.{World, proc}

-- The outcomes of `socket`, `bind` and `listen`.
pub record Setup : Type 0 where
  pub socket : Bool
  pub binds : Bool
  pub listens : Bool

-- One round: what `accept` answers, -1 or a connection with the blocks that it delivers, whether
-- `fork` works, and what the child finds outside.
pub record Round : Type 0 where
  pub accepted : Option (List (Option Bytes))
  pub forks : Bool
  pub world : World

-- What the rounds leave: the files, what was sent on each connection that a child served, the
-- connections that the parent still holds, and whether it waits for more or has ended.
pub record Hosted : Type 0 where
  pub files : Files
  pub replies : List (List Bytes)
  pub held : ℕ
  pub waits : Bool

abbrev pub then_reply : List Bytes → Option Hosted → Option Hosted
then_reply sent none = none
then_reply sent (some hosted) = some (record hosted { replies = sent ∷ hosted.replies })

-- The loop of `main`. A child runs to its end before the next connection comes; the parent closes
-- its copy of the connection. `none` where a child overruns an array.
unfoldable pub host : Files → List Round → Option Hosted
host files [] = some (record { files = files; replies = []; held = 0; waits = true })
host files (round ∷ rounds) = elim round.accepted [
  | none ↦ some (record { files = files; replies = []; held = 0; waits = false })
  | some incoming ↦
      if round.forks
      then elim (proc round.world files incoming) [
        | none ↦ none
        | some served ↦ then_reply served.sent (host served.files rounds)
      ]
      else some (record { files = files; replies = []; held = 1; waits = false })
]

-- `main`: `none` in the result for the returns before the loop.
unfoldable pub server_main : Setup → Files → List Round → Option (Option Hosted)
server_main setup files rounds =
    if setup.socket
    then if setup.binds
      then if setup.listens
        then elim (host files rounds) [ none ↦ none | some hosted ↦ some (some hosted) ]
        else some none
      else some none
    else some none
