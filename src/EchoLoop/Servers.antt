-- ===== src/EchoLoop/Servers.antt =====
-- 10_proc/echo_server_fork, 14_Linux_Mulit_thread/echo_server_thread, 25_xinetd/echo_xinetd,
-- 11_IPC/echo_server_udomain, 4_network/echo_server and 11_IPC/echo_server_pipe, each main.c: what is
-- written for what is read. A read is `none` for -1, and an empty block at the end of the stream.
use mathlib.Core.Option
use network_ex.Common.{
  ℕ, zero, suc, ◌+◌, Option, none, some, List, [], ◌∷◌, Bool, true, false, length, take,
  if◌then◌else◌,
}
use network_ex.Common.Bytes.{Bytes, c_string, filled}

-- MAXLINE, and MAXBUF of 4_network/echo_server
abbrev pub buf_size : ℕ
buf_size = 1024

-- The child of echo_server_fork: each block is put into the cleared buffer, and the C string there
-- is written back. `none` where a block fills the buffer and has no NUL.
unfoldable pub fork_child : List (Option Bytes) → Option (List Bytes)
fork_child [] = some []
fork_child (none ∷ rest) = some []
fork_child (some [] ∷ rest) = some []
fork_child (some (b ∷ bs) ∷ rest) =
    let more = fork_child rest in
    elim (c_string (filled buf_size (b ∷ bs))) [
      | none ↦ none
      | some text ↦ Option.map (λ texts. text ∷ texts) more
    ]

-- What `accept` and `fork` answer in a round of the parent.
pub record ForkRound : Type 0 where
  pub accepted : Option (List (Option Bytes))
  pub forks : Bool

-- What the rounds of the parent leave: the blocks written to each connection that has a child, the
-- connections that the parent has not closed, and whether it still waits.
pub record Forked : Type 0 where
  pub written : List (List Bytes)
  pub held : ℕ
  pub waits : Bool

abbrev pub then_child : List Bytes → Option Forked → Option Forked
then_child written none = none
then_child written (some f) = some (record f { written = written ∷ f.written })

abbrev pub then_held : Option Forked → Option Forked
then_held none = none
then_held (some f) = some (record f { held = f.held + 1 })

-- The loop of the parent. A failed `fork` leaves the connection open, and the loop goes on; -1 from
-- `accept` ends it.
unfoldable pub fork_parent : List ForkRound → Option Forked
fork_parent [] = some (record { written = []; held = 0; waits = true })
fork_parent (r ∷ rest) = elim r.accepted [
  | none ↦ some (record { written = []; held = 0; waits = false })
  | some incoming ↦
      if r.forks
      then elim (fork_child incoming) [
        | none ↦ none
        | some written ↦ then_child written (fork_parent rest)
      ]
      else then_held (fork_parent rest)
]

-- `thread_func` of echo_server_thread; the buffer is cleared before the loop and after each block.
unfoldable pub thread_func : List (Option Bytes) → Option (List Bytes)
thread_func [] = some []
thread_func (none ∷ rest) = some []
thread_func (some [] ∷ rest) = some []
thread_func (some (b ∷ bs) ∷ rest) =
    let more = thread_func rest in
    elim (c_string (filled buf_size (b ∷ bs))) [
      | none ↦ none
      | some text ↦ Option.map (λ texts. text ∷ texts) more
    ]

-- echo_xinetd on its connection, with the answers of `write`: it returns when one is not positive.
-- A block has at most MAXLINE - 1 bytes, so the C string ends in the buffer.
unfoldable pub xinetd : (ℕ → ℕ → Option ℕ) → ℕ → List (Option Bytes) → Option (List Bytes)
xinetd writes k [] = some []
xinetd writes k (none ∷ rest) = some []
xinetd writes k (some [] ∷ rest) = some []
xinetd writes k (some (b ∷ bs) ∷ rest) =
    let more = xinetd writes (k + 1) rest in
    elim (c_string (filled buf_size (b ∷ bs))) [
      | none ↦ none
      | some text ↦ elim (writes k (length text)) [
        | none ↦ some []
        | some zero ↦ some []
        | some (suc n) ↦ Option.map (λ texts. take (suc n) text ∷ texts) more
      ]
    ]

-- One connection of echo_server_udomain: only the end of the stream ends it. After an error the
-- cleared buffer is an empty string.
unfoldable pub udomain : List (Option Bytes) → Option (List Bytes)
udomain [] = some []
udomain (none ∷ rest) = Option.map (λ texts. [] ∷ texts) (udomain rest)
udomain (some [] ∷ rest) = some []
udomain (some (b ∷ bs) ∷ rest) =
    let more = udomain rest in
    elim (c_string (filled buf_size (b ∷ bs))) [
      | none ↦ none
      | some text ↦ Option.map (λ texts. text ∷ texts) more
    ]

-- What 4_network/echo_server does to a connection.
pub data Action : Type 0 where
  write : Bytes → Action
  close : Action

-- One round, with what the one `read` gives and whether `write` works. All of the buffer is written
-- back; after a failed `write` the connection is closed twice.
unfoldable pub serve_once : Option Bytes → Bool → List Action
serve_once none writes = close ∷ []
serve_once (some []) writes = close ∷ []
serve_once (some (b ∷ bs)) writes =
    if writes then write (filled buf_size (b ∷ bs)) ∷ close ∷ [] else close ∷ close ∷ []

-- The loop of echo_server_pipe: it ends with an error only, and writes the whole buffer.
unfoldable pub pipe_server : List (Option Bytes) → List Bytes
pipe_server [] = []
pipe_server (none ∷ rest) = []
pipe_server (some block ∷ rest) = filled buf_size block ∷ pipe_server rest
