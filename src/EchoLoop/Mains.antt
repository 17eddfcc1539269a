-- ===== src/EchoLoop/Mains.antt =====
-- `main` of 11_IPC/echo_server_udomain/main.c, and the loop of `main` of 4_network/echo_server/main.c.
use network_ex.Common.{
  ℕ, ◌+◌, Option, none, some, List, [], ◌∷◌, Bool, true, false, length, leb, ◌==◌, if◌then◌else◌,
}
use network_ex.Common.Bytes.{Bytes}
use network_ex.EchoLoop.Servers.{udomain, Action, write, close, serve_once}

-- What comes on a connection.
abbrev pub Incoming : Type 0
Incoming = List (Option Bytes)

-- Whether the end of the stream is read.
unfoldable pub ends : Incoming → Bool
ends [] = false
ends (none ∷ rest) = ends rest
ends (some [] ∷ rest) = true
ends (some (b ∷ bs) ∷ rest) = ends rest

-- What the loop of echo_server_udomain leaves: what it wrote to each connection, the connections that
-- it has not closed, and whether it still runs.
pub record Handled : Type 0 where
  pub answers : List (List Bytes)
  pub held : ℕ
  pub waits : Bool

abbrev pub then_answers : List Bytes → Option Handled → Option Handled
then_answers written none = none
then_answers written (some h) =
    some (record { answers = written ∷ h.answers; held = h.held + 1; waits = h.waits })

-- No connection is accepted, or not yet.
abbrev pub idle : Bool → Handled
idle waits = record { answers = []; held = 0; waits = waits }

-- A connection that ends is left without a `close`.
abbrev pub then_next : Bool → Option (List Bytes) → Option Handled → Option Handled
then_next is_ended none more = none
then_next true (some written) more = then_answers written more
then_next false (some written) more = then_answers written (some (idle true))

-- The loop; -1 from `accept` ends it.
unfoldable pub udomain_loop : List (Option Incoming) → Option Handled
udomain_loop [] = some (idle true)
udomain_loop (none ∷ rest) = some (idle false)
udomain_loop (some incoming ∷ rest) =
    then_next (ends incoming) (udomain incoming) (udomain_loop rest)

-- The outcomes of the calls before the loop.
pub record Opening : Type 0 where
  pub socket_opens : Bool
  pub binds : Bool
  pub listens : Bool

-- How `main` of echo_server_udomain comes out: with a number before the loop, or in the loop.
pub data Outcome : Type 0 where
  returns : ℕ → Outcome
  loops : Handled → Outcome

abbrev pub in_loop : Option Handled → Option Outcome
in_loop none = none
in_loop (some h) = some (loops h)

-- `main` with its argument, which `strncpy` puts into `sun_path`, an array of `path_size` bytes. The
-- NUL is not copied, but stands there already, so a path of that size leaves none.
unfoldable pub udomain_main : ℕ → Bytes → Opening → List (Option Incoming) → Option Outcome
udomain_main path_size path opening accepts =
    let served = in_loop (udomain_loop accepts) in
    if opening.socket_opens
    then if leb (length path) path_size
      then if opening.binds
        then if opening.listens then served else some (returns 1)
        else some (returns 0)
      else none
    else some (returns 0)

-- The descriptors that are open.
abbrev pub Descriptors : Type 0
Descriptors = ℕ → Bool

abbrev pub set_open : Descriptors → ℕ → Bool → Descriptors
set_open fds fd is_open n = if n == fd then is_open else fds n

-- What `accept`, the `read` and the `write` give in a round of echo_server.
pub record Round : Type 0 where
  pub accepted : Option ℕ
  pub received : Option Bytes
  pub writes : Bool

-- A `close` of a descriptor that is not open changes nothing.
abbrev pub act : Descriptors → ℕ → List Action → Descriptors
act fds fd [] = fds
act fds fd (write block ∷ rest) = act fds fd rest
act fds fd (close ∷ rest) = act (set_open fds fd false) fd rest

-- What is written.
abbrev pub blocks : List Action → List Bytes
blocks [] = []
blocks (write block ∷ rest) = block ∷ blocks rest
blocks (close ∷ rest) = blocks rest

-- The open descriptors after a round of echo_server; -1 from `accept` is not tested, and all calls on
-- it fail.
unfoldable pub echo_round : Descriptors → Round → Descriptors
echo_round fds r = elim r.accepted [
  | none ↦ fds
  | some fd ↦ act (set_open fds fd true) fd (serve_once r.received r.writes)
]

-- An accepted connection is sent something.
abbrev pub then_sent : Option ℕ → List Bytes → List (List Bytes) → List (List Bytes)
then_sent none written more = more
then_sent (some fd) written more = written ∷ more

-- The rounds: the open descriptors, and what each connection was sent, in order.
unfoldable pub echo_rounds : Descriptors → List Round → Descriptors × List (List Bytes)
echo_rounds fds [] = (fds, [])
echo_rounds fds (r ∷ rest) =
    let (after, sent) = echo_rounds (echo_round fds r) rest in
    (after, then_sent r.accepted (blocks (serve_once r.received r.writes)) sent)
