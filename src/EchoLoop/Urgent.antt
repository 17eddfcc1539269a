-- ===== src/EchoLoop/Urgent.antt =====
-- 12_recv_send/echo_server_oob/main.c: the loop of `main`.
use network_ex.Common.{Option, none, some, List, [], ◌∷◌, ◌++◌, Bool, true, false, length, drop}
use network_ex.Common.Bytes.{Bytes, c_string, filled}
use network_ex.EchoLoop.Servers.{buf_size}

-- What `read` gives, and whether `write` would take what it is given.
pub record Turn : Type 0 where
  pub block : Option Bytes
  pub writes : Bool

-- What a connection was sent, and whether the server has closed it.
pub record Served : Type 0 where
  pub written : List Bytes
  pub closed : Bool

abbrev pub shut : Option Served
shut = some (record { written = []; closed = true })

-- `write(client_sockfd, buf, strlen(buf)) <= 0`: no byte is given as no byte is taken.
abbrev pub then_written : Bytes → Bool → Option Served → Option Served
then_written [] writes more = shut
then_written (b ∷ text) false more = shut
then_written (b ∷ text) true none = none
then_written (b ∷ text) true (some s) = some (record s { written = (b ∷ text) ∷ s.written })

-- What a block leaves in `buf`, which is not cleared before.
abbrev pub read_over : Bytes → Bytes → Bytes
read_over buf block = block ++ drop (length block) buf

-- The inner loop on a connection. Once the connection is closed, each `read` and each `close` fails,
-- and `continue` goes on: the loop is never left. `none` where `buf` has no NUL.
unfoldable pub urgent_loop : Bytes → List Turn → Option Served
urgent_loop buf [] = some (record { written = []; closed = false })
urgent_loop buf (t ∷ rest) = elim t.block [
  | none ↦ shut
  | some [] ↦ shut
  | some (b ∷ bs) ↦
      let now = read_over buf (b ∷ bs) in
      let more = urgent_loop now rest in
      elim (c_string now) [ none ↦ none | some text ↦ then_written text t.writes more ]
]

-- What the connections get, each `accept` with what comes on the connection; the ones that are never
-- accepted get nothing. `buf` is cleared before each `accept`.
unfoldable pub urgent_main : List (Option (List Turn)) → Option (List Served)
urgent_main [] = some []
urgent_main (none ∷ rest) = urgent_main rest
urgent_main (some turns ∷ rest) = elim (urgent_loop (filled buf_size []) turns) [
  | none ↦ none
  | some served ↦ some (served ∷ [])
]
