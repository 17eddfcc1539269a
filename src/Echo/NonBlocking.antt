-- ===== src/Echo/NonBlocking.antt =====
-- 16_block_nonblock/echo_server_nonblocking/main.c: a server that asks every connection in turn.
use network_ex.Common.{
  ℕ, zero, suc, ◌+◌, Option, none, some, List, [], ◌∷◌, ◌++◌, length, drop, replicate, ltb, ◌==◌,
  if◌then◌else◌,
}
use network_ex.Common.Bytes.{Bytes}
use network_ex.Common.Int.{ℤ, pos, negsuc}

-- MAXLINE
abbrev pub max_line : ℕ
max_line = 1024

-- The number of entries of `client_fd_array`.
abbrev pub array_size : ℕ
array_size = 1024

-- `client_fd_array`: 1 for a connection, -1 otherwise.
abbrev pub FdArray : Type 0
FdArray = ℕ → ℤ

unfoldable pub assign : FdArray → ℕ → ℤ → FdArray
assign fds fd v i = if fd == i then v else fds i

-- What `accept` answers: a connection, EAGAIN, or another error.
pub data Accepted : Type 0 where
  connection : ℕ → Accepted
  again : Accepted
  failed : Accepted

-- What `read` answers: EAGAIN, another error, or bytes, of which there are none at the end.
pub data Incoming : Type 0 where
  would_block : Incoming
  broken : Incoming
  got : Bytes → Incoming

pub data Output : Type 0 where
  write : ℕ → Bytes → Output
  close : ℕ → Output

-- What the loop over the connections leaves.
pub record Swept : Type 0 where
  pub fds : FdArray
  pub outputs : List Output

-- `read` stores the bytes over the start of `buf`.
abbrev pub read_into : Bytes → Bytes → Bytes
read_into bs buf = bs ++ drop (length bs) buf

-- The rounds left of the loop, at `i`. `buf` is cleared before the loop, not in it, and all of it is
-- written back. The loop ends with the first connection that is closed.
unfoldable pub sweep : (ℕ → Incoming) → ℕ → ℕ → Bytes → FdArray → Swept
sweep reads zero i buf fds = record { fds = fds; outputs = [] }
sweep reads (suc n) i buf fds = elim (fds i) [
  | pos (suc zero) ↦ elim (reads i) [
    | would_block ↦ sweep reads n (i + 1) buf fds
    | broken ↦ record { fds = assign fds i (negsuc 0); outputs = close i ∷ [] }
    | got [] ↦ record { fds = assign fds i (negsuc 0); outputs = close i ∷ [] }
    | got (b ∷ bs) ↦
        let buf' = read_into (b ∷ bs) buf in
        let more = sweep reads n (i + 1) buf' fds in
        record { fds = more.fds; outputs = write i buf' ∷ more.outputs }
  ]
  | _ ↦ sweep reads n (i + 1) buf fds
]

pub record Server : Type 0 where
  pub client_fd_array : FdArray
  pub maxfd : ℕ

-- Before the loop of `main`.
abbrev pub init : ℕ → Server
init server_sockfd = record { client_fd_array = λ i. negsuc 0; maxfd = server_sockfd }

pub record Turn : Type 0 where
  pub server : Server
  pub outputs : List Output

-- One round of the loop of `main`; `none` where a connection is past the array.
unfoldable pub round : Server → Accepted → (ℕ → Incoming) → Option Turn
unfolding assign
round s (connection fd) reads =
    if ltb fd array_size
    then some (record {
      server = record {
        client_fd_array = assign s.client_fd_array fd (pos 1);
        maxfd = if ltb s.maxfd fd then fd else s.maxfd;
      };
      outputs = [];
    })
    else none
round s failed reads = some (record { server = s; outputs = [] })
round s again reads =
    let swept = sweep reads (s.maxfd + 1) 0 (replicate max_line 0) s.client_fd_array in
    some (record { server = record s { client_fd_array = swept.fds }; outputs = swept.outputs })

-- The loop of `main` over what the kernel answers.
unfoldable pub run : Server → List (Accepted × (ℕ → Incoming)) → Option Server
run s [] = some s
run s ((accepted, reads) ∷ rest) = elim (round s accepted reads) [
  | none ↦ none
  | some turn ↦ run turn.server rest
]
