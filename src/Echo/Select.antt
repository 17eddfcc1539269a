-- ===== src/Echo/Select.antt =====
-- 13_Select/echo_server_multi/main.c: the loop around `select`.
use network_ex.Common.{
  ℕ, zero, suc, ◌+◌, Option, none, some, List, [], ◌∷◌, ◌++◌, Bool, true, false, take, ltb, ◌==◌,
  if◌then◌else◌,
}
use network_ex.Common.Bytes.{Bytes, codes, c_string, filled, bytes_eq}
use network_ex.Common.Int.{ℤ, pos, negsuc}
use network_ex.Echo.NonBlocking.{Output, write, close}

-- MAXLINE
abbrev pub line_size : ℕ
line_size = 1024

-- The descriptors that an `fd_set` of the C library has room for.
abbrev pub set_size : ℕ
set_size = 1024

abbrev pub FdSet : Type 0
FdSet = ℕ → Bool

-- FD_SET and FD_CLR.
unfoldable pub fd_set_to : FdSet → ℕ → Bool → FdSet
fd_set_to fds fd v i = if fd == i then v else fds i

pub record Server : Type 0 where
  pub readfds : FdSet
  pub maxfd : ℕ

-- Before the loop.
unfoldable pub start : ℕ → Server
unfolding fd_set_to
start listen_fd = record { readfds = fd_set_to (λ i. false) listen_fd true; maxfd = listen_fd }

-- What the kernel answers in one round: the descriptors that `select` leaves in `allfds`, its
-- result, and the outcomes of `accept` and of `read` on each descriptor, -1 being `none`.
pub record Events : Type 0 where
  pub allfds : FdSet
  pub fd_num : ℤ
  pub accepted : Option ℕ
  pub reads : ℕ → Option Bytes

-- What is left of the loop over the descriptors: `readfds`, and what was done.
pub record Served : Type 0 where
  pub readfds : FdSet
  pub outputs : List Output

-- `--fd_num`
abbrev pub decrement : ℤ → ℤ
decrement (pos zero) = negsuc 0
decrement (pos (suc n)) = pos n
decrement (negsuc n) = negsuc (suc n)

-- `fd_num <- 0`, which is `fd_num < -0`.
abbrev pub below_zero : ℤ → Bool
below_zero (pos n) = false
below_zero (negsuc n) = true

abbrev pub then_output : Output → Option Served → Option Served
then_output o none = none
then_output o (some served) = some (record served { outputs = o ∷ served.outputs })

-- `strncmp(buf, "quit\n", 5) == 0`
abbrev pub is_quit : Bytes → Bool
is_quit buf = bytes_eq (take 5 buf) (codes "quit" ++ 10 ∷ [])

-- The rounds left of the loop over the descriptors, at `i`; `none` where `strlen` runs over `buf`.
unfoldable pub serve_ready : Events → ℕ → ℕ → ℤ → FdSet → Option Served
serve_ready ev zero i fd_num fds = some (record { readfds = fds; outputs = [] })
serve_ready ev (suc n) i fd_num fds =
    let fd_num' = decrement fd_num in
    let closed = fd_set_to fds i false in
    let stop = some (record { readfds = closed; outputs = [] }) in
    elim (ev.allfds i) [
      | false ↦ serve_ready ev n (i + 1) fd_num fds
      | true ↦ elim (ev.reads i) [
        | none ↦ then_output (close i) (elim (below_zero fd_num') [
          | true ↦ stop
          | false ↦ serve_ready ev n (i + 1) fd_num' closed
        ])
        | some [] ↦ then_output (close i) (elim (below_zero fd_num') [
          | true ↦ stop
          | false ↦ serve_ready ev n (i + 1) fd_num' closed
        ])
        | some (b ∷ bs) ↦ elim (is_quit (filled line_size (b ∷ bs))) [
          | true ↦ then_output (close i) stop
          | false ↦ elim (c_string (filled line_size (b ∷ bs))) [
            | none ↦ none
            | some text ↦ then_output (write i text) (elim (below_zero fd_num') [
              | true ↦ some (record { readfds = fds; outputs = [] })
              | false ↦ serve_ready ev n (i + 1) fd_num' fds
            ])
          ]
        ]
      ]
    ]

pub record Turn : Type 0 where
  pub server : Server
  pub outputs : List Output

abbrev pub turn_of : Server → Option Served → Option Turn
turn_of s none = none
turn_of s (some served) =
    some (record { server = record s { readfds = served.readfds }; outputs = served.outputs })

-- One round; `none` where an array is overrun, an `fd_set` by a descriptor that does not fit it or by
-- the -1 of a failed `accept`.
unfoldable pub select_round : ℕ → Server → Events → Option Turn
unfolding serve_ready fd_set_to
select_round listen_fd s ev = elim (ev.allfds listen_fd) [
  | false ↦ turn_of s (serve_ready ev (s.maxfd + 1) 0 ev.fd_num s.readfds)
  | true ↦ elim ev.accepted [
    | none ↦ none
    | some client_fd ↦
        if ltb client_fd set_size
        then some (record {
          server = record {
            readfds = fd_set_to s.readfds client_fd true;
            maxfd = if ltb s.maxfd client_fd then client_fd else s.maxfd;
          };
          outputs = [];
        })
        else none
  ]
]

-- The loop over what the kernel answers.
unfoldable pub select_run : ℕ → Server → List Events → Option Server
select_run listen_fd s [] = some s
select_run listen_fd s (ev ∷ rest) = elim (select_round listen_fd s ev) [
  | none ↦ none
  | some turn ↦ select_run listen_fd turn.server rest
]
