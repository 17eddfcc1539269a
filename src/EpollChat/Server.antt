-- ===== src/EpollChat/Server.antt =====
-- 17_epoll_siginfo/chat_cil/main.c: the table of users, their structures on the heap, and the loop
-- over the events of epoll.
use network_ex.Common.{
  ℕ, zero, suc, ◌+◌, ◌%◌, ◌^◌, Option, none, some, List, [], ◌∷◌, ◌++◌, Bool, false, map, length,
  ltb, leb, ◌==◌, if◌then◌else◌,
}
use network_ex.Common.Bytes.{Bytes, codes, c_string, filled}
use network_ex.Common.Int.{ℤ, pos, negsuc}
use network_ex.Common.Decimal.{decimal}
use network_ex.Chat.Server.{Output, write, close}

-- MAXLINE
abbrev pub line_size : ℕ
line_size = 1024

-- The number of entries of `user_fds`.
abbrev pub user_count : ℕ
user_count = 1024

-- The size of `buf` in `send_msg`.
abbrev pub message_size : ℕ
message_size = 1048

-- `struct udata`: its first 4 bytes are `fd`, and `name` starts behind them.
pub record Udata : Type 0 where
  pub fd : ℕ
  pub name : Bytes

-- `user_fds`, and the structures on the heap by their addresses; `none` where none is allocated.
pub record State : Type 0 where
  pub user_fds : ℕ → ℤ
  pub heap : ℕ → Option Udata

-- After `memset`.
abbrev pub init : State
init = record { user_fds = λ i. negsuc 0; heap = λ p. none }

unfoldable pub assign : (ℕ → ℤ) → ℕ → ℤ → ℕ → ℤ
assign fds fd v i = if fd == i then v else fds i

unfoldable pub place : (ℕ → Option Udata) → ℕ → Option Udata → ℕ → Option Udata
place heap p u q = if p == q then u else heap q

-- `data.fd`, the low half of the 64 bits of `epoll_data`.
abbrev pub data_fd : ℕ → ℕ
data_fd ptr = ptr % 2 ^ 32

-- An event with its `data.ptr`, and what the calls that follow it answer: `accept`, `malloc` with the
-- address, and `read`.
pub record Event : Type 0 where
  pub ptr : ℕ
  pub accepted : Option ℕ
  pub malloc : Option ℕ
  pub input : Option Bytes

-- What a round leaves, and what it did.
pub record Turn : Type 0 where
  pub state : State
  pub outputs : List Output

-- "user(%d)"
unfoldable pub user_name : ℕ → Bytes
user_name fd = codes "user(" ++ (decimal fd ++ codes ")")

-- `sizeof(user_data)`, the size of a pointer.
abbrev pub malloc_size : ℕ
malloc_size = 8

-- A new connection: `none` where `accept` fails or the descriptor is past the table, where `malloc`
-- gives NULL, and where the structure with its name and the NUL does not fit what was asked for.
unfoldable pub add_user : State → Option ℕ → Option ℕ → Option Turn
unfolding assign place user_name
add_user s none memory = none
add_user s (some clientfd) none = none
add_user s (some clientfd) (some p) =
    if ltb clientfd user_count
    then if leb (4 + length (user_name clientfd) + 1) malloc_size
      then some (record {
        state = record {
          user_fds = assign s.user_fds clientfd (pos 1);
          heap = place s.heap p (some (record { fd = clientfd; name = user_name clientfd }));
        };
        outputs = [];
      })
      else none
    else none

-- `user_fds[i] == 1`
abbrev pub is_user : ℤ → Bool
is_user (pos n) = n == 1
is_user (negsuc n) = false

-- The loop of `send_msg` from entry i on: who is written to.
unfoldable pub users_from : ℕ → ℕ → (ℕ → ℤ) → List ℕ
users_from zero i fds = []
users_from (suc n) i fds =
    let rest = users_from n (i + 1) fds in if is_user (fds i) then i ∷ rest else rest

-- "%s %s"
abbrev pub message : Bytes → Bytes → Bytes
message name msg = name ++ (codes " " ++ msg)

-- `send_msg` writes all of its buffer; `none` where the text with its NUL does not fit it.
unfoldable pub send_msg : Udata → Bytes → (ℕ → ℤ) → Option (List Output)
unfolding users_from
send_msg user msg fds =
    if ltb (length (message user.name msg)) message_size
    then some (
        map (λ i. write i (filled message_size (message user.name msg)))
          (users_from user_count 0 fds))
    else none

-- A connection that ended or failed.
unfoldable pub drop_user : State → ℕ → Udata → Option Turn
unfolding assign place
drop_user s p user =
    if ltb user.fd user_count
    then some (record {
      state = record {
        user_fds = assign s.user_fds user.fd (negsuc 0);
        heap = place s.heap p none;
      };
      outputs = close user.fd ∷ [];
    })
    else none

-- A block that came: the cleared buffer holds it as a C string.
unfoldable pub relay : State → Udata → Bytes → Option Turn
relay s user block = elim (c_string (filled line_size block)) [
  | none ↦ none
  | some msg ↦ elim (send_msg user msg s.user_fds) [
    | none ↦ none
    | some outputs ↦ some (record { state = s; outputs = outputs })
  ]
]

abbrev pub on_input : State → ℕ → Udata → Option Bytes → Option Turn
on_input s p user none = drop_user s p user
on_input s p user (some []) = drop_user s p user
on_input s p user (some (b ∷ bs)) = relay s user (b ∷ bs)

-- One event; `none` where `data.ptr` points to no structure.
unfoldable pub step : ℕ → State → Event → Option Turn
step listenfd s ev =
    if data_fd ev.ptr == listenfd
    then add_user s ev.accepted ev.malloc
    else elim (s.heap ev.ptr) [ none ↦ none | some user ↦ on_input s ev.ptr user ev.input ]

-- The loops over the events that come.
unfoldable pub run : ℕ → State → List Event → Option State
run listenfd s [] = some s
run listenfd s (ev ∷ rest) = elim (step listenfd s ev) [
  | none ↦ none
  | some turn ↦ run listenfd turn.state rest
]
