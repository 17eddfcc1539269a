-- ===== src/Chat/Server.antt =====
-- 17_epoll_siginfo/chat_server_rts/main.c: a chat server driven by real-time signals.
use network_ex.Common.{
  ℕ, zero, suc, ◌+◌, Option, none, some, List, [], ◌∷◌, ◌++◌, Bool, true, false, map, length, ltb,
  ◌==◌, if◌then◌else◌,
}
use network_ex.Common.Bytes.{Bytes, codes, c_string, filled}
use network_ex.Common.Int.{ℤ, pos, negsuc}
use network_ex.Common.Decimal.{decimal}

-- MAXLINE
abbrev pub max_line : ℕ
max_line = 1024

-- The number of entries of `user_fds`.
abbrev pub table_size : ℕ
table_size = 1024

-- The size of `buf` in `send_chat_msg`.
abbrev pub text_size : ℕ
text_size = 1048

-- `user_fds`: the entry of each file descriptor.
abbrev pub Table : Type 0
Table = ℕ → ℕ

-- The table after `memset`.
abbrev pub cleared : Table
cleared fd = 0

unfoldable pub store : Table → ℕ → ℕ → Table
store t fd v i = if fd == i then v else t i

-- Which of the three calls of `fcntl` succeed.
pub record Fcntl : Type 0 where
  pub set_flags : Bool
  pub set_signal : Bool
  pub set_owner : Bool

unfoldable pub setup_sigio : Fcntl → ℤ
setup_sigio f =
    if f.set_flags
    then if f.set_signal then if f.set_owner then pos 1 else negsuc 0 else negsuc 0
    else negsuc 0

-- A C condition on an `int`.
abbrev pub truth : ℤ → Bool
truth (pos zero) = false
truth _ = true

-- The outcomes of `socket`, `bind` and `listen`.
pub record Listening : Type 0 where
  pub socket : Option ℕ
  pub binds : Bool
  pub listens : Bool

-- `make_listener`: the listening socket, or `none` for -1.
unfoldable pub make_listener : Listening → Fcntl → Option ℕ
unfolding setup_sigio
make_listener l f = elim l.socket [
  | none ↦ none
  | some listenfd ↦
      if l.binds
      then if l.listens then if truth (setup_sigio f) then some listenfd else none else none
      else none
]

-- What an operation does to the world.
pub data Output : Type 0 where
  write : ℕ → Bytes → Output
  close : ℕ → Output

-- The server's memory, and what it did.
pub record Chat : Type 0 where
  pub user_fds : Table
  pub outputs : List Output

-- `make_connected_fd`, with the outcome of `accept`: the new table. It returns the socket or -1, on
-- which its caller only prints. `none` where the socket is past the table.
unfoldable pub make_connected_fd : Option ℕ → Fcntl → Table → Option Table
unfolding setup_sigio store
make_connected_fd none f t = some t
make_connected_fd (some sockfd) f t = elim (setup_sigio f) [
  | negsuc zero ↦ some t
  | _ ↦ if ltb sockfd table_size then some (store t sockfd 1) else none
]

-- The loop of `send_chat_msg` from entry i on: who is written to.
unfoldable pub recipients : ℕ → ℕ → Table → List ℕ
recipients zero i t = []
recipients (suc n) i t = let rest = recipients n (i + 1) t in if t i == 1 then i ∷ rest else rest

-- "user name (%d) %s"
unfoldable pub chat_text : ℕ → Bytes → Bytes
chat_text fd msg = codes "user name (" ++ (decimal fd ++ (codes ") " ++ msg))

-- `send_chat_msg`; `none` where the text with its NUL does not fit `buf`.
unfoldable pub send_chat_msg : ℕ → Bytes → Table → Option (List Output)
send_chat_msg fd msg t =
    let text = chat_text fd msg in
    if ltb (length text) text_size
    then some (map (λ i. write i text) (recipients table_size 0 t))
    else none

-- What `sigwaitinfo` and the calls after it answer in one round: whether the signal is SIGRTMIN, the
-- descriptor that it is about, and the outcomes of `accept`, `fcntl` and `read`.
pub record Round : Type 0 where
  pub is_rtmin : Bool
  pub si_fd : ℕ
  pub accepted : Option ℕ
  pub fcntl : Fcntl
  pub input : Option Bytes

-- A round in which the connection `fd` has ended or failed.
unfoldable pub drop_user : ℕ → Table → Option Chat
unfolding store
drop_user fd t =
    if ltb fd table_size
    then some (record { user_fds = store t fd 0; outputs = close fd ∷ [] })
    else none

-- A round in which `fd` has sent a block: the cleared buffer holds it as a C string.
unfoldable pub relay : ℕ → Bytes → Table → Option Chat
relay fd block t = elim (c_string (filled max_line block)) [
  | none ↦ none
  | some msg ↦ elim (send_chat_msg fd msg t) [
    | none ↦ none
    | some outputs ↦ some (record { user_fds = t; outputs = outputs })
  ]
]

unfoldable pub on_input : ℕ → Option Bytes → Table → Option Chat
unfolding drop_user
on_input fd none t = drop_user fd t
on_input fd (some []) t = drop_user fd t
on_input fd (some (b ∷ bs)) t = relay fd (b ∷ bs) t

-- One round of the loop of `main`. `none` where an array is overrun.
unfoldable pub step : ℕ → Table → Round → Option Chat
unfolding make_connected_fd on_input
step listenfd t r =
    if r.is_rtmin
    then if r.si_fd == listenfd
      then elim (make_connected_fd r.accepted r.fcntl t) [
        | none ↦ none
        | some t' ↦ some (record { user_fds = t'; outputs = [] })
      ]
      else on_input r.si_fd r.input t
    else some (record { user_fds = t; outputs = [] })

-- The loop of `main` over the rounds that come.
unfoldable pub run : ℕ → Table → List Round → Option Table
run listenfd t [] = some t
run listenfd t (r ∷ rs) = elim (step listenfd t r) [
  | none ↦ none
  | some chat ↦ run listenfd chat.user_fds rs
]
