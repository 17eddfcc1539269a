-- ===== src/Chat/Members.antt =====
-- The table of the server against the history of joins and leaves.
use network_ex.Common.{
  ℕ, ◌≤◌, ◌<◌, ◌≡◌, ◌≢◌, refl, ap, sym, ◌∙◌, Option, none, some, List, [], ◌∷◌, Bool, true, false,
  ◌&&◌, not, length, arith, ltb, ◌==◌, if◌then◌else◌, inl, inr, Option-cases, Bool-cases,
}
use network_ex.Common.Bytes.{Bytes, NulFree, filled, c_string, c_string-filled}
use network_ex.Chat.Server.{
  Table, cleared, Fcntl, Listening, make_listener, store, make_connected_fd, Chat, Round, max_line,
  table_size, chat_text, send_chat_msg, relay, on_input, step, run,
}
use network_ex.Chat.Broadcast.{texts_to, once, send_chat_msg_lem}

-- The outcomes of `accept` and `fcntl` connect the descriptor.
joined : Option ℕ → Fcntl → ℕ → Bool
joined none f fd = false
joined (some sockfd) f fd = sockfd == fd && (f.set_flags && (f.set_signal && f.set_owner))

-- The round has connected the descriptor.
joins : ℕ → ℕ → Round → Bool
joins listenfd fd r = r.is_rtmin && (r.si_fd == listenfd && joined r.accepted r.fcntl fd)

-- A read that ends a connection.
ends : Option Bytes → Bool
ends none = true
ends (some []) = true
ends (some (b ∷ bs)) = false

-- The round has ended the connection of the descriptor.
leaves : ℕ → ℕ → Round → Bool
leaves listenfd fd r = r.is_rtmin && (not (r.si_fd == listenfd) && (r.si_fd == fd && ends r.input))

-- Whether a descriptor is connected after a history, from whether it was before.
pub connected : ℕ → ℕ → Bool → List Round → Bool
connected listenfd fd before [] = before
connected listenfd fd before (r ∷ rs) =
    connected listenfd fd
      (if joins listenfd fd r then true else if leaves listenfd fd r then false else before) rs

make_connected_fd-table :
    (accepted : Option ℕ) (f : Fcntl) (t t' : Table) (fd : ℕ)
    → make_connected_fd accepted f t ≡ some t'
    → (t' fd == 1) ≡ (if joined accepted f fd then true else (t fd == 1))
unfolding make_connected_fd joined
make_connected_fd-table none f t t' fd h =
    let e : t ≡ t' = ground arith in ap (λ u. u fd == 1) (sym e)
make_connected_fd-table (some sockfd) f t t' fd h =
    let stored : t'
        ≡ (if f.set_flags && (f.set_signal && f.set_owner) then store t sockfd 1 else t) =
      ground arith in
    rw stored (ground arith)

relay-table :
    (fd : ℕ) (block : Bytes) (t : Table) (chat : Chat)
    → relay fd block t ≡ some chat
    → chat.user_fds ≡ t
unfolding relay
relay-table fd block t chat h = elim (Option-cases (c_string (filled max_line block))) [
  | inl overrun ↦ absurd (ground arith)
  | inr (msg, e) ↦ elim (Option-cases (send_chat_msg fd msg t)) [
    | inl overflow ↦ absurd (ground arith)
    | inr (outputs, sent) ↦ ground arith
  ]
]

on_input-table :
    (i : ℕ) (input : Option Bytes) (t : Table) (chat : Chat) (fd : ℕ)
    → on_input i input t ≡ some chat
    → (chat.user_fds fd == 1) ≡ (if i == fd && ends input then false else (t fd == 1))
unfolding on_input ends
on_input-table i none t chat fd h = ground arith
on_input-table i (some []) t chat fd h = ground arith
on_input-table i (some (b ∷ bs)) t chat fd h = rw (relay-table i (b ∷ bs) t chat h) (ground arith)

-- One round changes the entry of a descriptor exactly as it joins or leaves.
step-table :
    (listenfd fd : ℕ) (t : Table) (r : Round) (chat : Chat)
    → step listenfd t r ≡ some chat
    → (chat.user_fds fd == 1)
      ≡ (if joins listenfd fd r then true else if leaves listenfd fd r then false else (t fd == 1))
unfolding step joins leaves
step-table listenfd fd t r chat h = elim (Bool-cases r.is_rtmin) [
  | inr other ↦ let same : t ≡ chat.user_fds = ground arith in rw (← same) (rw other)
  | inl signal ↦ elim (Bool-cases (r.si_fd == listenfd)) [
    | inl new ↦ elim (Option-cases (make_connected_fd r.accepted r.fcntl t)) [
      | inl overrun ↦ absurd (ground arith)
      | inr (t', e) ↦
          let same : t' ≡ chat.user_fds = ground arith in
          rw (← same) (ground (arith, make_connected_fd-table r.accepted r.fcntl t t' fd e))
    ]
    | inr old ↦
        let input : on_input r.si_fd r.input t ≡ some chat = ground arith in
        ground (arith, on_input-table r.si_fd r.input t chat fd input)
  ]
]

-- After any rounds the entry of a descriptor is 1 exactly if it has joined and not left since.
pub run-connected :
    (listenfd fd : ℕ) (rs : List Round) (t t' : Table)
    → run listenfd t rs ≡ some t'
    → (t' fd == 1) ≡ connected listenfd fd (t fd == 1) rs
unfolding run connected
run-connected listenfd fd [] t t' h = let same : t ≡ t' = ground arith in rw (← same)
run-connected listenfd fd (r ∷ rs) t t' h = elim (Option-cases (step listenfd t r)) [
  | inl overrun ↦ absurd (ground arith)
  | inr (chat, e) ↦
      let rest : run listenfd chat.user_fds rs ≡ some t' = ground arith in
      run-connected listenfd fd rs chat.user_fds t' rest
      ∙ ap (λ b. connected listenfd fd b rs) (step-table listenfd fd t r chat e)
]

-- Only descriptors within the table are members.
IsBounded : Table → Type 0
IsBounded t = (fd : ℕ) → table_size ≤ fd → (t fd == 1) ≡ false

joined-small :
    (accepted : Option ℕ) (f : Fcntl) (t t' : Table) (fd : ℕ)
    → make_connected_fd accepted f t ≡ some t'
    → joined accepted f fd ≡ true
    → fd < table_size
unfolding make_connected_fd joined
joined-small none f t t' fd h j = absurd (ground arith)
joined-small (some sockfd) f t t' fd h j = ground arith

joins-small :
    (listenfd fd : ℕ) (t : Table) (r : Round) (chat : Chat)
    → step listenfd t r ≡ some chat
    → joins listenfd fd r ≡ true
    → fd < table_size
unfolding step joins
joins-small listenfd fd t r chat h j =
    elim (Option-cases (make_connected_fd r.accepted r.fcntl t)) [
      | inl overrun ↦ absurd (ground arith)
      | inr (t', e) ↦ joined-small r.accepted r.fcntl t t' fd e (ground arith)
    ]

step-IsBounded :
    (listenfd : ℕ) (t : Table) (r : Round) (chat : Chat)
    → step listenfd t r ≡ some chat
    → IsBounded t
    → IsBounded chat.user_fds
unfolding IsBounded
step-IsBounded listenfd t r chat h b fd large =
    step-table listenfd fd t r chat h ∙ elim (Bool-cases (joins listenfd fd r)) [
      | inl j ↦ absurd (omega (arith, joins-small listenfd fd t r chat h j))
      | inr out ↦ ground (arith, b fd large)
    ]

run-IsBounded :
    (listenfd : ℕ) (rs : List Round) (t t' : Table)
    → run listenfd t rs ≡ some t'
    → IsBounded t
    → IsBounded t'
unfolding run
run-IsBounded listenfd [] t t' h b = let same : t ≡ t' = ground arith in rw (← same) b
run-IsBounded listenfd (r ∷ rs) t t' h b = elim (Option-cases (step listenfd t r)) [
  | inl overrun ↦ absurd (ground arith)
  | inr (chat, e) ↦
      let rest : run listenfd chat.user_fds rs ≡ some t' = ground arith in
      run-IsBounded listenfd rs chat.user_fds t' rest (step-IsBounded listenfd t r chat e b)
]

member :
    (listenfd : ℕ) (rs : List Round) (t : Table) (i : ℕ)
    → run listenfd cleared rs ≡ some t
    → (ltb i table_size && (t i == 1)) ≡ connected listenfd i false rs
member listenfd rs t i h =
    let bounded = run-IsBounded listenfd rs cleared t h (unfold IsBounded in λ fd large. refl) in
    let entry = run-connected listenfd i rs cleared t h in
    unfold IsBounded in ground (arith, bounded i, entry)

-- A message is delivered to who is connected. After any rounds from the cleared table that overrun
-- nothing, let `fd`, which is in the table and is not the listening socket, send a block of text that
-- leaves room for a NUL in MAXLINE bytes. The round overruns nothing and leaves the table as it is.
-- It writes the text with the number of the sender once to each descriptor that has joined and not
-- left since, the sender too if it has, and to no other.
pub chat_delivers :
    (listenfd fd b : ℕ) (bs : Bytes) (rs : List Round) (t : Table) (r : Round)
    → run listenfd cleared rs ≡ some t
    → r.is_rtmin ≡ true
    → r.si_fd ≡ fd
    → fd ≢ listenfd
    → r.input ≡ some (b ∷ bs)
    → fd < table_size
    → NulFree (b ∷ bs)
    → length (b ∷ bs) < max_line
    → (chat : Chat) × (step listenfd t r ≡ some chat)
      × (chat.user_fds ≡ t)
      × ((i : ℕ)
          → texts_to i chat.outputs ≡ once (connected listenfd i false rs) (chat_text fd (b ∷ bs)))
unfolding step on_input relay
chat_delivers listenfd fd b bs rs t r h signal about other input small no_nul room =
    let (outputs, sent, each) = send_chat_msg_lem fd (b ∷ bs) t small room in
    let text = c_string-filled max_line (b ∷ bs) no_nul room in
    (
      record { user_fds = t; outputs = outputs },
      ground arith,
      refl,
      λ i. each i ∙ ap (λ c. once c (chat_text fd (b ∷ bs))) (member listenfd rs t i h),
    )

-- The listening socket is returned whether or not `setup_sigio` succeeds on it: the condition tests
-- its result for 0, and it returns 1 or -1. So a server whose listening socket raises no signal
-- waits for one.
pub make_listener_ignores_setup :
    (l : Listening) (f g : Fcntl) → make_listener l f ≡ make_listener l g
unfolding make_listener
make_listener_ignores_setup l f g = ground arith
