-- ===== src/EpollChat/Delivery.antt =====
-- Who gets a message of the epoll server.
use network_ex.Common.{
  ℕ, zero, suc, ◌+◌, ◌≤◌, ◌<◌, ◌≡◌, ◌≢◌, refl, ap, ◌⊎◌, Option, none, inl, inr, some, List, [], ◌∷◌,
  ◌++◌, ◌==◌, Bool-cases, Bool, true, false, ◌&&◌, map, length, length-append, ltb, ltb→lt, leb,
  if◌then◌else◌, arith,
}
use network_ex.Common.Bytes.{Bytes, codes, filled}
use network_ex.Common.Int.{ℤ, pos, negsuc}
use network_ex.Chat.Server.{Output, write}
use network_ex.Chat.Broadcast.{texts_to, once}
use network_ex.EpollChat.Server.{
  user_count, message_size, Udata, is_user, users_from, message, send_msg,
}

texts_to-users :
    (n j : ℕ) (fds : ℕ → ℤ) (text : Bytes) (i : ℕ)
    → texts_to i (map (λ k. write k text) (users_from n j fds))
      ≡ once (leb j i && (ltb i (j + n) && is_user (fds i))) text
unfolding texts_to users_from
texts_to-users zero j fds text i = ground arith
texts_to-users (suc n) j fds text i = ground (arith, texts_to-users n (j + 1) fds text i)

-- An entry of the table that is 1 gets the text once, and everybody else nothing.
abbrev pub IsBroadcast : (ℕ → ℤ) → Bytes → List Output → Type 0
IsBroadcast fds text outputs =
    (i : ℕ)
    → ((i < user_count) × (fds i ≡ pos 1) × (texts_to i outputs ≡ text ∷ []))
      ⊎ (((user_count ≤ i) ⊎ (fds i ≢ pos 1)) × (texts_to i outputs ≡ []))

is_user-one : (z : ℤ) → ((is_user z ≡ true) × (z ≡ pos 1)) ⊎ ((is_user z ≡ false) × (z ≢ pos 1))
is_user-one (pos n) = elim (Bool-cases (n == 1)) [
  | inl e ↦ let same : n ≡ 1 = ground arith in inl (e, ap pos same)
  | inr e ↦ inr (e, λ h. absurd (ground arith))
]
is_user-one (negsuc n) = inr (refl, λ h. absurd (ground arith))

once_if :
    (i : ℕ) (b : Bool) (text : Bytes) (texts : List Bytes)
    → texts ≡ once (leb 0 i && (ltb i (0 + user_count) && b)) text
    → ((i < user_count) × (b ≡ true) × (texts ≡ text ∷ []))
      ⊎ (((user_count ≤ i) ⊎ (b ≡ false)) × (texts ≡ []))
once_if i true text texts h = elim (Bool-cases (ltb i user_count)) [
  | inl e ↦ inl (ground arith, refl, ground arith)
  | inr e ↦ inr (inl (ground arith), ground arith)
]
once_if i false text texts h = inr (inr refl, ground arith)

-- What `send_msg` comes to for a name and a text.
abbrev pub IsSent : Udata → Bytes → (ℕ → ℤ) → Option (List Output) → Type 0
IsSent user msg fds sent =
    ((length user.name + 1 + length msg < message_size)
      × (outputs : List Output) × (sent ≡ some outputs)
      × IsBroadcast fds (filled message_size (user.name ++ b' ' ∷ msg)) outputs)
    ⊎ ((message_size ≤ length user.name + 1 + length msg) × (sent ≡ none))

length-message : (name msg : Bytes) → length (message name msg) ≡ length name + 1 + length msg
length-message name msg = omega (arith, length-append name (codes " " ++ msg))

users-IsBroadcast :
    (fds : ℕ → ℤ) (text : Bytes)
    → IsBroadcast fds text (map (λ i. write i text) (users_from user_count 0 fds))
users-IsBroadcast fds text i =
    let texts = texts_to i (map (λ k. write k text) (users_from user_count 0 fds)) in
    elim (once_if i (is_user (fds i)) text texts (texts_to-users user_count 0 fds text i)) [
      | inl (small, is_one, sent) ↦ elim (is_user-one (fds i)) [
        | inl (e, one) ↦ inl (small, one, sent)
        | inr (e, other) ↦ absurd (ground arith)
      ]
      | inr (inl large, unsent) ↦ inr (inl large, unsent)
      | inr (inr not_one, unsent) ↦ elim (is_user-one (fds i)) [
        | inl (e, one) ↦ absurd (ground arith)
        | inr (e, other) ↦ inr (inr other, unsent)
      ]
    ]

IsSent-if :
    (user : Udata) (msg : Bytes) (fds : ℕ → ℤ) (outputs : List Output) (fits : Bool)
    → IsBroadcast fds (filled message_size (message user.name msg)) outputs
    → (fits ≡ true → length user.name + 1 + length msg < message_size)
    → (fits ≡ false → message_size ≤ length user.name + 1 + length msg)
    → IsSent user msg fds (if fits then some outputs else none)
IsSent-if user msg fds outputs true all less more = inl (less refl, outputs, refl, all)
IsSent-if user msg fds outputs false all less more = inr (more refl, refl)

-- Whoever the sender is, whatever the text and the table: if the name, a space and the text leave room
-- for a NUL in the 1048 bytes of the buffer, `send_msg` writes the whole buffer with them once to each
-- descriptor whose entry is 1, and to no other one; and if they do not, it overruns the buffer.
pub send_msg_lem :
    (user : Udata) (msg : Bytes) (fds : ℕ → ℤ) → IsSent user msg fds (send_msg user msg fds)
unfolding send_msg
send_msg_lem user msg fds =
    let e = length-message user.name msg in
    let text = filled message_size (message user.name msg) in
    IsSent-if user msg fds (map (λ i. write i text) (users_from user_count 0 fds))
      (ltb (length (message user.name msg)) message_size) (users-IsBroadcast fds text)
      (λ h. omega (arith, e, ltb→lt (length (message user.name msg)) message_size h))
      (λ h. omega (arith, e, not_less (length (message user.name msg)) message_size h))
  where
    not_less : (a b : ℕ) → ltb a b ≡ false → b ≤ a
    not_less a b h = ground arith
