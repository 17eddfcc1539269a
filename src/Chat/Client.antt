-- ===== src/Chat/Client.antt =====
-- 17_epoll_siginfo/chat_linux_cli/main.c: the loop around `select` between the keyboard and the socket.
use network_ex.Common.{
  ℕ, Option, none, some, List, [], ◌∷◌, ◌++◌, Bool, true, false, length, take, ◌==◌, if◌then◌else◌,
}
use network_ex.Common.Bytes.{Bytes, codes, c_string, filled}

-- MAXLINE
abbrev pub line_size : ℕ
line_size = 1024

-- A round: for the socket and the keyboard, `none` if it is not ready, or else what `read` gives, and
-- what the `write` after it answers. An error is `none`.
pub record Turn : Type 0 where
  pub from_socket : Option (Option Bytes)
  pub shows : Option ℕ
  pub from_keyboard : Option (Option Bytes)
  pub sends : Option ℕ

-- What the rounds did: the bytes written to descriptor 1, the text printed, and the bytes sent to the
-- server, piece by piece; and whether `main` has returned.
pub record Relayed : Type 0 where
  pub on_screen : List Bytes
  pub prompts : List Bytes
  pub to_server : List Bytes
  pub returned : Bool

abbrev pub ended : Relayed
ended = record { on_screen = []; prompts = []; to_server = []; returned = true }

-- The part of a block that `write` took.
abbrev pub taken : Bytes → Option ℕ → List Bytes
taken block none = []
taken block (some n) = take n block ∷ []

abbrev pub all_taken : Bytes → Option ℕ → Bool
all_taken block none = false
all_taken block (some n) = n == length block

abbrev pub then_shown : Bytes → Option Relayed → Option Relayed
then_shown block none = none
then_shown block (some r) = some (record r { on_screen = block ∷ r.on_screen })

abbrev pub then_sent : Bytes → Bytes → Option Relayed → Option Relayed
then_sent text block none = none
then_sent text block (some r) =
    some (record r { prompts = (codes "> " ++ text) ∷ r.prompts; to_server = block ∷ r.to_server })

-- The second half of a round, and what comes behind it. The block is printed before it is looked at;
-- `none` where it fills the buffer and has no NUL.
unfoldable pub keyboard_half : Option (Option Bytes) → Option ℕ → Option Relayed → Option Relayed
keyboard_half none sends more = more
keyboard_half (some none) sends more = some (record ended { prompts = codes "> " ∷ [] })
keyboard_half (some (some [])) sends more = some (record ended { prompts = codes "> " ∷ [] })
keyboard_half (some (some (b ∷ bs))) sends more = elim (c_string (filled line_size (b ∷ bs))) [
  | none ↦ none
  | some text ↦
      if all_taken (b ∷ bs) sends
      then then_sent text (b ∷ bs) more
      else some
          (record ended { prompts = (codes "> " ++ text) ∷ []; to_server = taken (b ∷ bs) sends })
]

-- The first half.
unfoldable pub socket_half : Option (Option Bytes) → Option ℕ → Option Relayed → Option Relayed
socket_half none shows more = more
socket_half (some none) shows more = some ended
socket_half (some (some [])) shows more = some ended
socket_half (some (some (b ∷ bs))) shows more =
    if all_taken (b ∷ bs) shows
    then then_shown (b ∷ bs) more
    else some (record ended { on_screen = taken (b ∷ bs) shows })

-- The loop of `main`.
unfoldable pub client_loop : List Turn → Option Relayed
client_loop [] = some (record { on_screen = []; prompts = []; to_server = []; returned = false })
client_loop (t ∷ turns) =
    socket_half t.from_socket t.shows (keyboard_half t.from_keyboard t.sends (client_loop turns))
