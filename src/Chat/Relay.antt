-- ===== src/Chat/Relay.antt =====
-- What the chat client shows and sends is what came and what was typed.
use mathlib.Core.Path.{subst}
use mathlib.Core.List.{append_assoc, append-nil}
use network_ex.Common.{
  ℕ, suc, ◌-◌, ◌<◌, ◌≡◌, refl, sym, ap, ◌∙◌, ◌⊎◌, Option, none, some, List, [], ◌∷◌, ◌++◌, true,
  All, concat, take, drop, take-append-drop, length, replicate, Bool-cases, inl, inr, ◌==◌,
  if◌then◌else◌, arith,
}
use network_ex.Common.Bytes.{Bytes, codes, c_string, filled}
use network_ex.Chat.Client.{
  line_size, Turn, Relayed, ended, taken, all_taken, then_shown, then_sent, keyboard_half,
  socket_half, client_loop,
}

-- The bytes that a `read` gave.
abbrev pub bytes_of : Option (Option Bytes) → Bytes
bytes_of none = []
bytes_of (some none) = []
bytes_of (some (some block)) = block

-- All that came from the server, and all that was typed, if every round is made.
unfoldable pub received : List Turn → Bytes
received [] = []
received (t ∷ turns) = bytes_of t.from_socket ++ received turns

unfoldable pub typed : List Turn → Bytes
typed [] = []
typed (t ∷ turns) = bytes_of t.from_keyboard ++ typed turns

-- A typed block leaves room for a NUL in the buffer.
abbrev pub HasRoom : Turn → Type 0
HasRoom t = length (bytes_of t.from_keyboard) < line_size

-- The first bytes are those of the second, up to some point.
abbrev pub IsStart : Bytes → Bytes → Type 0
IsStart s whole = (rest : Bytes) × (whole ≡ s ++ rest)

-- How the pieces relate to all the bytes: they are a start of them, and all of them while `main` runs.
pub record IsRelay (came keyed : Bytes) (r : Relayed) : Type 0 where
  pub shown : IsStart (concat r.on_screen) came
  pub sent : IsStart (concat r.to_server) keyed
  pub running : (r.returned ≡ true) ⊎ ((concat r.on_screen ≡ came) × (concat r.to_server ≡ keyed))

c_string-zero : (s rest : Bytes) → (text : Bytes) × (c_string (s ++ 0 ∷ rest) ≡ some text)
unfolding c_string
c_string-zero [] rest = ([], refl)
c_string-zero (b ∷ s) rest =
    let (text, e) = c_string-zero s rest in
    elim (Bool-cases (b == 0)) [
      | inl nul ↦ ([], ground arith)
      | inr other ↦ (b ∷ text, ground (arith, e))
    ]

take-IsStart : (n : ℕ) (s rest : Bytes) → IsStart (take n s) (s ++ rest)
take-IsStart n s rest = (
  drop n s ++ rest,
  ap (λ l. l ++ rest) (sym (take-append-drop n s)) ∙ append_assoc (take n s) (drop n s) rest,
)

none-IsStart : (s : Bytes) → IsStart [] s
none-IsStart s = (s, refl)

more-IsStart : (b s whole : Bytes) → IsStart s whole → IsStart (b ++ s) (b ++ whole)
more-IsStart b s whole (rest, e) = (rest, ap (λ l. b ++ l) e ∙ sym (append_assoc b s rest))

taken-IsStart :
    (block rest : Bytes) (n : Option ℕ) → IsStart (concat (taken block n)) (block ++ rest)
taken-IsStart block rest none = none-IsStart (block ++ rest)
taken-IsStart block rest (some n) =
    subst (λ s. IsStart s (block ++ rest)) (sym (append-nil (take n block)))
      (take-IsStart n block rest)

-- Rounds that go well, and what they come to.
abbrev Relays : Option Relayed → Bytes → Bytes → Type 0
Relays result came keyed = (r : Relayed) × (result ≡ some r) × IsRelay came keyed r

ended-Relays :
    (came keyed : Bytes) (screen server : List Bytes) (prompts : List Bytes)
    → IsStart (concat screen) came
    → IsStart (concat server) keyed
    → Relays
        (some
          (record { on_screen = screen; prompts = prompts; to_server = server; returned = true }))
        came
        keyed
ended-Relays came keyed screen server prompts a b =
    (_, refl, record { shown = a; sent = b; running = inl refl })

then_shown-Relays :
    (block : Bytes) (more : Option Relayed) (came keyed : Bytes)
    → Relays more came keyed
    → Relays (then_shown block more) (block ++ came) keyed
then_shown-Relays block more came keyed (r, e, relay) = (
  record r { on_screen = block ∷ r.on_screen },
  ap (then_shown block) e,
  record {
    shown = more-IsStart block (concat r.on_screen) came relay.shown;
    sent = relay.sent;
    running = elim relay.running [
      | inl stop ↦ inl stop
      | inr (screen, server) ↦ inr (ap (λ l. block ++ l) screen, server)
    ];
  },
)

then_sent-Relays :
    (text block : Bytes) (more : Option Relayed) (came keyed : Bytes)
    → Relays more came keyed
    → Relays (then_sent text block more) came (block ++ keyed)
then_sent-Relays text block more came keyed (r, e, relay) = (
  record r { prompts = (codes "> " ++ text) ∷ r.prompts; to_server = block ∷ r.to_server },
  ap (then_sent text block) e,
  record {
    shown = relay.shown;
    sent = more-IsStart block (concat r.to_server) keyed relay.sent;
    running = elim relay.running [
      | inl stop ↦ inl stop
      | inr (screen, server) ↦ inr (screen, ap (λ l. block ++ l) server)
    ];
  },
)

socket_half-Relays :
    (from : Option (Option Bytes)) (shows : Option ℕ) (more : Option Relayed) (came keyed : Bytes)
    → Relays more came keyed
    → Relays (socket_half from shows more) (bytes_of from ++ came) keyed
unfolding socket_half
socket_half-Relays none shows more came keyed h = h
socket_half-Relays (some none) shows more came keyed h =
    ended-Relays came keyed [] [] [] (none-IsStart came) (none-IsStart keyed)
socket_half-Relays (some (some [])) shows more came keyed h =
    ended-Relays came keyed [] [] [] (none-IsStart came) (none-IsStart keyed)
socket_half-Relays (some (some (b ∷ bs))) shows more came keyed h =
    elim (Bool-cases (all_taken (b ∷ bs) shows)) [
      | inl whole ↦ rw whole (then_shown-Relays (b ∷ bs) more came keyed h)
      | inr part ↦ rw part (
          ended-Relays ((b ∷ bs) ++ came) keyed (taken (b ∷ bs) shows) [] []
            (taken-IsStart (b ∷ bs) came shows) (none-IsStart keyed))
    ]

filled-text :
    (s : Bytes)
    → length s < line_size
    → (text : Bytes) × (c_string (filled line_size s) ≡ some text)
filled-text s room =
    let e : line_size - length s ≡ suc (line_size - length s - 1) = omega arith in
    rw e (c_string-zero s (replicate (line_size - length s - 1) 0))

-- A block that was read, with the C string that it is printed as.
keyboard_half-text :
    (b : ℕ) (bs text : Bytes) (sends : Option ℕ) (more : Option Relayed)
    → c_string (filled line_size (b ∷ bs)) ≡ some text
    → keyboard_half (some (some (b ∷ bs))) sends more ≡ (
        if all_taken (b ∷ bs) sends
        then then_sent text (b ∷ bs) more
        else some (record ended {
          prompts = (codes "> " ++ text) ∷ [];
          to_server = taken (b ∷ bs) sends;
        }))
unfolding keyboard_half
keyboard_half-text b bs text sends more e = ground (arith, e)

keyboard_half-Relays :
    (from : Option (Option Bytes)) (sends : Option ℕ) (more : Option Relayed) (came keyed : Bytes)
    → length (bytes_of from) < line_size
    → Relays more came keyed
    → Relays (keyboard_half from sends more) came (bytes_of from ++ keyed)
unfolding keyboard_half
keyboard_half-Relays none sends more came keyed room h = h
keyboard_half-Relays (some none) sends more came keyed room h =
    ended-Relays came keyed [] [] (codes "> " ∷ []) (none-IsStart came) (none-IsStart keyed)
keyboard_half-Relays (some (some [])) sends more came keyed room h =
    ended-Relays came keyed [] [] (codes "> " ∷ []) (none-IsStart came) (none-IsStart keyed)
keyboard_half-Relays (some (some (b ∷ bs))) sends more came keyed room h =
    let (text, e) = filled-text (b ∷ bs) room in
    elim (Bool-cases (all_taken (b ∷ bs) sends)) [
      | inl whole ↦
          rw (keyboard_half-text b bs text sends more e, whole)
            (then_sent-Relays text (b ∷ bs) more came keyed h)
      | inr part ↦
          rw (keyboard_half-text b bs text sends more e, part)
            (ended-Relays came ((b ∷ bs) ++ keyed) [] (taken (b ∷ bs) sends)
              ((codes "> " ++ text) ∷ []) (none-IsStart came) (taken-IsStart (b ∷ bs) keyed sends))
    ]

-- Whatever comes from the server, is typed in blocks that leave room for a NUL, and is answered by the
-- calls: the client overruns nothing; what it writes to the screen is a start of what came, and what it
-- sends is a start of what was typed, byte by byte and in order; and unless `main` has returned, both
-- are all of it.
pub client_relays :
    (turns : List Turn)
    → All HasRoom turns
    → (r : Relayed) × (client_loop turns ≡ some r) × IsRelay (received turns) (typed turns) r
unfolding client_loop received typed
client_relays [] h =
    (_, refl, record { shown = ([], refl); sent = ([], refl); running = inr (refl, refl) })
client_relays (t ∷ turns) h =
    socket_half-Relays t.from_socket t.shows _ (received turns)
      (bytes_of t.from_keyboard ++ typed turns)
      (keyboard_half-Relays t.from_keyboard t.sends _ (received turns) (typed turns) h.0
        (client_relays turns h.1))
