-- ===== src/Chat/Broadcast.antt =====
-- `send_chat_msg` writes to every connected client once, and never overruns its buffer.
use network_ex.Common.{
  ℕ, zero, suc, ◌+◌, ◌<◌, ◌≡◌, ap, ◌∙◌, some, List, [], ◌∷◌, ◌++◌, Bool, true, false, ◌&&◌, map,
  length, length-append, arith, ltb, lt→ltb, leb, ◌==◌, if◌then◌else◌,
}
use network_ex.Common.Bytes.{Bytes, codes}
use network_ex.Common.Decimal.{decimal, length-decimal}
use network_ex.Chat.Server.{
  Table, Output, write, close, max_line, table_size, text_size, recipients, chat_text,
  send_chat_msg,
}

-- What was written to a descriptor, in order.
unfoldable pub texts_to : ℕ → List Output → List Bytes
texts_to i [] = []
texts_to i (write fd text ∷ rest) =
    let more = texts_to i rest in if fd == i then text ∷ more else more
texts_to i (close fd ∷ rest) = texts_to i rest

-- One text for a member, none for anybody else.
abbrev pub once : Bool → Bytes → List Bytes
once true text = text ∷ []
once false text = []

texts_to-recipients :
    (n j : ℕ) (t : Table) (text : Bytes) (i : ℕ)
    → texts_to i (map (λ k. write k text) (recipients n j t))
      ≡ once (leb j i && (ltb i (j + n) && (t i == 1))) text
unfolding texts_to recipients
texts_to-recipients zero j t text i = ground arith
texts_to-recipients (suc n) j t text i = ground (arith, texts_to-recipients n (j + 1) t text i)

-- A text of a client below `table_size` with its NUL fits the buffer of `send_chat_msg`.
length-chat_text :
    (fd : ℕ) (msg : Bytes)
    → fd < table_size
    → length msg < max_line
    → length (chat_text fd msg) < text_size
unfolding chat_text
length-chat_text fd msg small short = omega (
  arith,
  length-decimal 3 fd (omega arith),
  length-append (codes "user name (") (decimal fd ++ (codes ") " ++ msg)),
  length-append (decimal fd) (codes ") " ++ msg),
  length-append (codes ") ") msg,
)

in_table : (i : ℕ) (b : Bool) → (leb 0 i && (ltb i (0 + table_size) && b)) ≡ (ltb i table_size && b)
in_table i b = ground arith

-- A message that leaves room for its NUL in MAXLINE bytes, of a client whose descriptor is in the
-- table: `send_chat_msg` does not overrun its buffer, and it writes the text with the client's
-- number once to every descriptor whose entry is 1, the sender's too, and to no other.
pub send_chat_msg_lem :
    (fd : ℕ) (msg : Bytes) (t : Table)
    → fd < table_size
    → length msg < max_line
    → (outputs : List Output) × (send_chat_msg fd msg t ≡ some outputs)
      × ((i : ℕ) → texts_to i outputs ≡ once (ltb i table_size && (t i == 1)) (chat_text fd msg))
unfolding send_chat_msg
send_chat_msg_lem fd msg t small short = (
  map (λ k. write k (chat_text fd msg)) (recipients table_size 0 t),
  rw (lt→ltb _ _ (length-chat_text fd msg small short)),
  λ i.
      texts_to-recipients table_size 0 t (chat_text fd msg) i
      ∙ ap (λ b. once b (chat_text fd msg)) (in_table i (t i == 1)),
)
