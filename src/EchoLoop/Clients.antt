-- ===== src/EchoLoop/Clients.antt =====
-- 4_network/echo_client, 11_IPC/echo_client_udomain and 11_IPC/echo_client_pipe, each main.c.
use network_ex.Common.{
  Option, none, some, List, [], ◌∷◌, ◌++◌, Bool, true, false, length, take, drop, if◌then◌else◌,
}
use network_ex.Common.Bytes.{Bytes, codes, c_string, filled, bytes_eq}
use network_ex.EchoLoop.Servers.{buf_size}

-- What echo_client does after it has connected: the buffer that it sends, and how it ends.
pub data Result : Type 0 where
  write_error : Result
  read_error : Result
  printed : Bytes → Result

-- The cleared buffer with the line from the keyboard; all of it is sent.
unfoldable pub question : Option Bytes → Bytes
question none = filled buf_size []
question (some line) = filled buf_size line

-- After the question: whether `write` worked, and the one `read` of the answer. `none` where the
-- answer fills the buffer and has no NUL.
unfoldable pub answer : Bool → Option Bytes → Option Result
answer false reply = some write_error
answer true none = some read_error
answer true (some []) = some read_error
answer true (some (b ∷ bs)) = elim (c_string (filled buf_size (b ∷ bs))) [
  | none ↦ none
  | some text ↦ some (printed (codes "read : " ++ text))
]

-- `strncmp(buf, "quit\n", 5) == 0`
abbrev pub is_quit : Bytes → Bool
is_quit buf = bytes_eq (take 5 buf) (codes "quit" ++ 10 ∷ [])

-- What a round of the loop of echo_client_udomain sends and prints. The answer is read over the
-- question, which is not cleared before.
pub record Exchange : Type 0 where
  pub sent : Bytes
  pub shown : Bytes

abbrev pub then_exchange : Exchange → Option (List Exchange) → Option (List Exchange)
then_exchange e none = none
then_exchange e (some es) = some (e ∷ es)

abbrev pub shown_of : Bytes → Option Bytes → Bytes
shown_of buf none = buf
shown_of buf (some bs) = bs ++ drop (length bs) buf

-- The lines from the keyboard, each with the answer that is read for it.
unfoldable pub udomain_client : List (Bytes × Option Bytes) → Option (List Exchange)
udomain_client [] = some []
udomain_client ((line, reply) ∷ rest) =
    let more = udomain_client rest in
    let buf = filled buf_size line in
    if is_quit buf then some [] else elim (c_string buf) [
      | none ↦ none
      | some text ↦ elim (c_string (shown_of buf reply)) [
        | none ↦ none
        | some answered ↦
            then_exchange (record { sent = text; shown = codes "Server -> " ++ answered }) more
      ]
    ]

-- The loop of echo_client_pipe: what it prints as the server's answer is its own line, since it
-- never reads one.
unfoldable pub pipe_client : List (Option Bytes) → Option (List Exchange)
pipe_client [] = some []
pipe_client (none ∷ rest) = some []
pipe_client (some line ∷ rest) =
    let more = pipe_client rest in
    let buf = filled buf_size line in
    if is_quit buf then some [] else elim (c_string buf) [
      | none ↦ none
      | some text ↦ then_exchange (record { sent = buf; shown = codes "Server -> " ++ text }) more
    ]
