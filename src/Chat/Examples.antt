-- ===== src/Chat/Examples.antt =====
-- Descriptors 4 and 5 join, 4 leaves, and 5 says hello. The listening socket is 3.
use network_ex.Common.{ℕ, ◌≡◌, refl, true, false, Option, none, some, List, [], ◌∷◌, arith}
use network_ex.Common.Bytes.{Bytes, codes}
use network_ex.Chat.Server.{
  Table, cleared, store, Fcntl, setup_sigio, make_connected_fd, Chat, drop_user, on_input,
  chat_text, Round, step, run,
}
use network_ex.Chat.Broadcast.{texts_to, once}
use network_ex.Chat.Client.{Turn, Relayed, client_loop}
use network_ex.Chat.Relay.{received, typed, IsRelay, client_relays}
use network_ex.Chat.Members.{connected, chat_delivers}

abbrev works : Fcntl
works = record { set_flags = true; set_signal = true; set_owner = true }

abbrev join : ℕ → Round
join fd = record { is_rtmin = true; si_fd = 3; accepted = some fd; fcntl = works; input = none }

abbrev says : ℕ → Option Bytes → Round
says fd input = record {
  is_rtmin = true;
  si_fd = fd;
  accepted = none;
  fcntl = works;
  input = input;
}

abbrev history : List Round
history = join 4 ∷ join 5 ∷ says 4 (some []) ∷ []

abbrev table_after : Table
table_after = store (store (store cleared 4 1) 5 1) 4 0

history-run : run 3 cleared history ≡ some table_after
unfolding run step make_connected_fd setup_sigio on_input drop_user
history-run = refl

abbrev hello : Bytes
hello = codes "hello"

chat_delivers_example :
    (chat : Chat) × (step 3 table_after (says 5 (some hello)) ≡ some chat)
    × (chat.user_fds ≡ table_after)
    × ((i : ℕ) → texts_to i chat.outputs ≡ once (connected 3 i false history) (chat_text 5 hello))
chat_delivers_example =
    chat_delivers 3 5 b'h' (codes "ello") history table_after (says 5 (some hello)) history-run refl
      refl (omega arith) refl (omega arith) (omega arith) (omega arith)

-- Three rounds of the client: a line from the server, a line from the keyboard, and the end of the
-- stream while another line is typed.
abbrev client_rounds : List Turn
client_rounds =
    record { from_socket = some (some hello); shows = some 5; from_keyboard = none; sends = none }
    ∷ record {
      from_socket = none;
      shows = none;
      from_keyboard = some (some (codes "hi"));
      sends = some 2;
    }
    ∷ record {
      from_socket = some (some []);
      shows = none;
      from_keyboard = some (some hello);
      sends = some 5;
    }
    ∷ []

client_relays_example :
    (r : Relayed) × (client_loop client_rounds ≡ some r)
    × IsRelay (received client_rounds) (typed client_rounds) r
client_relays_example = client_relays client_rounds (omega arith, (omega arith, (omega arith, tt)))
