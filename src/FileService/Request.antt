-- ===== src/FileService/Request.antt =====
-- The request survives the trip: the server reads the command and the name that the client wrote.
use Prim.Native.Nat.{◌^◌}
use network_ex.Common.{
  ℕ, ◌-◌, ◌≤◌, ◌<◌, ◌≡◌, sym, none, some, length, drop, replicate, arith, length-append,
  length-replicate, take-append,
}
use network_ex.Common.Bytes.{Bytes, NulFree, filled, c_string, c_string-filled}
use network_ex.Common.Words.{htonl, ntohl, ntohl-htonl, htonl-lt, bytes_word-word_bytes}
use network_ex.FileService.Query.{Cquery, memory, at_memory, overlay, name_size}
use network_ex.FileService.Client.{make_query}

pub length-filled : (size : ℕ) (s : Bytes) → length s ≤ size → length (filled size s) ≡ size
length-filled size s h = omega (
  arith,
  length-append s (replicate (size - length s) 0),
  length-replicate {A = ℕ} (size - length s) 0,
)

-- The structure that the server finds in its own memory is the one that was sent.
pub at_memory-overlay :
    (q : Cquery) (stack : Bytes)
    → q.command < 2 ^ 32
    → length q.f_name ≡ name_size
    → at_memory (overlay (memory q) stack) ≡ q
at_memory-overlay q stack fits size = λ i. record {
  command = bytes_word-word_bytes q.command fits i;
  f_name = take-append name_size q.f_name (drop (length (memory q)) stack) (sym size) i;
}

-- The query that the client makes.
abbrev pub query_of : ℕ → Bytes → Cquery
query_of command name = record { command = htonl command; f_name = filled name_size name }

-- A name with room for its NUL is put into the query.
pub make_query-some :
    (command : ℕ) (name : Bytes)
    → length name < name_size
    → make_query command name ≡ some (query_of command name)
unfolding make_query
make_query-some command name room = ground arith

-- A name that the client's own 80 bytes hold, but not the 64 of the query, overflows it.
pub make_query-none :
    (command : ℕ) (name : Bytes) → name_size ≤ length name → make_query command name ≡ none
unfolding make_query
make_query-none command name long = ground arith

-- The query of a command and a name that fits is read back, whatever was on the server's stack: the
-- command after `ntohl`, and the name as the C string in `f_name`.
pub query_round_trip :
    (command : ℕ) (name stack : Bytes)
    → command < 2 ^ 32
    → NulFree name
    → length name < name_size
    → record {
      made : make_query command name ≡ some (query_of command name);
      read : at_memory (overlay (memory (query_of command name)) stack) ≡ query_of command name;
      command_read : ntohl (query_of command name).command ≡ command;
      name_read : c_string (query_of command name).f_name ≡ some name;
    }
query_round_trip command name stack small no_nul room = record {
  made = make_query-some command name room;
  read =
      at_memory-overlay (query_of command name) stack (htonl-lt command)
        (length-filled name_size name (omega arith));
  command_read = ntohl-htonl command small;
  name_read = c_string-filled name_size name no_nul room;
}
