-- ===== src/FileService/SessionExamples.antt =====
-- Nine bytes are uploaded, a listing of two rows is asked for, and then the file.
use network_ex.Common.{◌≡◌, refl, true, Option, none, some, List, [], ◌∷◌, All, map, concat, arith}
use network_ex.Common.Bytes.{Bytes, codes}
use network_ex.Common.Int.{pos}
use network_ex.FileService.Disk.{Files, put, Answers, received}
use network_ex.FileService.Server.{World, Served, column_line, send_chunks, proc}
use network_ex.FileService.Client.{upload_chunks, Listing, get_list}
use network_ex.FileService.List.{IsColumn, listing_text, IsShort, list_end_to_end}
use network_ex.FileService.Fuel.{file_loops_end}
use network_ex.FileService.Listener.{Hosted, host}
use network_ex.FileService.Store.{
  uploads, downloads, lists, Session, round_of, IsSession, IsStore, host-IsStore,
}

abbrev whole : Answers
whole k n = some n

abbrev outside : World
outside = record {
  disk = whole;
  socket = whole;
  db_opens = true;
  rows = [];
  exec_works = true;
  stack = 7 ∷ 7 ∷ [];
  old_sendn = pos 0;
}

abbrev b_txt : Bytes
b_txt = codes "b.txt"

abbrev sent_bytes : Bytes
sent_bytes = codes "new bytes"

abbrev here_before : Bytes
here_before = codes "older, longer"

abbrev servers_files : Files
servers_files = put (λ n. none) b_txt here_before

abbrev listed : World
listed = record outside {
  rows = ((codes "name", some b_txt) ∷ (codes "owner", none) ∷ []) ∷ [] ∷ [];
}

listed-IsColumn : All (All IsColumn) listed.rows
unfolding column_line
listed-IsColumn = (
  (
    record { name_text = omega arith; value_text = omega arith; fits = omega arith },
    (record { name_text = omega arith; value_text = omega arith; fits = omega arith }, tt),
  ),
  (tt, tt),
)

-- The text of the rows in one block.
abbrev one_block : List (Option Bytes)
one_block = some (listing_text listed.rows) ∷ []

arrives : received one_block ≡ listing_text listed.rows
unfolding column_line
arrives = refl

is_short : All IsShort one_block
unfolding column_line
is_short = (omega arith, tt)

list_end_to_end_example :
    (request : Bytes) × (served : Served) × (listing : Listing) × (proc listed servers_files
        (some request ∷ [])
      ≡ some served)
    × (served.files ≡ servers_files)
    × (concat served.sent ≡ listing_text listed.rows)
    × (get_list whole one_block ≡ some listing)
    × (listing.sent ≡ request ∷ [])
    × (concat listing.printed ≡ listing_text listed.rows)
list_end_to_end_example =
    list_end_to_end whole listed servers_files one_block (λ k n. refl) (λ k n. refl) refl
      listed-IsColumn arrives is_short

file_loops_end_example :
    (upload_chunks whole 20 0 sent_bytes ≡ upload_chunks whole 10 0 sent_bytes)
    × (send_chunks whole 20 0 sent_bytes (pos 0) ≡ send_chunks whole 10 0 sent_bytes (pos 0))
file_loops_end_example = file_loops_end whole 20 0 sent_bytes (pos 0) (omega arith)

-- The upload in two blocks, a listing, and the download of what was uploaded.
abbrev sessions : List Session
sessions =
    record {
      request = uploads b_txt sent_bytes;
      world = outside;
      incoming = some (codes "new ") ∷ some (codes "bytes") ∷ [];
    }
    ∷ record { request = lists listed.rows; world = listed; incoming = [] }
    ∷ record { request = downloads b_txt; world = outside; incoming = [] }
    ∷ []

sessions-IsSession : All IsSession sessions
sessions-IsSession = (
  record {
    full_disk = λ k n. refl;
    full_socket = λ k n. refl;
    servable = (omega arith, omega arith, refl);
  },
  (
    record {
      full_disk = λ k n. refl;
      full_socket = λ k n. refl;
      servable = (refl, refl, listed-IsColumn);
    },
    (
      record {
        full_disk = λ k n. refl;
        full_socket = λ k n. refl;
        servable = (omega arith, omega arith);
      },
      tt,
    ),
  ),
)

host-IsStore_example :
    (hosted : Hosted) × (host servers_files (map round_of sessions) ≡ some hosted)
    × IsStore servers_files
        (uploads b_txt sent_bytes ∷ lists listed.rows ∷ downloads b_txt ∷ [])
        hosted
host-IsStore_example = host-IsStore servers_files sessions sessions-IsSession
