-- ===== src/FileService/Examples.antt =====
-- The file service on a small file: nine bytes go up, over the start of an old file of twelve, and
-- down again.
use network_ex.Common.{
  ℕ, suc, ◌≡◌, refl, true, Option, none, some, List, [], ◌∷◌, take, concat, arith,
}
use network_ex.Common.Bytes.{Bytes, codes}
use network_ex.Common.Int.{pos}
use network_ex.FileService.Disk.{Files, put, Answers, received}
use network_ex.FileService.Query.{memory, q_upload, q_download}
use network_ex.FileService.Server.{World, Served, proc}
use network_ex.FileService.Client.{Done, make_query, upload, download}
use network_ex.FileService.Overwrite.{overwritten}
use network_ex.FileService.Request.{query_of}
use network_ex.FileService.Upload.{upload_reliable, upload_end_to_end}
use network_ex.FileService.Download.{download_reliable, download_end_to_end}

abbrev full : Answers
full k n = some n

abbrev world : World
world = record {
  disk = full;
  socket = full;
  db_opens = true;
  rows = [];
  exec_works = true;
  stack = 7 ∷ 7 ∷ [];
  old_sendn = pos 0;
}

abbrev a_txt : Bytes
a_txt = codes "a.txt"

abbrev new_bytes : Bytes
new_bytes = codes "new bytes"

abbrev old_bytes : Bytes
old_bytes = codes "older, longer"

abbrev with_new : Files
with_new = put (λ n. none) a_txt new_bytes

abbrev with_old : Files
with_old = put (λ n. none) a_txt old_bytes

upload_end_to_end_example :
    (done : Done) × (request : Bytes) × (blocks : List Bytes) × (upload full with_new a_txt
      ≡ some done)
    × (done.ret ≡ pos 1)
    × (done.sent ≡ request ∷ blocks)
    × ((incoming : List (Option Bytes))
        → received incoming ≡ concat blocks
        → proc world with_old (some request ∷ incoming)
          ≡ some (record {
            ret = pos 1;
            files = put with_old a_txt (codes "new bytesnger");
            sent = [];
          }))
upload_end_to_end_example =
    upload_end_to_end full world with_new with_old a_txt new_bytes old_bytes (λ k n. refl)
      (λ k n. refl) (omega arith) (omega arith) refl refl

download_end_to_end_example :
    (request : Bytes) × (served : Served) × (proc world with_new (some request ∷ []) ≡ some served)
    × (served.files ≡ with_new)
    × ((incoming : List (Option Bytes))
        → received incoming ≡ concat served.sent
        → download full full with_old incoming a_txt
          ≡ some (record {
            ret = pos 1;
            files = put with_old a_txt (codes "new bytesnger");
            sent = request ∷ [];
          }))
download_end_to_end_example =
    download_end_to_end full full world with_old with_new a_txt new_bytes old_bytes (λ k n. refl)
      (λ k n. refl) (λ k n. refl) (omega arith) (omega arith) refl refl

-- What the client has done after it has sent that file.
abbrev uploaded : Done
uploaded = record {
  ret = pos 1;
  files = with_new;
  sent = memory (query_of q_upload a_txt) ∷ new_bytes ∷ [];
}

uploads : upload full with_new a_txt ≡ some uploaded
unfolding upload make_query
uploads = refl

upload_reliable_example :
    (content : Bytes) × (n : ℕ) × (blocks : List Bytes) × (with_new a_txt ≡ some content)
    × (uploaded.sent ≡ take (suc n) (memory (query_of q_upload a_txt)) ∷ blocks)
    × (concat blocks ≡ content)
upload_reliable_example = upload_reliable full with_new a_txt uploaded (omega arith) uploads refl

-- The file comes in two blocks.
abbrev two_blocks : List (Option Bytes)
two_blocks = some (codes "new ") ∷ some (codes "bytes") ∷ some [] ∷ []

abbrev downloaded : Done
downloaded = record {
  ret = pos 1;
  files = put with_old a_txt (codes "new bytesnger");
  sent = memory (query_of q_download a_txt) ∷ [];
}

downloads : download full full with_old two_blocks a_txt ≡ some downloaded
unfolding download make_query
downloads = refl

download_reliable_example :
    (old : Bytes) × (with_old a_txt ≡ some old)
    × (downloaded.files ≡ put with_old a_txt (overwritten old (codes "new bytes")))
download_reliable_example =
    download_reliable full full with_old two_blocks a_txt downloaded (omega arith) downloads refl
