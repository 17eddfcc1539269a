-- ===== src/FileService/Sessions.antt =====
-- Two connections one after the other: what one client uploads, the next one downloads.
use network_ex.Common.{
  ◌<◌, ◌≡◌, ap, Option, some, List, [], ◌∷◌, ◌++◌, true, length, drop, concat, arith,
}
use network_ex.Common.Bytes.{Bytes, NulFree, bytes_eq_refl}
use network_ex.Common.Int.{pos}
use network_ex.FileService.Disk.{Files, put, Answers, Full, received}
use network_ex.FileService.Query.{memory, name_size, q_download}
use network_ex.FileService.Server.{World, Served, proc, returns_one, serv_file_download}
use network_ex.FileService.Client.{Done, upload}
use network_ex.FileService.Request.{query_of}
use network_ex.FileService.Upload.{upload_end_to_end}
use network_ex.FileService.Download.{serv_file_download-concat, serv_file_download-files}
use network_ex.FileService.Dispatch.{proc-download}
use network_ex.FileService.Listener.{Round, Hosted, host}

-- A round in which a connection is accepted and a child serves it.
abbrev pub connects : World → List (Option Bytes) → Round
connects w incoming = record { accepted = some incoming; forks = true; world = w }

-- The bytes of a request for the download of a file, as one block.
abbrev pub download_request : Bytes → List (Option Bytes)
download_request name = some (memory (query_of q_download name)) ∷ []

pub host-cons :
    (files : Files) (w : World) (incoming : List (Option Bytes)) (rounds : List Round)
    (served : Served) (hosted : Hosted)
    → proc w files incoming ≡ some served
    → host served.files rounds ≡ some hosted
    → host files (connects w incoming ∷ rounds)
      ≡ some (record hosted { replies = served.sent ∷ hosted.replies })
unfolding host
host-cons files w incoming rounds served hosted first rest = ground (arith, first, rest)

put-there : (files : Files) (name content : Bytes) → put files name content name ≡ some content
put-there files name content = ground (arith, bytes_eq_refl name)

-- Let a client upload a file, which both sides have, under a name that leaves room for its NUL, and
-- then another client ask for the download of that name, with every `send` and `write` full and both
-- forks working. Whatever blocks the server receives the upload in, after the query as one: its
-- parent process holds no connection and waits for more, and the second client is sent, in blocks,
-- the file that the first one sent, with what the old file had beyond it behind.
pub upload_then_download :
    (socket : Answers) (w1 w2 : World) (client_files server_files : Files)
    (name content old : Bytes)
    → Full socket
    → Full w1.disk
    → Full w2.socket
    → NulFree name
    → length name < name_size
    → client_files name ≡ some content
    → server_files name ≡ some old
    → (done : Done) × (request : Bytes) × (blocks : List Bytes) × (sent : List Bytes) × (upload
          socket client_files name
        ≡ some done)
      × (done.sent ≡ request ∷ blocks)
      × (concat sent ≡ content ++ drop (length content) old)
      × ((incoming : List (Option Bytes))
          → received incoming ≡ concat blocks
          → host server_files
              (connects w1 (some request ∷ incoming) ∷ connects w2 (download_request name) ∷ [])
            ≡ some (record {
              files = put server_files name (content ++ drop (length content) old);
              replies = [] ∷ sent ∷ [];
              held = 0;
              waits = true;
            }))
unfolding host
upload_then_download socket w1 w2 cf sf name content old full_s full_d full_w no_nul room here
      there =
    let (done, request, blocks, up, one, sent, proceeds) =
      upload_end_to_end socket w1 cf sf name content old full_s full_d no_nul room here there in
    let stored : Bytes = content ++ drop (length content) old in
    let files : Files = put sf name stored in
    let second : Served = returns_one (serv_file_download w2 files name) in
    let kept : second.files ≡ files = serv_file_download-files w2 files name in
    (
      done,
      request,
      blocks,
      second.sent,
      up,
      sent,
      serv_file_download-concat w2 files name stored full_w (put-there sf name stored),
      λ incoming same.
          host-cons sf w1 (some request ∷ incoming) (connects w2 (download_request name) ∷ [])
            (record { ret = pos 1; files = files; sent = [] })
            (record { files = files; replies = second.sent ∷ []; held = 0; waits = true })
            (proceeds incoming same)
            (host-cons files w2 (download_request name) [] second
              (record { files = files; replies = []; held = 0; waits = true })
              (proc-download w2 files [] name no_nul room)
              (ap (λ f. some (record { files = f; replies = []; held = 0; waits = true })) kept)),
    )
