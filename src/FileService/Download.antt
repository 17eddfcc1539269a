-- ===== src/FileService/Download.antt =====
-- A download, from the server's file to the client's.
use network_ex.Common.{
  ℕ, zero, suc, ◌+◌, ◌<◌, ◌≡◌, refl, ap, ◌∙◌, Option, some, List, [], ◌∷◌, ◌++◌, inl, inr, length,
  take, drop, arith, concat, take-append-drop, length-drop, take_all, Option-cases,
}
use network_ex.Common.Bytes.{Bytes, NulFree, filled}
use network_ex.Common.Int.{ℤ, pos}
use network_ex.FileService.Disk.{Files, put, opened, Answers, Full, received}
use network_ex.FileService.Query.{max_line, memory, name_size, q_download}
use network_ex.FileService.Request.{query_of, make_query-some}
use network_ex.FileService.Overwrite.{overwritten, save_chunks-after, save_chunks-complete}
use network_ex.FileService.Server.{
  World, Served, serv_file_download, send_chunks, proc, returns_one,
}
use network_ex.FileService.Dispatch.{proc-download}
use network_ex.FileService.Client.{download, Done}

-- With full sends and fuel for every byte, the blocks that the server sends are the file.
send_chunks-concat :
    (socket : Answers)
    → Full socket
    → (fuel k : ℕ) (rest : Bytes) (sendn : ℤ) → length rest < fuel
    → concat (send_chunks socket fuel k rest sendn).blocks ≡ rest
unfolding send_chunks
send_chunks-concat socket full zero k rest sendn h = absurd (omega arith)
send_chunks-concat socket full (suc fuel) k [] sendn h = refl
send_chunks-concat socket full (suc fuel) k (b ∷ rest) sendn h =
    let chunk : Bytes = take max_line (b ∷ rest) in
    ground (
      arith,
      full k (length chunk),
      take_all (length chunk) chunk refl,
      take-append-drop max_line (b ∷ rest),
      length-drop max_line (b ∷ rest),
      send_chunks-concat socket full fuel (k + 1) (drop max_line (b ∷ rest)) (pos (length chunk)),
    )

pub serv_file_download-concat :
    (w : World) (files : Files) (name content : Bytes)
    → Full w.socket
    → files name ≡ some content
    → concat (serv_file_download w files name).sent ≡ content
unfolding serv_file_download
serv_file_download-concat w files name content full e = ground (
  arith,
  send_chunks-concat w.socket full (length content + 1) 0 content w.old_sendn (omega arith),
)

pub serv_file_download-files :
    (w : World) (files : Files) (name : Bytes) → (serv_file_download w files name).files ≡ files
unfolding serv_file_download
serv_file_download-files w files name = ground arith

-- If `download` returns 1, whatever `send` and `write` answered, then the local file was there, and
-- it has the bytes that arrived over the start of its old content; no other file has changed.
pub download_reliable :
    (socket disk : Answers) (files : Files) (incoming : List (Option Bytes)) (name : Bytes)
    (done : Done)
    → length name < name_size
    → download socket disk files incoming name ≡ some done
    → done.ret ≡ pos 1
    → (old : Bytes) × (files name ≡ some old)
      × (done.files ≡ put files name (overwritten old (received incoming)))
unfolding download
download_reliable socket disk files incoming name done room h won =
    elim (Option-cases (files name)) [
      | inl missing ↦ ground arith
      | inr (old, e) ↦ (
        old,
        e,
        ground
            (arith, make_query-some q_download name room, save_chunks-after disk old incoming 0 []),
      )
    ]

-- With a full `send` and full writes `download` returns 1 and has stored what arrived.
download-Full :
    (socket disk : Answers) (files : Files) (incoming : List (Option Bytes)) (name old : Bytes)
    → Full socket
    → Full disk
    → length name < name_size
    → files name ≡ some old
    → download socket disk files incoming name
      ≡ some (record {
        ret = pos 1;
        files = put files name (overwritten old (received incoming));
        sent = memory (query_of q_download name) ∷ [];
      })
unfolding download
download-Full socket disk files incoming name old full_s full_d room e = ground (
  arith,
  make_query-some q_download name room,
  full_s 0 (length (memory (query_of q_download name))),
  take_all (length (filled name_size name)) (filled name_size name) refl,
  save_chunks-complete disk full_d incoming 0 (opened old),
  save_chunks-after disk old incoming 0 [],
)

-- A download from end to end, where the name leaves room for its NUL in the query, the file is on
-- both sides, and every `send` and `write` takes all that it is given: the server answers the query
-- with the bytes of its file and changes no file, and a client that receives those bytes, cut into
-- whatever blocks, returns 1 with them written over the start of its own file of that name.
pub download_end_to_end :
    (socket disk : Answers) (w : World) (client_files server_files : Files)
    (name content old : Bytes)
    → Full socket
    → Full disk
    → Full w.socket
    → NulFree name
    → length name < name_size
    → client_files name ≡ some old
    → server_files name ≡ some content
    → (request : Bytes) × (served : Served) × (proc w server_files (some request ∷ [])
        ≡ some served)
      × (served.files ≡ server_files)
      × ((incoming : List (Option Bytes))
          → received incoming ≡ concat served.sent
          → download socket disk client_files incoming name
            ≡ some (record {
              ret = pos 1;
              files = put client_files name (content ++ drop (length content) old);
              sent = request ∷ [];
            }))
download_end_to_end socket disk w cf sf name content old full_s full_d full_w no_nul room here
      there =
    (
      memory (query_of q_download name),
      returns_one (serv_file_download w sf name),
      proc-download w sf [] name no_nul room,
      serv_file_download-files w sf name,
      λ incoming same.
          download-Full socket disk cf incoming name old full_s full_d room here
          ∙ ap
              (λ bs. some (record {
                ret = pos 1;
                files = put cf name (overwritten old bs);
                sent = memory (query_of q_download name) ∷ [];
              }))
              (same ∙ serv_file_download-concat w sf name content full_w there),
    )
