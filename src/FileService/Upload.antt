-- ===== src/FileService/Upload.antt =====
-- An upload, from the client's file to the server's.
use network_ex.Common.{
  ℕ, zero, suc, ◌+◌, ◌<◌, ◌≡◌, refl, ap, ◌∙◌, true, Option, some, List, [], ◌∷◌, ◌++◌, length, take,
  drop, arith, concat, take-append-drop, take_all, length-drop, Option-cases, inl, inr,
}
use network_ex.Common.Bytes.{Bytes, NulFree, filled}
use network_ex.Common.Int.{pos}
use network_ex.FileService.Disk.{Files, put, Answers, Full, received}
use network_ex.FileService.Query.{max_line, memory, name_size, q_upload}
use network_ex.FileService.Request.{query_of, make_query-some}
use network_ex.FileService.Overwrite.{overwritten, store_chunks-after}
use network_ex.FileService.Server.{World, serv_file_upload, proc, returns_one}
use network_ex.FileService.Dispatch.{proc-upload}
use network_ex.FileService.Client.{upload, upload_chunks, Done}

-- If the loop ends well, the blocks that it sent are the file, whatever `send` answered.
pub upload_chunks-concat :
    (socket : Answers) (fuel k : ℕ) (rest : Bytes)
    → (upload_chunks socket fuel k rest).complete ≡ true
    → concat (upload_chunks socket fuel k rest).blocks ≡ rest
unfolding upload_chunks
upload_chunks-concat socket zero k rest h = ground arith
upload_chunks-concat socket (suc fuel) k [] h = refl
upload_chunks-concat socket (suc fuel) k (b ∷ rest) h = ground (
  arith,
  upload_chunks-concat socket fuel (k + 1) (drop max_line (b ∷ rest)),
  take-append-drop max_line (b ∷ rest),
)

-- With full sends and fuel for every byte it does end well.
upload_chunks-complete :
    (socket : Answers)
    → Full socket
    → (fuel k : ℕ) (rest : Bytes) → length rest < fuel
    → (upload_chunks socket fuel k rest).complete ≡ true
unfolding upload_chunks
upload_chunks-complete socket full zero k rest h = absurd (omega arith)
upload_chunks-complete socket full (suc fuel) k [] h = refl
upload_chunks-complete socket full (suc fuel) k (b ∷ rest) h = ground (
  arith,
  full k (length (take max_line (b ∷ rest))),
  length-drop max_line (b ∷ rest),
  upload_chunks-complete socket full fuel (k + 1) (drop max_line (b ∷ rest)),
)

blocks_of : Answers → Bytes → List Bytes
blocks_of socket content = (upload_chunks socket (length content + 1) 1 content).blocks

blocks_of-concat :
    (socket : Answers) (content : Bytes) → Full socket → concat (blocks_of socket content) ≡ content
unfolding blocks_of
blocks_of-concat socket content full =
    upload_chunks-concat socket (length content + 1) 1 content
      (upload_chunks-complete socket full (length content + 1) 1 content (omega arith))

-- If `upload` returns 1, whatever the socket answered, then the file was there, what was handed over
-- is the start of the query (the first `send` may be short) and then all of the file, in blocks.
pub upload_reliable :
    (socket : Answers) (files : Files) (name : Bytes) (done : Done)
    → length name < name_size
    → upload socket files name ≡ some done
    → done.ret ≡ pos 1
    → (content : Bytes) × (n : ℕ) × (blocks : List Bytes) × (files name ≡ some content)
      × (done.sent ≡ take (suc n) (memory (query_of q_upload name)) ∷ blocks)
      × (concat blocks ≡ content)
unfolding upload blocks_of
upload_reliable socket files name done room h won = elim (Option-cases (files name)) [
  | inl missing ↦ ground arith
  | inr (content, e) ↦ elim (Option-cases (socket 0 (length (memory (query_of q_upload name))))) [
    | inl broken ↦ ground (arith, make_query-some q_upload name room)
    | inr (zero, closed) ↦ ground (arith, make_query-some q_upload name room)
    | inr (suc n, taken) ↦ (
      content,
      n,
      blocks_of socket content,
      e,
      ground (arith, make_query-some q_upload name room),
      ground (
        arith,
        make_query-some q_upload name room,
        upload_chunks-concat socket (length content + 1) 1 content,
      ),
    )
  ]
]

-- With full sends `upload` returns 1 and has sent the query and the file.
upload-Full :
    (socket : Answers) (files : Files) (name content : Bytes)
    → Full socket
    → length name < name_size
    → files name ≡ some content
    → upload socket files name
      ≡ some (record {
        ret = pos 1;
        files = files;
        sent = memory (query_of q_upload name) ∷ blocks_of socket content;
      })
unfolding upload blocks_of
upload-Full socket files name content full room e = ground (
  arith,
  make_query-some q_upload name room,
  full 0 (length (memory (query_of q_upload name))),
  take_all (length (filled name_size name)) (filled name_size name) refl,
  upload_chunks-complete socket full (length content + 1) 1 content (omega arith),
)

-- `serv_file_upload` on a file that is there.
pub serv_file_upload-stores :
    (w : World) (files : Files) (incoming : List (Option Bytes)) (name old : Bytes)
    → Full w.disk
    → files name ≡ some old
    → returns_one (serv_file_upload w files incoming name) ≡ record {
      ret = pos 1;
      files = put files name (overwritten old (received incoming));
      sent = [];
    }
unfolding serv_file_upload
serv_file_upload-stores w files incoming name old full e =
    ground (arith, store_chunks-after w.disk full old incoming 0 [])

-- An upload from end to end, where the name leaves room for its NUL in the query, the file is on
-- both sides, and every `send` of the client and every `write` of the server takes all that it is
-- given: `upload` returns 1, and if the server receives the query as one block and then the bytes of
-- the other sends, cut into whatever blocks, the server's file has the client's bytes written over
-- its start. What the old content had beyond them is still there. No other file changes.
pub upload_end_to_end :
    (socket : Answers) (w : World) (client_files server_files : Files) (name content old : Bytes)
    → Full socket
    → Full w.disk
    → NulFree name
    → length name < name_size
    → client_files name ≡ some content
    → server_files name ≡ some old
    → (done : Done) × (request : Bytes) × (blocks : List Bytes) × (upload socket client_files name
        ≡ some done)
      × (done.ret ≡ pos 1)
      × (done.sent ≡ request ∷ blocks)
      × ((incoming : List (Option Bytes))
          → received incoming ≡ concat blocks
          → proc w server_files (some request ∷ incoming)
            ≡ some (record {
              ret = pos 1;
              files = put server_files name (content ++ drop (length content) old);
              sent = [];
            }))
upload_end_to_end socket w cf sf name content old full_socket full_disk no_nul room here there = (
  record {
    ret = pos 1;
    files = cf;
    sent = memory (query_of q_upload name) ∷ blocks_of socket content;
  },
  memory (query_of q_upload name),
  blocks_of socket content,
  upload-Full socket cf name content full_socket room here,
  refl,
  refl,
  λ incoming same.
      proc-upload w sf incoming name no_nul room
      ∙ ap some (serv_file_upload-stores w sf incoming name old full_disk there)
      ∙ ap
          (λ bs. some (record { ret = pos 1; files = put sf name (overwritten old bs); sent = [] }))
          (same ∙ blocks_of-concat socket content full_socket),
)
