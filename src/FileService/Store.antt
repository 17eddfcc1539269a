-- ===== src/FileService/Store.antt =====
-- The file server as a store of named contents, over any number of connections.
use mathlib.Core.Option
use network_ex.Common.{
  ◌<◌, ◌≡◌, refl, ap, ◌∙◌, Option, none, some, List, [], ◌∷◌, true, All, map, concat, length,
  Option-cases, inl, inr, arith,
}
use network_ex.Common.Bytes.{Bytes, NulFree}
use network_ex.Common.Int.{pos}
use network_ex.FileService.Disk.{Files, put, Full, received}
use network_ex.FileService.Query.{memory, name_size, q_upload, q_download, q_list}
use network_ex.FileService.Overwrite.{overwritten}
use network_ex.FileService.Request.{query_of}
use network_ex.FileService.Server.{
  Column, World, Served, serv_file_upload, serv_file_download, proc, returns_one,
}
use network_ex.FileService.Upload.{serv_file_upload-stores}
use network_ex.FileService.Download.{serv_file_download-concat, serv_file_download-files}
use network_ex.FileService.Dispatch.{proc-upload, proc-download, proc-list}
use network_ex.FileService.List.{IsColumn, listing_text, callbacks-text, serv_file_list-text}
use network_ex.FileService.Listener.{Round, Hosted, host}
use network_ex.FileService.Sessions.{connects, host-cons}

-- The specification: what is asked of the store, what it becomes, and what it answers.
pub data Request : Type 0 where
  uploads : (name content : Bytes) → Request
  downloads : (name : Bytes) → Request
  lists : (rows : List (List Column)) → Request

abbrev pub after : Files → Request → Files
after files (uploads name content) = elim (files name) [
  | none ↦ files
  | some old ↦ put files name (overwritten old content)
]
after files (downloads name) = files
after files (lists rows) = files

abbrev pub reply : Files → Request → Bytes
reply files (uploads name content) = []
reply files (downloads name) = elim (files name) [ none ↦ [] | some content ↦ content ]
reply files (lists rows) = listing_text rows

abbrev pub final : Files → List Request → Files
final files [] = files
final files (r ∷ rs) = final (after files r) rs

abbrev pub replies : Files → List Request → List Bytes
replies files [] = []
replies files (r ∷ rs) = reply files r ∷ replies (after files r) rs

-- A connection that makes a request: the query in one block, the bytes of an upload in whatever blocks.
pub record Session : Type 0 where
  pub request : Request
  pub world : World
  pub incoming : List (Option Bytes)

abbrev pub query : Request → Bytes
query (uploads name content) = memory (query_of q_upload name)
query (downloads name) = memory (query_of q_download name)
query (lists rows) = memory (query_of q_list [])

abbrev pub round_of : Session → Round
round_of s = connects s.world (some (query s.request) ∷ s.incoming)

-- What the session needs of the world for its request.
abbrev pub IsServable : World → List (Option Bytes) → Request → Type 0
IsServable w incoming (uploads name content) =
    NulFree name × (length name < name_size) × (received incoming ≡ content)
IsServable w incoming (downloads name) = NulFree name × (length name < name_size)
IsServable w incoming (lists rows) =
    (w.db_opens ≡ true) × (w.rows ≡ rows) × All (All IsColumn) w.rows

pub record IsSession (s : Session) : Type 0 where
  pub full_disk : Full s.world.disk
  pub full_socket : Full s.world.socket
  pub servable : IsServable s.world s.incoming s.request

-- One connection does what the specification says.
Refines : World → Files → List (Option Bytes) → Request → Type 0
Refines w files incoming r =
    (served : Served) × (proc w files (some (query r) ∷ incoming) ≡ some served)
    × (served.files ≡ after files r)
    × (concat served.sent ≡ reply files r)

missing-upload :
    (w : World) (files : Files) (incoming : List (Option Bytes)) (name : Bytes)
    → files name ≡ none
    → ((serv_file_upload w files incoming name).files ≡ files)
      × ((serv_file_upload w files incoming name).sent ≡ [])
unfolding serv_file_upload
missing-upload w files incoming name gone = ground arith

missing-download :
    (w : World) (files : Files) (name : Bytes)
    → files name ≡ none
    → (serv_file_download w files name).sent ≡ []
unfolding serv_file_download
missing-download w files name gone = ground arith

module _ (w : World) (files : Files) (incoming : List (Option Bytes)) (disk : Full w.disk)
    (socket : Full w.socket) where
  upload-Refines :
      (name content : Bytes)
      → IsServable w incoming (uploads name content)
      → Refines w files incoming (uploads name content)
  unfolding Refines
  upload-Refines name content (no_nul, room, same) =
      let served : Served = returns_one (serv_file_upload w files incoming name) in
      let proceeds = proc-upload w files incoming name no_nul room in
      elim (Option-cases (files name)) [
        | inl gone ↦
            let (kept, silent) = missing-upload w files incoming name gone in
            (served, proceeds, rw (gone, after) kept, ap concat silent)
        | inr (old, there) ↦
            let stores = serv_file_upload-stores w files incoming name old disk there in
            (
              served,
              proceeds,
              rw (there, after)
                  (ap (λ (s : Served). s.files) stores
                    ∙ ap (λ c. put files name (overwritten old c)) same),
              ap (λ (s : Served). concat s.sent) stores,
            )
      ]

  download-Refines :
      (name : Bytes)
      → IsServable w incoming (downloads name)
      → Refines w files incoming (downloads name)
  unfolding Refines
  download-Refines name (no_nul, room) =
      let served : Served = returns_one (serv_file_download w files name) in
      let proceeds = proc-download w files incoming name no_nul room in
      let kept = serv_file_download-files w files name in
      elim (Option-cases (files name)) [
        | inl gone ↦ (
          served,
          proceeds,
          kept,
          rw (gone, reply) (ap concat (missing-download w files name gone)),
        )
        | inr (content, there) ↦ (
          served,
          proceeds,
          kept,
          rw (there, reply) (serv_file_download-concat w files name content socket there),
        )
      ]

  list-Refines :
      (rows : List (List Column))
      → IsServable w incoming (lists rows)
      → Refines w files incoming (lists rows)
  unfolding Refines
  list-Refines rows (opens, same, columns) =
      let (lines, called, text) = callbacks-text w.rows columns in
      (
        record { ret = pos 1; files = files; sent = lines },
        proc-list w files incoming [] tt (omega arith)
            ∙ ap (Option.map returns_one) (serv_file_list-text w files lines socket opens called),
        refl,
        text ∙ ap listing_text same,
      )

proc-Refines :
    (s : Session) (files : Files) → IsSession s → Refines s.world files s.incoming s.request
proc-Refines s files h = serves s.request h.servable
  where
    serves : (r : Request) → IsServable s.world s.incoming r → Refines s.world files s.incoming r
    serves (uploads name content) g =
        upload-Refines s.world files s.incoming h.full_disk h.full_socket name content g
    serves (downloads name) g =
        download-Refines s.world files s.incoming h.full_disk h.full_socket name g
    serves (lists rows) g = list-Refines s.world files s.incoming h.full_disk h.full_socket rows g

-- The parent after all connections, against the specification.
pub record IsStore (files : Files) (requests : List Request) (hosted : Hosted) : Type 0 where
  pub stored : hosted.files ≡ final files requests
  pub answered : map concat hosted.replies ≡ replies files requests
  pub none_held : hosted.held ≡ 0
  pub still_waits : hosted.waits ≡ true

-- Any number of connections one after the other, each with an upload, a download or a listing, with
-- every `send` and `write` full, names that leave room for their NUL, and rows whose lines fit the
-- buffer; an upload is received in whatever blocks. The server refines a store of named contents: each
-- upload writes over the start of a file that is there and changes nothing else, each download is
-- answered with the file as the connections before left it, or with nothing where there is none, each
-- listing with the text of the rows, and the parent holds no connection and waits for more.
pub host-IsStore :
    (files : Files) (sessions : List Session)
    → All IsSession sessions
    → (hosted : Hosted) × (host files (map round_of sessions) ≡ some hosted)
      × IsStore files (map (λ s. s.request) sessions) hosted
unfolding host Refines
host-IsStore files [] h = (
  record { files = files; replies = []; held = 0; waits = true },
  refl,
  record { stored = refl; answered = refl; none_held = refl; still_waits = refl },
)
host-IsStore files (s ∷ sessions) h =
    let (served, proceeds, kept, sent) = proc-Refines s files h.0 in
    let (hosted, hosts, is_store) = host-IsStore (after files s.request) sessions h.1 in
    (
      record hosted { replies = served.sent ∷ hosted.replies },
      host-cons files s.world (some (query s.request) ∷ s.incoming) (map round_of sessions) served
          hosted proceeds (ap (λ f. host f (map round_of sessions)) kept ∙ hosts),
      record {
        stored = is_store.stored;
        answered =
            ap (λ b. b ∷ map concat hosted.replies) sent
            ∙ ap (λ bs. reply files s.request ∷ bs) is_store.answered;
        none_held = is_store.none_held;
        still_waits = is_store.still_waits;
      },
    )
