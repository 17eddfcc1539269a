-- ===== src/FileService/Dispatch.antt =====
-- `proc` on the query that the client makes: which handler runs, and on what.
use mathlib.Core.Option
use Prim.Native.Nat.{◌^◌}
use network_ex.Common.{ℕ, ◌<◌, ◌≡◌, ap, ◌∙◌, some, List, ◌∷◌, Option, length, arith}
use network_ex.Common.Bytes.{Bytes, NulFree, c_string}
use network_ex.Common.Words.{ntohl}
use network_ex.FileService.Disk.{Files}
use network_ex.FileService.Query.{Cquery, memory, name_size, q_upload, q_download, q_list}
use network_ex.FileService.Request.{query_of, query_round_trip}
use network_ex.FileService.Server.{
  World, serv_file_upload, serv_file_download, serv_file_list, dispatch, proc, returns_one,
}

module _ (w : World) (files : Files) (incoming : List (Option Bytes)) where
  dispatch-upload :
      (query : Cquery) (name : Bytes)
      → ntohl query.command ≡ q_upload
      → c_string query.f_name ≡ some name
      → dispatch w files incoming query
        ≡ some (returns_one (serv_file_upload w files incoming name))
  unfolding dispatch
  dispatch-upload query name c n = ground arith

  dispatch-download :
      (query : Cquery) (name : Bytes)
      → ntohl query.command ≡ q_download
      → c_string query.f_name ≡ some name
      → dispatch w files incoming query ≡ some (returns_one (serv_file_download w files name))
  unfolding dispatch
  dispatch-download query name c n = ground arith

  dispatch-list :
      (query : Cquery)
      → ntohl query.command ≡ q_list
      → dispatch w files incoming query ≡ Option.map returns_one (serv_file_list w files)
  unfolding dispatch
  dispatch-list query c = ground arith

  module _ (name : Bytes) (no_nul : NulFree name) (room : length name < name_size) where
    proc-dispatch :
        (command : ℕ)
        → command < 2 ^ 32
        → proc w files (some (memory (query_of command name)) ∷ incoming)
          ≡ dispatch w files incoming (query_of command name)
    unfolding proc
    proc-dispatch command small =
        ap (dispatch w files incoming)
          (query_round_trip command name w.stack small no_nul room).read

    -- The client's upload query reaches `serv_file_upload` with the client's name.
    pub proc-upload :
        proc w files (some (memory (query_of q_upload name)) ∷ incoming)
        ≡ some (returns_one (serv_file_upload w files incoming name))
    proc-upload =
        let trip = query_round_trip q_upload name w.stack (omega arith) no_nul room in
        proc-dispatch q_upload (omega arith)
        ∙ dispatch-upload (query_of q_upload name) name trip.command_read trip.name_read

    -- And so for a download.
    pub proc-download :
        proc w files (some (memory (query_of q_download name)) ∷ incoming)
        ≡ some (returns_one (serv_file_download w files name))
    proc-download =
        let trip = query_round_trip q_download name w.stack (omega arith) no_nul room in
        proc-dispatch q_download (omega arith)
        ∙ dispatch-download (query_of q_download name) name trip.command_read trip.name_read

    -- And for a listing, whatever stands in the name.
    pub proc-list :
        proc w files (some (memory (query_of q_list name)) ∷ incoming)
        ≡ Option.map returns_one (serv_file_list w files)
    proc-list =
        let trip = query_round_trip q_list name w.stack (omega arith) no_nul room in
        proc-dispatch q_list (omega arith) ∙ dispatch-list (query_of q_list name) trip.command_read
