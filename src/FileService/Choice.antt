-- ===== src/FileService/Choice.antt =====
-- Which request the options of the client lead to.
use network_ex.Common.{
  ℕ, ◌<◌, ◌≤◌, ◌≡◌, ◌≢◌, refl, Option, none, some, List, [], ◌∷◌, true, false, length, arith,
}
use network_ex.Common.Bytes.{Bytes}
use network_ex.FileService.Disk.{Files, Answers}
use network_ex.FileService.Query.{q_upload, q_download, q_list, name_size}
use network_ex.FileService.Client.{upload, download}
use network_ex.FileService.Request.{make_query-none}
use network_ex.FileService.Options.{
  Opt, help_wanted, list_wanted, address, upload_of, download_of, unknown, Options, ipaddr_size,
  fname_size, parsed, named, parse, asks_download, asks_upload, is_empty, request_for, client_main,
}

-- The last of the options that choose a request, and the last file name, from those before.
pub last_command : ℕ → List Opt → ℕ
last_command command [] = command
last_command command (list_wanted ∷ rest) = last_command q_list rest
last_command command (upload_of name ∷ rest) = last_command q_upload rest
last_command command (download_of name ∷ rest) = last_command q_download rest
last_command command (o ∷ rest) = last_command command rest

pub last_name : Bytes → List Opt → Bytes
last_name name [] = name
last_name name (upload_of n ∷ rest) = last_name n rest
last_name name (download_of n ∷ rest) = last_name n rest
last_name name (o ∷ rest) = last_name name rest

-- The request is that of the last of the options -l, -u and -d, and the file is that of the last of
-- -u and -d, whatever stood before, if the loop over the options ends well.
pub parse_last :
    (options : List Opt) (o o' : Options)
    → parse options o ≡ parsed o'
    → (o'.command_type ≡ last_command o.command_type options)
      × (o'.fname ≡ last_name o.fname options)
unfolding parse named last_command last_name
parse_last [] o o' h = ground arith
parse_last (help_wanted ∷ rest) o o' h = absurd (ground arith)
parse_last (unknown ∷ rest) o o' h = absurd (ground arith)
parse_last (list_wanted ∷ rest) o o' h = parse_last rest (record o { command_type = q_list }) o' h
parse_last (address ip ∷ rest) o o' h = parse_last rest (record o { ipaddr = ip }) o' (ground arith)
parse_last (upload_of name ∷ rest) o o' h =
    parse_last rest (record o { command_type = q_upload; fname = name; optflag = true }) o'
      (ground arith)
parse_last (download_of name ∷ rest) o o' h =
    parse_last rest (record o { command_type = q_download; fname = name; optflag = true }) o'
      (ground arith)

is_empty-some : (bs : Bytes) → bs ≢ [] → is_empty bs ≡ false
is_empty-some [] h = absurd (h refl)
is_empty-some (b ∷ bs) h = refl

is_empty-long : (name : Bytes) → name_size ≤ length name → is_empty name ≡ false
is_empty-long [] h = absurd (omega arith)
is_empty-long (b ∷ bs) h = refl

-- An address that is not empty and fits its array, and a file name of 64 to 79 bytes: `main` takes
-- both and asks for the upload, or the download, and if the file is there, the request overflows the
-- name in the query.
pub long_name_overflows :
    (ip name content : Bytes) (files : Files) (socket disk : Answers)
    (incoming : List (Option Bytes))
    → ip ≢ []
    → length ip < ipaddr_size
    → name_size ≤ length name
    → length name < fname_size
    → files name ≡ some content
    → (client_main true true (address ip ∷ upload_of name ∷ []) ≡ some (asks_upload name))
      × (client_main true true (address ip ∷ download_of name ∷ []) ≡ some (asks_download name))
      × (upload socket files name ≡ none)
      × (download socket disk files incoming name ≡ none)
unfolding client_main parse named request_for upload download
long_name_overflows ip name content files socket disk incoming some_ip ip_fits long fits there = (
  ground (arith, is_empty-some ip some_ip, is_empty-long name long),
  ground (arith, is_empty-some ip some_ip, is_empty-long name long),
  ground (arith, make_query-none q_upload name long),
  ground (arith, make_query-none q_download name long),
)
