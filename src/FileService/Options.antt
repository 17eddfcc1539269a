-- ===== src/FileService/Options.antt =====
-- `main` of 26_file_server/file_cli/main.c: the options, and the request that is made for them.
use network_ex.Common.{
  ℕ, Option, none, some, List, [], ◌∷◌, Bool, true, false, length, ltb, ◌==◌, ◌&&◌, if◌then◌else◌,
}
use network_ex.Common.Bytes.{Bytes}
use network_ex.FileService.Query.{q_upload, q_download, q_list}

-- What `getopt` answers: an option with its argument, or '?' for what "hli:u:d:" does not have.
pub data Opt : Type 0 where
  help_wanted : Opt
  list_wanted : Opt
  address : Bytes → Opt
  upload_of : Bytes → Opt
  download_of : Bytes → Opt
  unknown : Opt

-- The variables of `main`.
pub record Options : Type 0 where
  pub ipaddr : Bytes
  pub fname : Bytes
  pub command_type : ℕ
  pub optflag : Bool

abbrev pub no_options : Options
no_options = record { ipaddr = []; fname = []; command_type = 0; optflag = false }

abbrev pub ipaddr_size : ℕ
ipaddr_size = 36

abbrev pub fname_size : ℕ
fname_size = 80

-- How the loop over the options ends: with the usage, in an array that is overrun, or well.
pub data Parsed : Type 0 where
  usage : Parsed
  overrun : Parsed
  parsed : Options → Parsed

-- The cases of 'u' and 'd': the option is stored where the name with its NUL fits `fname`.
unfoldable pub named : ℕ → Bytes → Options → Option Options
named command name o =
    if ltb (length name) fname_size
    then some (record o { command_type = command; fname = name; optflag = true })
    else none

unfoldable pub parse : List Opt → Options → Parsed
unfolding named
parse [] o = parsed o
parse (help_wanted ∷ rest) o = usage
parse (unknown ∷ rest) o = usage
parse (list_wanted ∷ rest) o = parse rest (record o { command_type = q_list })
parse (address ip ∷ rest) o =
    let more = parse rest (record o { ipaddr = ip }) in
    if ltb (length ip) ipaddr_size then more else overrun
parse (upload_of name ∷ rest) o = elim (named q_upload name o) [
  | none ↦ overrun
  | some o' ↦ parse rest o'
]
parse (download_of name ∷ rest) o = elim (named q_download name o) [
  | none ↦ overrun
  | some o' ↦ parse rest o'
]

-- What `main` goes on to: one of its early returns, or a request on the connected socket.
pub data Request : Type 0 where
  returns : ℕ → Request
  asks_list : Request
  asks_download : Bytes → Request
  asks_upload : Bytes → Request
  unknown_command : Request

abbrev pub is_empty : Bytes → Bool
is_empty [] = true
is_empty (b ∷ bs) = false

-- The checks after the loop and the switch, with the outcomes of `socket` and `connect`.
unfoldable pub request_for : Bool → Bool → Options → Request
request_for has_socket connects o =
    if is_empty o.ipaddr
    then returns 0
    else if is_empty o.fname && o.optflag
    then returns 0
    else if has_socket
    then if connects
      then if o.command_type == q_list
        then asks_list
        else if o.command_type == q_download
        then asks_download o.fname
        else if o.command_type == q_upload
        then asks_upload o.fname
        else unknown_command
      else returns 0
    else returns 1

-- `main` up to the request; `none` where an array is overrun.
unfoldable pub client_main : Bool → Bool → List Opt → Option Request
client_main has_socket connects options = elim (parse options no_options) [
  | usage ↦ some (returns 1)
  | overrun ↦ none
  | parsed o ↦ some (request_for has_socket connects o)
]
