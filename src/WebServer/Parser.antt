-- ===== src/WebServer/Parser.antt =====
-- `protocol_parser`: the first three words of a request, by `strtok`, into the fields of
-- `struct user_request`.
use network_ex.Common.{
  ℕ, zero, suc, ◌+◌, Option, none, some, [], ◌∷◌, Bool, ◌||◌, length, ltb, ◌==◌, if◌then◌else◌,
}
use network_ex.Common.Bytes.{Bytes}

-- The C strings in the three arrays.
pub record UserRequest : Type 0 where
  pub method : Bytes
  pub page : Bytes
  pub http_ver : Bytes

-- The structure after `memset`.
abbrev pub cleared : UserRequest
cleared = record { method = []; page = []; http_ver = [] }

abbrev pub method_size : ℕ
method_size = 20

abbrev pub page_size : ℕ
page_size = 255

abbrev pub http_ver_size : ℕ
http_ver_size = 80

-- The bytes of `token`.
unfoldable pub is_delimiter : ℕ → Bool
is_delimiter b = b == b' ' || b == 13 || b == 10

-- What `strtok` skips before a token.
unfoldable pub skip : Bytes → Bytes
skip [] = []
skip (b ∷ bs) = let rest = skip bs in if is_delimiter b then rest else b ∷ bs

-- The bytes up to the next delimiter, and those behind it.
unfoldable pub split : Bytes → Bytes × Bytes
split [] = ([], [])
split (b ∷ bs) =
    let (token, rest) = split bs in if is_delimiter b then ([], bs) else (b ∷ token, rest)

token_at : Bytes → Option (Bytes × Bytes)
unfolding split
token_at [] = none
token_at (b ∷ bs) = some (split (b ∷ bs))

-- A call of `strtok`: the next token, and where the next call goes on; `none` for NULL.
unfoldable pub strtok : Bytes → Option (Bytes × Bytes)
unfolding skip token_at
strtok str = token_at (skip str)

-- `strcpy` into a field; `none` where the token with its NUL does not fit.
unfoldable pub copy_field : ℕ → Bytes → UserRequest → Option UserRequest
copy_field zero token request =
    if ltb (length token) method_size then some (record request { method = token }) else none
copy_field (suc zero) token request =
    if ltb (length token) page_size then some (record request { page = token }) else none
copy_field (suc (suc zero)) token request =
    if ltb (length token) http_ver_size then some (record request { http_ver = token }) else none
copy_field _ token request = some request

-- The loop, with the rounds left, `i` and `tr`.
unfoldable pub parse_loop : ℕ → ℕ → Option (Bytes × Bytes) → UserRequest → Option UserRequest
unfolding copy_field strtok
parse_loop zero i tr request = some request
parse_loop (suc n) i none request = some request
parse_loop (suc n) i (some (token, rest)) request = elim (copy_field i token request) [
  | none ↦ none
  | some request' ↦ parse_loop n (i + 1) (strtok rest) request'
]

-- `none` where a `strcpy` overflows its field.
unfoldable pub protocol_parser : Bytes → UserRequest → Option UserRequest
unfolding parse_loop strtok is_delimiter
protocol_parser str request = parse_loop 3 0 (strtok str) request
