-- ===== src/Stdio/Formatted.antt =====
-- 12_recv_send/echo_server_formattedio/main.c:
-- `fscanf(sock_fp, "%[^,],%[^,],%d,%[^\n]%*c", nickname, realname, &age, message)`, and the loop around it.
use network_ex.Common.{
  ℕ, Option, none, some, [], ◌∷◌, Bool, true, false, length, ltb, ◌==◌, if◌then◌else◌,
}
use network_ex.Common.Bytes.{Bytes}
use network_ex.Common.Int.{ℤ}
use network_ex.Common.Scanf.{skip_spaces, Scanned, no_match, undefined, matched, scan_int}

-- The variables of `main`; `none` before they are set.
pub record Vars : Type 0 where
  pub nickname : Option Bytes
  pub realname : Option Bytes
  pub age : Option ℤ
  pub message : Option Bytes

abbrev pub unset : Vars
unset = record { nickname = none; realname = none; age = none; message = none }

abbrev pub name_size : ℕ
name_size = 24

abbrev pub message_size : ℕ
message_size = 256

-- The bytes before the first `stop`, and the rest.
unfoldable pub break_at : ℕ → Bytes → Bytes × Bytes
break_at stop [] = ([], [])
break_at stop (b ∷ s) =
    let (item, rest) = break_at stop s in if b == stop then ([], b ∷ s) else (b ∷ item, rest)

-- How a call of `fscanf` ends: undefined, where a string does not fit its array or the number is no
-- `int`, or with the variables, the bytes that it has not taken, and whether it met the end.
pub data Scan : Type 0 where
  overruns : Scan
  scanned : Vars → Bytes → Bool → Scan

abbrev pub is_end : Bytes → Bool
is_end [] = true
is_end (b ∷ s) = false

-- Where a conversion fails, the call ends there.
abbrev pub stops : Vars → Bytes → Scan
stops v rest = scanned v rest (is_end rest)

-- "%[^,]" and the like, with the size of the array, and what follows it.
abbrev pub field : ℕ → Vars → Bytes × Bytes → (Bytes → Bytes → Scan) → Scan
field size v ([], rest) next = stops v rest
field size v (b ∷ item, rest) next =
    if ltb (length (b ∷ item)) size then next (b ∷ item) rest else overruns

-- A byte of the format.
abbrev pub literal : ℕ → Vars → Bytes → (Bytes → Scan) → Scan
literal c v [] next = stops v []
literal c v (b ∷ rest) next = if b == c then next rest else stops v (b ∷ rest)

-- "%*c"
abbrev pub skip_one : Vars → Bytes → Scan
skip_one v [] = stops v []
skip_one v (b ∷ rest) = scanned v rest false

-- What a failed "%d" has not taken: it takes spaces and a sign.
abbrev pub after_sign : Bytes → Bytes
after_sign [] = []
after_sign (b ∷ s) = if b == b'-' then s else if b == b'+' then s else b ∷ s

abbrev pub number : Vars → Bytes → Scanned ℤ → (ℤ → Bytes → Scan) → Scan
number v s no_match next = stops v (after_sign (skip_spaces s))
number v s undefined next = overruns
number v s (matched z rest) next = next z rest

abbrev pub newline : ℕ
newline = 10

abbrev pub scan_message : Vars → Bytes → Scan
scan_message v s =
    field message_size v (break_at newline s)
      (λ item rest. skip_one (record v { message = some item }) rest)

abbrev pub scan_age : Vars → Bytes → Scan
scan_age v s =
    number v s (scan_int s)
      (λ z rest. let v' = record v { age = some z } in literal b',' v' rest (scan_message v'))

abbrev pub scan_realname : Vars → Bytes → Scan
scan_realname v s =
    field name_size v (break_at b',' s) (λ item rest.
      let v' = record v { realname = some item } in literal b',' v' rest (scan_age v'))

-- The whole format.
unfoldable pub scan_entry : Vars → Bytes → Scan
scan_entry v s = field name_size v (break_at b',' s) (λ item rest.
    let v' = record v { nickname = some item } in literal b',' v' rest (scan_realname v'))

-- How the inner loop on a connection comes out.
pub data Ending : Type 0 where
  closed undefined_call : Ending

-- After a call of `fscanf`. The stream is closed once its end is met; where it is not, `fprintf` comes
-- right after `fscanf`, which is undefined, so there is no other round.
abbrev pub after_scan : Scan → Ending
after_scan overruns = undefined_call
after_scan (scanned v rest true) = closed
after_scan (scanned v rest false) = undefined_call

-- The inner loop on the bytes of the stream, up to its end.
unfoldable pub talk : Vars → Bytes → Ending
talk v s = after_scan (scan_entry v s)
