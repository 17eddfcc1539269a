-- ===== src/Stdio/Entries.antt =====
-- What the formatted server reads.
use network_ex.Common.{
  ℕ, ◌<◌, ◌≡◌, ◌≢◌, refl, ap, ◌∙◌, some, [], ◌∷◌, ◌++◌, false, All, length, lt→ltb, arith,
}
use network_ex.Common.Bytes.{Bytes, NulFree}
use network_ex.Common.Int.{ℤ, IsInt}
use network_ex.Common.Decimal.{decimal_ℤ}
use network_ex.Common.ScanfLaws.{scan_int-decimal_ℤ}
use network_ex.Stdio.Formatted.{
  Vars, name_size, message_size, break_at, Scan, scanned, newline, field, literal, number,
  scan_message, scan_age, scan_entry, closed, undefined_call, after_scan, talk,
}

break_at-append :
    (stop : ℕ) (item rest : Bytes)
    → All (λ b. b ≢ stop) item
    → break_at stop (item ++ stop ∷ rest) ≡ (item, stop ∷ rest)
unfolding break_at
break_at-append stop [] rest h = ground arith
break_at-append stop (b ∷ item) rest h = ground (arith, break_at-append stop item rest h.1)

-- An entry of a client.
pub record Entry : Type 0 where
  pub nickname : Bytes
  pub realname : Bytes
  pub age : ℤ
  pub message : Bytes

-- A string for an array: some bytes, neither NUL nor the one that ends it, with room for a NUL.
pub record IsItem (stop size : ℕ) (item : Bytes) : Type 0 where
  pub not_empty : item ≢ []
  pub plain : All (λ b. b ≢ stop) item
  pub no_nul : NulFree item
  pub room : length item < size

pub record IsEntry (e : Entry) : Type 0 where
  pub nickname_item : IsItem b',' name_size e.nickname
  pub realname_item : IsItem b',' name_size e.realname
  pub age_int : IsInt e.age
  pub message_item : IsItem newline message_size e.message

field-item :
    (size stop : ℕ) (v : Vars) (item rest : Bytes) (next : Bytes → Bytes → Scan)
    → IsItem stop size item
    → field size v (break_at stop (item ++ stop ∷ rest)) next ≡ next item (stop ∷ rest)
field-item size stop v [] rest next h = absurd (h.not_empty refl)
field-item size stop v (b ∷ item) rest next h =
    ap (λ p. field size v p next) (break_at-append stop (b ∷ item) rest h.plain)
    ∙ rw (lt→ltb _ _ h.room) refl

-- The entry stands in the variables, and the rest is left.
abbrev pub taken : Entry → Vars
taken e = record {
  nickname = some e.nickname;
  realname = some e.realname;
  age = some e.age;
  message = some e.message;
}

scan_message-item :
    (v : Vars) (item rest : Bytes)
    → IsItem newline message_size item
    → scan_message v (item ++ newline ∷ rest)
      ≡ scanned (record v { message = some item }) rest false
scan_message-item v item rest h = field-item message_size newline v item rest _ h

scan_age-number :
    (v : Vars) (age : ℤ) (item rest : Bytes)
    → IsInt age
    → IsItem newline message_size item
    → scan_age v (decimal_ℤ age ++ b',' ∷ (item ++ newline ∷ rest))
      ≡ scanned (record v { age = some age; message = some item }) rest false
scan_age-number v age item rest h i =
    let behind : Bytes = b',' ∷ (item ++ newline ∷ rest) in
    ap
      (λ c.
        number v (decimal_ℤ age ++ behind) c
          (λ z s. let v' = record v { age = some z } in literal b',' v' s (scan_message v')))
      (scan_int-decimal_ℤ age behind h refl)
    ∙ scan_message-item (record v { age = some age }) item rest i

-- An entry with what follows it.
abbrev pub line_then : Entry → Bytes → Bytes
line_then e rest =
    e.nickname
    ++ b',' ∷ (e.realname ++ b',' ∷ (decimal_ℤ e.age ++ b',' ∷ (e.message ++ newline ∷ rest)))

scan_entry-line :
    (v : Vars) (e : Entry) (rest : Bytes)
    → IsEntry e
    → scan_entry v (line_then e rest) ≡ scanned (taken e) rest false
unfolding scan_entry
scan_entry-line v e rest h =
    field-item name_size b',' v e.nickname _ _ h.nickname_item
    ∙ field-item name_size b',' (record v { nickname = some e.nickname }) e.realname _ _
        h.realname_item
    ∙ scan_age-number (record v { nickname = some e.nickname; realname = some e.realname }) e.age
        e.message rest h.age_int h.message_item

talk-scanned :
    (v v' : Vars) (s rest : Bytes)
    → scan_entry v s ≡ scanned v' rest false
    → talk v s ≡ undefined_call
unfolding talk
talk-scanned v v' s rest h = ap after_scan h

talk-end : (v : Vars) → talk v [] ≡ closed
unfolding talk scan_entry break_at
talk-end v = refl

-- A line of a client: names that are not empty, have no comma and no NUL and fit their arrays, an age
-- that is an `int`, a message that is not empty, has no newline and no NUL and fits its array; and
-- whatever follows. Whatever the variables held before, `fscanf` stores the two names, the age and the
-- message of the line, and leaves what follows it; the `fprintf` behind it is undefined. A client that
-- ends the stream at once is closed.
pub scan_entry-talk :
    (v : Vars) (e : Entry) (rest : Bytes)
    → IsEntry e
    → (scan_entry v (line_then e rest) ≡ scanned (taken e) rest false)
      × (talk v (line_then e rest) ≡ undefined_call)
      × (talk v [] ≡ closed)
scan_entry-talk v e rest h =
    let stored = scan_entry-line v e rest h in
    (stored, talk-scanned v (taken e) (line_then e rest) rest stored, talk-end v)
