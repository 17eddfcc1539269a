-- ===== src/Stdio/Examples.antt =====
-- A line and an end to the line server, and an entry to the formatted server.
use network_ex.Common.{ℕ, ◌≡◌, ◌≢◌, true, false, [], ◌∷◌, ◌++◌, Bool, arith}
use network_ex.Common.Bytes.{Bytes, codes}
use network_ex.Common.Int.{pos}
use network_ex.Stdio.Lines.{opened, undefined, ends, echo_lines}
use network_ex.Stdio.Echoed.{IsShort, echo_lines_lem}
use network_ex.Stdio.Formatted
use network_ex.Stdio.Formatted.{unset, scanned, scan_entry, talk}
use network_ex.Stdio.Entries.{Entry, line_then, IsEntry, taken, scan_entry-talk}

abbrev puts : ℕ → Bool
puts k = true

one-IsShort : IsShort (codes "one")
one-IsShort = record { one_line = omega arith; no_nul = omega arith; room = omega arith }

echo_lines_lem_example :
    (echo_lines puts 4 0 opened (codes "one" ++ 10 ∷ codes "two") ≡ ends undefined)
    × (echo_lines puts 5 0 opened (codes "one")
        ≡ record { echoed = codes "one" ∷ []; ending = undefined })
echo_lines_lem_example = echo_lines_lem puts 3 0 (codes "one") (codes "two") one-IsShort

abbrev entry : Entry
entry = record {
  nickname = codes "al";
  realname = codes "Alan";
  age = pos 41;
  message = codes "hi";
}

not_empty : (b : ℕ) (s : Bytes) → b ∷ s ≢ []
not_empty b s e = grind arith

entry-IsEntry : IsEntry entry
entry-IsEntry = record {
  nickname_item = record {
    not_empty = not_empty _ _;
    plain = ground arith;
    no_nul = omega arith;
    room = omega arith;
  };
  realname_item = record {
    not_empty = not_empty _ _;
    plain = ground arith;
    no_nul = omega arith;
    room = omega arith;
  };
  age_int = omega arith;
  message_item = record {
    not_empty = not_empty _ _;
    plain = ground arith;
    no_nul = omega arith;
    room = omega arith;
  };
}

scan_entry-talk_example :
    (scan_entry unset (line_then entry (codes "more")) ≡ scanned (taken entry) (codes "more") false)
    × (talk unset (line_then entry (codes "more")) ≡ Formatted.undefined_call)
    × (talk unset [] ≡ Formatted.closed)
scan_entry-talk_example = scan_entry-talk unset entry (codes "more") entry-IsEntry
