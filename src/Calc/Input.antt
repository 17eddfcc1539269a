-- ===== src/Calc/Input.antt =====
-- The keyboard loop of 9_UDP/calc_linux_cli/main.c: `fgets`, `strncmp` and
-- `sscanf(msg, "%d%[^0-9]%d", &left_num, op, &right_num)`.
use network_ex.Common.{ℕ, Option, none, some, [], ◌∷◌, ◌++◌, false, take, if◌then◌else◌}
use network_ex.Common.Bytes.{Bytes, codes, bytes_eq}
use network_ex.Common.Int.{pattern_of}
use network_ex.Common.Scanf.{span, Scanned, no_match, undefined, matched, scan_int}
use network_ex.Calc.Arith.{CalData}
use network_ex.Calc.Udp.{request}

-- The variables of `main`: `left_num` and `right_num` as 32-bit patterns, and `op[0]`.
pub record Input : Type 0 where
  pub left_num : ℕ
  pub op : ℕ
  pub right_num : ℕ

abbrev pub read_op : Bytes × Bytes → Scanned ℕ
read_op ([], rest) = no_match
read_op (b ∷ [], rest) = matched b rest
read_op (b ∷ c ∷ more, rest) = undefined

-- "%[^0-9]" into the 2 bytes of `op`.
unfoldable pub scan_op : Bytes → Scanned ℕ
unfolding span
scan_op s = read_op (span false s)

-- `sscanf` on the line: what does not match is left as it was; `none` where it is undefined.
unfoldable pub scan_line : Bytes → Input → Option Input
scan_line msg v = elim (scan_int msg) [
  | no_match ↦ some v
  | undefined ↦ none
  | matched left rest ↦
      let v1 = record v { left_num = pattern_of left } in
      elim (scan_op rest) [
        | no_match ↦ some v1
        | undefined ↦ none
        | matched op rest' ↦
            let v2 = record v1 { op = op } in
            elim (scan_int rest') [
              | no_match ↦ some v2
              | undefined ↦ none
              | matched right rest'' ↦ some (record v2 { right_num = pattern_of right })
            ]
      ]
]

-- What a round of the loop comes to.
pub data Asked : Type 0 where
  quits : Asked
  sends : Input → CalData → Asked

-- One round, on the line that `fgets` left in `msg`.
unfoldable pub ask : Bytes → Input → Option Asked
ask msg v =
    if bytes_eq (take 5 msg) (codes "quit" ++ 10 ∷ []) then some quits else elim (scan_line msg v) [
      | none ↦ none
      | some v' ↦ some (sends v' (request v'.left_num v'.op v'.right_num))
    ]
