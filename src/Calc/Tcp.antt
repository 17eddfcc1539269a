-- ===== src/Calc/Tcp.antt =====
-- 8_TCP/cal_server/main.c: a round of the server, and its loop.
use network_ex.Common.{
  ℕ, ◌+◌, ◌-◌, ◌*◌, ◌/◌, ◌%◌, ◌^◌, List, [], ◌∷◌, Bool, true, false, ltb, ◌==◌, if◌then◌else◌,
}
use network_ex.Common.Words.{htonl, htons, ntohs}
use network_ex.Calc.Arith.{CalData}

-- An `int` cut to the `short int` of `cal_result`.
abbrev pub short : ℕ
short = 2 ^ 16

-- A `short int` as an `int`: the sign bit is copied.
abbrev pub extend : ℕ → ℕ
extend w = if ltb w (2 ^ 15) then w else w + (2 ^ 32 - 2 ^ 16)

pub record Served : Type 0 where
  pub cal_result : ℕ
  pub rdata : CalData

-- `cal_result` after the switch; it keeps its value on a division by 0 and on an unknown operation.
-- What the switch stores in `error` is written over below it.
unfoldable pub computed : ℕ → ℕ → ℕ → ℕ → ℕ
computed cal_result op left_num right_num =
    if op == b'+'
    then (left_num + right_num) % short
    else if op == b'-'
    then (left_num + 2 ^ 32 - right_num) % short
    else if op == b'*'
    then left_num * right_num % short
    else if op == b'/'
    then if right_num == 0 then cal_result else left_num / right_num % short
    else cal_result

-- `error` after the switch.
unfoldable pub error_code : ℕ → ℕ → ℕ
error_code op right_num =
    if op == b'+'
    then 0
    else if op == b'-'
    then 0
    else if op == b'*'
    then 0
    else if op == b'/'
    then if right_num == 0 then 2 else 0
    else 1

-- One round, on what `read` left in `rdata`.
unfoldable pub serve : ℕ → CalData → Served
serve cal_result rdata =
    let left_num = ntohs rdata.left_num in
    let right_num = ntohs rdata.right_num in
    let rdata' = record rdata { error = error_code rdata.op right_num } in
    let cal_result' = computed cal_result rdata.op left_num right_num in
    record {
      cal_result = cal_result';
      rdata = record rdata' { result = htonl (extend cal_result'); error = htons cal_result' };
    }

-- One round of the loop of `main`: whether `accept` works, and what `read` makes of `rdata`, which
-- keeps what it held before where no byte comes.
pub record Round : Type 0 where
  pub accepts : Bool
  pub read : CalData → CalData

-- What was written to the connections in order, and whether `main` still waits.
pub record Hosted : Type 0 where
  pub written : List CalData
  pub waits : Bool

abbrev pub then_written : CalData → Hosted → Hosted
then_written rdata hosted = record hosted { written = rdata ∷ hosted.written }

-- The loop of `main` with `cal_result` and `rdata`.
unfoldable pub tcp_loop : ℕ → CalData → List Round → Hosted
tcp_loop cal_result rdata [] = record { written = []; waits = true }
tcp_loop cal_result rdata (round ∷ rounds) =
    let served = serve cal_result (round.read rdata) in
    let more = tcp_loop served.cal_result served.rdata rounds in
    if round.accepts then then_written served.rdata more else record { written = []; waits = false }
