-- ===== src/Calc/Udp.antt =====
-- 9_UDP/calc_linux_server/main.c, and the datagrams of its client 9_UDP/calc_linux_cli/main.c.
use network_ex.Common.{ℕ, Option, none, some, List, [], ◌∷◌, ◌==◌, if◌then◌else◌}
use network_ex.Common.Words.{htonl, ntohl, htons}
use network_ex.Calc.Arith.{CalData, add32, sub32, mul32, div32}

-- `cal_result`, which lives over the rounds of the loop, and the datagram that is sent back.
pub record Served : Type 0 where
  pub cal_result : ℕ
  pub rdata : CalData

-- `rdata.result = htonl(cal_result)`
abbrev pub reply : ℕ → CalData → Served
reply cal_result rdata = record {
  cal_result = cal_result;
  rdata = record rdata { result = htonl cal_result };
}

-- The case of '/'.
unfoldable pub divide : ℕ → CalData → Option Served
divide cal_result rdata =
    let left_num = ntohl rdata.left_num in
    let right_num = ntohl rdata.right_num in
    if right_num == 0
    then some (reply cal_result (record rdata { error = htons 2 }))
    else elim (div32 left_num right_num) [ none ↦ none | some q ↦ some (reply q rdata) ]

-- One round of the loop, on the datagram that `recvfrom` left in `rdata`. `none` where the division
-- traps.
unfoldable pub serve : ℕ → CalData → Option Served
unfolding divide
serve cal_result rdata =
    let left_num = ntohl rdata.left_num in
    let right_num = ntohl rdata.right_num in
    if rdata.op == b'+'
    then some (reply (add32 left_num right_num) rdata)
    else if rdata.op == b'-'
    then some (reply (sub32 left_num right_num) rdata)
    else if rdata.op == b'*'
    then some (reply (mul32 left_num right_num) rdata)
    else if rdata.op == b'/'
    then divide cal_result rdata
    else some (reply cal_result rdata)

-- The loop over the datagrams that come: `cal_result` after them.
unfoldable pub serve_all : ℕ → List CalData → Option ℕ
serve_all cal_result [] = some cal_result
serve_all cal_result (rdata ∷ rest) = elim (serve cal_result rdata) [
  | none ↦ none
  | some served ↦ serve_all served.cal_result rest
]

-- The datagram that the client makes of its input: cleared, and then three fields set.
unfoldable pub request : ℕ → ℕ → ℕ → CalData
request left_num op right_num = record {
  left_num = htonl left_num;
  right_num = htonl right_num;
  op = op;
  result = 0;
  error = 0;
}

-- The four values that the client prints of the answer: "%d %c %d = %d".
pub record Printed : Type 0 where
  pub left_num : ℕ
  pub op : ℕ
  pub right_num : ℕ
  pub result : ℕ

unfoldable pub print : CalData → Printed
print sdata = record {
  left_num = ntohl sdata.left_num;
  op = sdata.op;
  right_num = ntohl sdata.right_num;
  result = ntohl sdata.result;
}
