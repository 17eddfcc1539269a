-- ===== src/Calc/Client.antt =====
-- The loops of 9_UDP/calc_linux_cli/main.c, over the bytes of its standard input, and of
-- 9_UDP/calc_linux_server/main.c, over datagrams.
use network_ex.Common.{ℕ, Option, none, some, List, [], ◌∷◌, ◌++◌, Bool, true, false}
use network_ex.Common.Bytes.{Bytes, c_string}
use network_ex.Common.Fgets.{take_line}
use network_ex.Calc.Arith.{CalData}
use network_ex.Calc.Udp.{Served, serve, Printed, print}
use network_ex.Calc.Input.{Input, Asked, quits, sends, ask}

-- The most bytes that `fgets(msg, MAXLEN-1, stdin)` stores before the NUL.
abbrev pub line_max : ℕ
line_max = 254

-- The string in `msg` after `fgets`, which leaves it as it was at the end of the input, and the input
-- that is left. `none` before the first line.
abbrev pub read_msg : Option Bytes → Bytes → Option Bytes × Bytes
read_msg msg [] = (msg, [])
read_msg msg (b ∷ input) =
    let (line, rest) = take_line line_max (b ∷ input) in (c_string (line ++ 0 ∷ []), rest)

abbrev pub asked_of : Option Bytes → Input → Option Asked
asked_of none v = none
asked_of (some text) v = ask text v

-- What the client has sent and printed, and whether it has ended.
pub record Talked : Type 0 where
  pub sent : List CalData
  pub printed : List Printed
  pub ended : Bool

abbrev pub then_printed : CalData → Printed → Option Talked → Option Talked
then_printed datagram shown none = none
then_printed datagram shown (some t) =
    some (record { sent = datagram ∷ t.sent; printed = shown ∷ t.printed; ended = t.ended })

-- `sdata` after `recvfrom`, which leaves it as it was where it fails.
abbrev pub received : CalData → Option CalData → CalData
received sdata none = sdata
received sdata (some reply) = reply

-- A round whose `recvfrom` has not returned.
abbrev pub last_round : Option Asked → Option Talked
last_round none = none
last_round (some quits) = some (record { sent = []; printed = []; ended = true })
last_round (some (sends v sdata)) = some (record { sent = sdata ∷ []; printed = []; ended = false })

-- A round whose `recvfrom` gives `reply`, and the rounds behind it.
abbrev pub one_round : Option CalData → (Input → Option Talked) → Option Asked → Option Talked
one_round reply more none = none
one_round reply more (some quits) = some (record { sent = []; printed = []; ended = true })
one_round reply more (some (sends v sdata)) =
    then_printed sdata (print (received sdata reply)) (more v)

-- The loop of the client, with what each `recvfrom` gives. `none` where `sscanf` is undefined, and where
-- the input ends before its first line.
unfoldable pub client_loop : Option Bytes → Input → Bytes → List (Option CalData) → Option Talked
client_loop msg v input [] = last_round (asked_of (read_msg msg input).0 v)
client_loop msg v input (reply ∷ replies) =
    let (text, rest) = read_msg msg input in
    one_round reply (λ v'. client_loop text v' rest replies) (asked_of text v)

abbrev pub then_reply : CalData → Option (List CalData) → Option (List CalData)
then_reply reply none = none
then_reply reply (some replies) = some (reply ∷ replies)

-- A round of the server, and the rounds behind it from the number that it leaves.
abbrev pub then_rounds : (ℕ → Option (List CalData)) → Option Served → Option (List CalData)
then_rounds more none = none
then_rounds more (some served) = then_reply served.rdata (more served.cal_result)

-- The loop of the server: what it sends back, in order, from the number in `cal_result`.
unfoldable pub serve_loop : ℕ → List CalData → Option (List CalData)
serve_loop cal_result [] = some []
serve_loop cal_result (rdata ∷ rest) = then_rounds (λ n. serve_loop n rest) (serve cal_result rdata)
