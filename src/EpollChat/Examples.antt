-- ===== src/EpollChat/Examples.antt =====
-- A word of the descriptor 5, where 5 and 6 are in the table.
use network_ex.Common.{ℕ, ◌==◌, if◌then◌else◌}
use network_ex.Common.Bytes.{codes}
use network_ex.Common.Int.{ℤ, pos, negsuc}
use network_ex.EpollChat.Server.{Udata, user_name, send_msg}
use network_ex.EpollChat.Delivery.{IsSent, send_msg_lem}

abbrev first : Udata
first = record { fd = 5; name = user_name 5 }

abbrev two : ℕ → ℤ
two i = if i == 5 then pos 1 else if i == 6 then pos 1 else negsuc 0

send_msg_lem_example : IsSent first (codes "hi") two (send_msg first (codes "hi") two)
send_msg_lem_example = send_msg_lem first (codes "hi") two
