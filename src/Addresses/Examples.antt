-- ===== src/Addresses/Examples.antt =====
-- An IPv6 address that no interface connects, and an IPv4 one; two sockets to listen; 10.0.0.1.
use network_ex.Common.{ℕ, ◌+◌, ◌^◌, ◌≡◌, some, [], ◌∷◌, true, false, if◌then◌else◌, arith}
use network_ex.Common.Bytes.{codes}
use network_ex.Common.Words.{ntohl}
use network_ex.Addresses.Connect
use network_ex.Addresses.Listen
use network_ex.Addresses.AllBound.{all_work, first_sockets, listen_main_lem}
use network_ex.Addresses.Class.{class_of, check_class}
use network_ex.Addresses.ClassRange.{class_by_range, check_class_lem}

abbrev eth : Connect.Interface
eth = record { if_name = codes "eth0"; if_index = 2; connects = false }

abbrev v6 : Connect.Address
v6 = record { is_inet6 = true; socket = some 3; connects = false; interfaces = eth ∷ [] }

abbrev v4 : Connect.Address
v4 = record { is_inet6 = false; socket = some 4; connects = true; interfaces = [] }

abbrev good : Listen.Address
good = record { socket = some 3; binds = Listen.bound; listens = true }

abbrev taken : Listen.Address
taken = record { socket = some 4; binds = Listen.in_use; listens = true }

listen_main_lem_example :
    Listen.listen_main true (some (good ∷ taken ∷ []))
    ≡ some (record {
      outcome = if all_work (good ∷ taken ∷ []) then Listen.pauses else Listen.returns 1;
      listening = first_sockets (good ∷ taken ∷ []);
    })
listen_main_lem_example = listen_main_lem (good ∷ taken ∷ [])

-- 10.0.0.1 as it is in the memory of a little-endian machine.
abbrev ten : ℕ
ten = 10 + 2 ^ 24

check_class_lem_example : check_class ten ≡ class_of (class_by_range (ntohl ten))
check_class_lem_example = check_class_lem ten (λ e. ground arith) (λ e. ground arith)
