-- ===== src/Addresses/Class.antt =====
-- 7_IP_Address/check_class/main.c: the class of an IPv4 address by its first bits.
use Prim.Native.Nat.{bit_and}
use network_ex.Common.{
  ℕ, zero, suc, ◌+◌, ◌-◌, ◌*◌, ◌%◌, ◌^◌, List, [], ◌∷◌, get_or, ◌==◌, if◌then◌else◌,
}
use network_ex.Common.Bytes.{Bytes, codes}
use network_ex.Common.Words.{htonl, ntohl}

-- CLASS_MASK
unfoldable pub class_mask : ℕ
unfolding htonl
class_mask = htonl (15 * 2 ^ 4)

-- `CLASS_MASK << i` in an `unsigned int`.
unfoldable pub mask : ℕ → ℕ
unfolding class_mask
mask i = class_mask * 2 ^ i % 2 ^ 32

-- `class_name`
abbrev pub class_name : List Bytes
class_name =
    codes "E class"
    ∷ codes "D class"
    ∷ codes "C class"
    ∷ codes "B class"
    ∷ codes "A class"
    ∷ []
    ∷ []

-- The rounds left of the loop, at `i`: where it breaks, or its end.
unfoldable pub class_loop : ℕ → ℕ → ℕ → ℕ
class_loop zero i haddr = i
class_loop (suc n) i haddr =
    let more = class_loop n (i + 1) haddr in if bit_and (mask i) haddr == mask i then i else more

-- What `main` prints of the address, which `inet_addr` gives.
pub data Printed : Type 0 where
  inaddr_any inaddr_none : Printed
  class_of : Bytes → Printed

unfoldable pub check_class : ℕ → Printed
check_class laddr =
    if laddr == 0
    then inaddr_any
    else if laddr == 2 ^ 32 - 1
    then inaddr_none
    else class_of (get_or class_name (class_loop 5 0 (ntohl laddr)) [])
