-- ===== src/Addresses/Connect.antt =====
-- 24_IPv6/echo_clint_all/main.c: a connection to the first address that takes one.
use network_ex.Common.{ℕ, Option, none, some, List, [], ◌∷◌, Bool, if◌then◌else◌}
use network_ex.Common.Bytes.{Bytes, codes, bytes_eq}

-- A network interface of `if_nameindex`, and whether `connect` works with its index as the scope.
pub record Interface : Type 0 where
  pub if_name : Bytes
  pub if_index : ℕ
  pub connects : Bool

-- An address of `getaddrinfo`: whether it is an IPv6 one, what `socket` answers, whether `connect`
-- works on an IPv4 one, and the interfaces at that time.
pub record Address : Type 0 where
  pub is_inet6 : Bool
  pub socket : Option ℕ
  pub connects : Bool
  pub interfaces : List Interface

-- The loop over the interfaces, which passes by the loopback one: the scope that is connected.
unfoldable pub scope_loop : List Interface → Option ℕ
scope_loop [] = none
scope_loop (ifp ∷ rest) =
    let more = scope_loop rest in
    if bytes_eq ifp.if_name (codes "lo")
    then more
    else if ifp.connects
    then some ifp.if_index
    else more

-- Where the loop over the addresses ends: the connected socket, if there is one, with the scope of
-- an IPv6 address, and the sockets opened and closed, in order.
pub record Ended : Type 0 where
  pub sock_fd : Option ℕ
  pub scope : Option ℕ
  pub opened : List ℕ
  pub closed : List ℕ

abbrev pub stopped : ℕ → Option ℕ → Ended
stopped fd scope = record { sock_fd = some fd; scope = scope; opened = fd ∷ []; closed = [] }

abbrev pub after_close : ℕ → Ended → Ended
after_close fd e = record e { opened = fd ∷ e.opened; closed = fd ∷ e.closed }

unfoldable pub connect_loop : List Address → Ended
unfolding scope_loop
connect_loop [] = record { sock_fd = none; scope = none; opened = []; closed = [] }
connect_loop (rp ∷ rest) =
    let more = connect_loop rest in
    elim rp.socket [
      | none ↦ more
      | some fd ↦
          if rp.is_inet6
          then elim (scope_loop rp.interfaces) [
            | none ↦ after_close fd more
            | some index ↦ stopped fd (some index)
          ]
          else if rp.connects
          then stopped fd none
          else after_close fd more
    ]

-- `main` after its arguments are counted, with what `getaddrinfo` gives: the value that it returns.
unfoldable pub client_main : Option (List Address) → ℕ
unfolding connect_loop
client_main none = 1
client_main (some addresses) = elim (connect_loop addresses).sock_fd [ none ↦ 1 | some fd ↦ 1 ]
