-- ===== src/Addresses/FirstWorking.antt =====
-- Which address the client connects to.
use network_ex.Common.{
  ℕ, ◌≡◌, none, some, List, [], ◌∷◌, ◌++◌, Bool, true, false, not, ◌&&◌, ◌||◌, All, if◌then◌else◌,
}
use network_ex.Common.Bytes.{codes, bytes_eq}
use network_ex.Addresses.Connect.{Interface, Address, connect_loop}

-- Some interface but the loopback one takes the connection.
unfoldable pub some_interface : List Interface → Bool
some_interface [] = false
some_interface (ifp ∷ rest) =
    (not (bytes_eq ifp.if_name (codes "lo")) && ifp.connects) || some_interface rest

-- A socket can be had for the address, and connected.
unfoldable pub works : Address → Bool
works a = elim a.socket [
  | none ↦ false
  | some fd ↦ if a.is_inet6 then some_interface a.interfaces else a.connects
]

-- The sockets that are had for addresses.
unfoldable pub sockets : List Address → List ℕ
sockets [] = []
sockets (a ∷ rest) = let more = sockets rest in elim a.socket [ none ↦ more | some fd ↦ fd ∷ more ]

abbrev Fails : Address → Type 0
Fails a = works a ≡ false

-- What the loop comes to where no address works.
pub record IsFailure (addresses : List Address) : Type 0 where
  pub none_works : All Fails addresses
  pub no_socket : (connect_loop addresses).sock_fd ≡ none
  pub all_opened : (connect_loop addresses).opened ≡ sockets addresses
  pub all_closed : (connect_loop addresses).closed ≡ sockets addresses

-- And where one does.
pub record IsConnected (addresses : List Address) : Type 0 where
  pub before : List Address
  pub chosen : Address
  pub after : List Address
  pub fd : ℕ
  pub parts : addresses ≡ before ++ chosen ∷ after
  pub none_before : All Fails before
  pub chosen_works : works chosen ≡ true
  pub has_socket : chosen.socket ≡ some fd
  pub connected : (connect_loop addresses).sock_fd ≡ some fd
  pub all_opened : (connect_loop addresses).opened ≡ sockets before ++ fd ∷ []
  pub all_closed : (connect_loop addresses).closed ≡ sockets before
