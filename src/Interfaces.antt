-- ===== src/Interfaces.antt =====
-- addinterfaces.cc, and what vwifi-client.cc makes of it: the radios that the driver is asked for.
pub mod Addresses
use vwifi.Prelude.{
  ℕ, zero, suc, ◌+◌, ◌-◌, ◌%◌, Bool, false, not, List, [], ◌∷◌, ◌++◌, ◌==◌, if◌then◌else◌, set,
}
use vwifi.Prelude.Int.{ℤ, pos, ltb_ℤ}

-- libnl, and the state of the kernel behind it.
pub record RadioKernel : Type 1 where
  pub World : Type 0
  pub nl_socket_alloc : World → Bool × World
  pub genl_connect : World → Bool × World
  pub genl_ctrl_resolve : World → ℤ × World
  -- Whether HWSIM_CMD_NEW_RADIO with a permanent address can be built for a family, and sent.
  pub build : ℤ → List ℕ → World → Bool × World
  pub nl_send_auto : ℤ → List ℕ → World → Bool × World
  pub nl_socket_free : World → World

-- The world, and the addresses given to `nl_send_auto`, oldest first.
pub record Created (k : RadioKernel) : Type 0 where
  pub world : k.World
  pub addresses : List (List ℕ)

-- `mac[5] = idx`, as a byte, unless there is one radio only.
unfoldable pub mac_of_radio : ℕ → ℕ → List ℕ → List ℕ
mac_of_radio n_radios idx mac = if n_radios == 1 then mac else set mac 5 (idx % 256)

module _ {k : RadioKernel} where
  -- One turn of the loop of CreateRadios: whether the radio was created.
  unfoldable pub create_radio : ℤ → List ℕ → Created k → Bool × Created k
  create_radio family mac s =
      let (built, w) = k.build family mac s.world in
      let (ok, w') = k.nl_send_auto family mac w in
      if built
      then (ok, record { world = w'; addresses = s.addresses ++ mac ∷ [] })
      else (false, record s { world = w })

  -- The loop, with `todo` radios to come.
  unfoldable pub create_loop : ℕ → ℤ → ℕ → ℕ → List ℕ → Created k → ℕ × Created k
  create_loop zero family n_radios idx mac s = (0, s)
  create_loop (suc todo) family n_radios idx mac s =
      let mac' = mac_of_radio n_radios idx mac in
      let (ok, s') = create_radio family mac' s in
      let rest = create_loop todo family n_radios (idx + 1) mac' s' in if ok then rest else (1, s')

  unfoldable pub create_radios : ℤ → ℕ → List ℕ → Created k → ℕ × Created k
  create_radios family n_radios mac s = create_loop n_radios family n_radios 0 mac s

  abbrev pub released : ℕ × Created k → ℕ × Created k
  released (ret, s) = (ret, record s { world = k.nl_socket_free s.world })

  unfoldable pub manage_radios : ℕ → List ℕ → Created k → ℕ × Created k
  manage_radios n_radios mac_prefix s =
      let (allocated, w₁) = k.nl_socket_alloc s.world in
      let (connected, w₂) = k.genl_connect w₁ in
      let (family, w₃) = k.genl_ctrl_resolve w₂ in
      if not allocated
      then (1, record s { world = w₁ })
      else if not connected
      then released (1, record s { world = w₂ })
      else if ltb_ℤ family (pos 0)
      then released (2, record s { world = w₃ })
      else released (create_radios family n_radios mac_prefix (record s { world = w₃ }))
