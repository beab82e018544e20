-- ===== src/Interfaces/Addresses.antt =====
-- Which radios CreateRadios of addinterfaces.cc asks for.
use vwifi.Prelude.{
  ℕ, zero, suc, ◌+◌, ◌≤◌, ◌<◌, ◌≡◌, refl, ap, ◌∙◌, inl, inr, Bool-cases, List, [], ◌∷◌, ◌++◌, arith,
  if◌then◌else◌, append-nil, append_assoc,
}
use vwifi.Prelude.Int.{ℤ}
use vwifi.Interfaces.{RadioKernel, Created, create_radio, mac_of_radio, create_loop, create_radios}

-- The first five bytes, then the number of the radio.
abbrev pub radio_address : List ℕ → ℕ → List ℕ
radio_address prefix idx = prefix ++ idx ∷ []

abbrev pub radio_addresses : List ℕ → ℕ → ℕ → List (List ℕ)
radio_addresses prefix idx zero = []
radio_addresses prefix idx (suc n) = radio_address prefix idx ∷ radio_addresses prefix (idx + 1) n

abbrev pub prefix : (a b c d e : ℕ) → List ℕ
prefix a b c d e = a ∷ b ∷ c ∷ d ∷ e ∷ []

mac_of_radio_lem :
    (a b c d e n idx x : ℕ)
    → 1 < n
    → idx < 256
    → mac_of_radio n idx (a ∷ b ∷ c ∷ d ∷ e ∷ x ∷ []) ≡ a ∷ b ∷ c ∷ d ∷ e ∷ idx ∷ []
unfolding mac_of_radio
mac_of_radio_lem a b c d e n idx x h l = ground arith

module _ {k : RadioKernel} where
  -- All radios, or those before the first that fails and, if it was built, that one.
  abbrev pub Creates : List ℕ → ℕ → ℕ → Created k → ℕ × Created k → Type 0
  Creates first idx n s (ret, s') =
      (made : ℕ) × (made ≤ n)
      × (s'.addresses ≡ s.addresses ++ radio_addresses first idx made)
      × (ret ≡ 0 → made ≡ n)

  create-Creates :
      (family : ℤ) (first : List ℕ) (idx n : ℕ) (s : Created k) (rest : Created k → ℕ × Created k)
      → ((t : Created k) → Creates first (idx + 1) n t (rest t))
      → Creates first idx (suc n) s (
          let (ok, s') = create_radio family (radio_address first idx) s in
          if ok then rest s' else (1, s'))
  unfolding create_radio
  create-Creates family first idx n s rest law =
      let mac = radio_address first idx in
      let (built, w) = k.build family mac s.world in
      let (ok, w') = k.nl_send_auto family mac w in
      let t : Created k = record { world = w'; addresses = s.addresses ++ mac ∷ [] } in
      let (made, m, e, z) = law t in
      elim (Bool-cases built) [
        | inl y ↦ elim (Bool-cases ok) [
          | inl y' ↦
              rw (y, y')
                (suc made, omega (arith, m), e ∙ append_assoc s.addresses _ _, λ h. ap suc (z h))
          | inr n' ↦ rw (y, n') (1, omega arith, refl, λ h. omega (arith, h))
        ]
        | inr n' ↦ rw n' (0, omega arith, rw append-nil, λ h. omega (arith, h))
      ]

  loop-Creates :
      (a b c d e : ℕ) (family : ℤ) (n_radios todo idx x : ℕ) (s : Created k)
      → 1 < n_radios
      → idx + todo ≤ 256
      → Creates
          (prefix a b c d e)
          idx
          todo
          s
          (create_loop todo family n_radios idx (prefix a b c d e ++ x ∷ []) s)
  unfolding create_loop
  loop-Creates a b c d e family n zero idx x s h l = (0, omega arith, rw append-nil, λ z. refl)
  loop-Creates a b c d e family n (suc todo) idx x s h l =
      let first = prefix a b c d e in
      rw (mac_of_radio_lem a b c d e n idx x h (omega (arith, l))) (
        create-Creates family first idx todo s
          (λ t. create_loop todo family n (idx + 1) (radio_address first idx) t)
          (λ t. loop-Creates a b c d e family n todo (idx + 1) idx t h (omega (arith, l))))

  -- For more than one radio and at most 256, CreateRadios asks for addresses that are the first
  -- five bytes of the prefix and the numbers from 0 on, in order, for as many as it returns
  -- without an error and for no more than the radios.
  pub create_radios-Creates :
      (a b c d e x : ℕ) (family : ℤ) (n : ℕ) (s : Created k)
      → 1 < n
      → n ≤ 256
      → Creates (prefix a b c d e) 0 n s (create_radios family n (prefix a b c d e ++ x ∷ []) s)
  unfolding create_radios
  create_radios-Creates a b c d e x family n s h l =
      loop-Creates a b c d e family n n 0 x s h (omega (arith, l))
