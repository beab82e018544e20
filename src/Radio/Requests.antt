-- ===== src/Radio/Requests.antt =====
-- What ckernelwifi.cc asks of the driver: the loops over the radios of the machine.
use vwifi.Prelude.{
  ℕ, ◌≡◌, refl, ap, ◌∙◌, inl, inr, Bool-cases, true, List, [], ◌∷◌, ◌++◌, arith, if◌then◌else◌,
  append-nil, append_assoc,
}
use vwifi.Prelude.Int.{ℤ, pos}
use vwifi.Platform.{Platform}
use vwifi.Devices.{WirelessDevice, same_bytes}
use vwifi.Kernel.{Kernel, Message}
use vwifi.Radio.{
  Radio, cloned_frame, build_and_send, send_cloned_frame_msg, clone_to_others, clone_to_all,
  nl_send,
}

-- A driver for which every message can be built.
abbrev pub Builds : (p : Platform) → Kernel p → Type 0
Builds p k = (family : ℤ) (m : Message) (w : p.World) → (k.build family m w).0 ≡ true

-- The radios, in the order of their indices, whose address is not the given one.
abbrev pub others : List ℕ → List WirelessDevice → List WirelessDevice
others src [] = []
others src (d ∷ ds) =
    let rest = others src ds in if same_bytes src d.machwsim then rest else d ∷ rest

abbrev pub clones : List ℕ → ℤ → ℕ → List WirelessDevice → List Message
clones frame signal frequency [] = []
clones frame signal frequency (d ∷ ds) =
    cloned_frame d.machwsim frame signal frequency ∷ clones frame signal frequency ds

-- Messages, each with the family that it is for.
abbrev pub for_family : ℤ → List Message → List (ℤ × Message)
for_family family [] = []
for_family family (m ∷ ms) = (family, m) ∷ for_family family ms

for_family-append :
    (f : ℤ) (ms ns : List Message) → for_family f (ms ++ ns) ≡ for_family f ms ++ for_family f ns
for_family-append f [] ns = refl
for_family-append f (m ∷ ms) ns = ap (λ t. (f, m) ∷ t) (for_family-append f ms ns)

module _ {p : Platform} where
  -- Nothing but requests to the driver, the given ones.
  pub record Asks (f : ℕ) (ms : List Message) (r r' : Radio p) : Type 0 where
    pub requests : r'.requests ≡ r.requests ++ for_family (pos f) ms
    pub family : r'.family_id ≡ pos f
    pub calls : r'.net.calls ≡ r.net.calls
    pub client : r'.client ≡ r.client
    pub connected : r'.connected_to_server ≡ r.connected_to_server

  module _ (k : Kernel p) (builds : Builds p k) (f : ℕ) where
    pub build_and_send-Asks :
        (m : Message) (r : Radio p)
        → r.family_id ≡ pos f
        → Asks f (m ∷ []) r (build_and_send k m r).1
    unfolding build_and_send nl_send
    build_and_send-Asks m r e = ground (arith, e, builds r.family_id m r.net.world)

    pub Asks-trans :
        (ms ns : List Message) (r₁ r₂ r₃ : Radio p)
        → Asks f ms r₁ r₂
        → Asks f ns r₂ r₃
        → Asks f (ms ++ ns) r₁ r₃
    Asks-trans ms ns r₁ r₂ r₃ a b = record {
      requests = rw (b.requests, a.requests, for_family-append, append_assoc);
      family = b.family;
      calls = b.calls ∙ a.calls;
      client = b.client ∙ a.client;
      connected = b.connected ∙ a.connected;
    }

    pub Asks-nothing : (r : Radio p) → r.family_id ≡ pos f → Asks f [] r r
    Asks-nothing r e = record {
      requests = rw append-nil;
      family = e;
      calls = refl;
      client = refl;
      connected = refl;
    }

    pub clone_to_others-Asks :
        (src frame : List ℕ) (signal : ℤ) (frequency : ℕ) (ds : List WirelessDevice) (r : Radio p)
        → r.family_id ≡ pos f
        → Asks f
            (clones frame signal frequency (others src ds))
            r
            (clone_to_others k src frame signal frequency ds r)
    unfolding clone_to_others send_cloned_frame_msg
    clone_to_others-Asks src frame signal frequency [] r e = Asks-nothing r e
    clone_to_others-Asks src frame signal frequency (d ∷ ds) r e =
        let m = cloned_frame d.machwsim frame signal frequency in
        let r' = (build_and_send k m r).1 in
        let a = build_and_send-Asks m r e in
        let rest = clone_to_others-Asks src frame signal frequency ds in
        elim (Bool-cases (same_bytes src d.machwsim)) [
          | inl t ↦ rw t (rest r e)
          | inr t ↦ rw t (
              Asks-trans (m ∷ []) (clones frame signal frequency (others src ds)) r r' _ a
                (rest r' a.family))
        ]

    pub clone_to_all-Asks :
        (frame : List ℕ) (signal : ℤ) (frequency : ℕ) (ds : List WirelessDevice) (r : Radio p)
        → r.family_id ≡ pos f
        → Asks f (clones frame signal frequency ds) r (clone_to_all k frame signal frequency ds r)
    unfolding clone_to_all send_cloned_frame_msg
    clone_to_all-Asks frame signal frequency [] r e = Asks-nothing r e
    clone_to_all-Asks frame signal frequency (d ∷ ds) r e =
        let m = cloned_frame d.machwsim frame signal frequency in
        let r' = (build_and_send k m r).1 in
        let a = build_and_send-Asks m r e in
        Asks-trans (m ∷ []) (clones frame signal frequency ds) r r' _ a
          (clone_to_all-Asks frame signal frequency ds r' a.family)
