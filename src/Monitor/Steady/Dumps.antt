-- ===== src/Monitor/Steady/Dumps.antt =====
-- What a dump of the interfaces leaves as it is, and that get_winterface_infos of
-- cmonwirelessdevice.cc comes to the end of it.
use vwifi.Prelude.{
  ℕ, zero, suc, ◌≤◌, ◌<◌, ◌≡◌, refl, ◌∙◌, ◌⊎◌, inl, inr, Option-cases, Option, some, ◌>>=◌, List,
  [], ◌∷◌, arith, ◌==◌, if◌then◌else◌, if_both, if_split,
}
use vwifi.Prelude.Int.{ℤ, pos, negsuc}
use vwifi.Prelude.Ordered.{==_ℤ}
use vwifi.Platform.{Platform, Net}
use vwifi.Devices.{WirelessDevice}
use vwifi.Devices.Registered.{IsValid}
use vwifi.Kernel.{Kernel, LinkKernel, InterfaceReply, Reply, valid, finish}
use vwifi.Radio.{Radio, with_world}
use vwifi.Radio.Notices.{
  ask_address, get_pmaddr, handle_new_winet_notification, handle_del_winet_notification,
}
use vwifi.Radio.Notified.{handle_new-Implements, handle_del-Implements}
use vwifi.Monitor.{
  Monitor, device_of_reply, recv_winterface_infos, handle_replies, recvmsgs, recvmsgs_loop,
  get_winterface_infos,
}

-- The end of a dump is among the replies.
abbrev pub Finishes : List Reply → Type 0
Finishes [] = ⊥
Finishes (valid a ∷ rest) = Finishes rest
Finishes (finish ∷ rest) = Unit

-- A kernel that ends every dump: `rank` bounds how many readings are still without the end.
pub record EndsDumps {p : Platform} (k : Kernel p) (l : LinkKernel p) (rank : p.World → ℕ)
    : Type 0 where
  pub malloc : (w : p.World) → rank (k.malloc w).1 ≤ rank w
  pub socket : (w : p.World) → rank (k.datagram_socket w).1 ≤ rank w
  pub address :
      (d : ℕ) (name : List ℕ) (w : p.World) → rank (k.permanent_address d name w).1 ≤ rank w
  pub close : (d : ℕ) (w : p.World) → rank (p.close d w) ≤ rank w
  pub alloc : (w : p.World) → rank (l.nlmsg_alloc w).1 ≤ rank w
  pub request : (i : ℤ) (w : p.World) → rank (l.get_interface i w).1 ≤ rank w
  pub events : (w : p.World) → rank (l.recvmsg w).1 ≤ rank w
  pub replies : (w : p.World) → rank (l.nl_recvmsgs w).1 ≤ rank w
  pub ends : (w : p.World) → Finishes (l.nl_recvmsgs w).0 ⊎ (rank (l.nl_recvmsgs w).1 < rank w)

module _ {p : Platform} (rank : p.World → ℕ) where
  -- Only the devices and the network may have changed, and the devices validly.
  pub record Steady (r r' : Radio p) : Type 0 where
    pub valid : IsValid r.list_winterfaces → IsValid r'.list_winterfaces
    pub client : r'.client ≡ r.client
    pub connected : r'.connected_to_server ≡ r.connected_to_server
    pub scheduler : r'.scheduler ≡ r.scheduler
    pub family : r'.family_id ≡ r.family_id
    pub initialized : r'.initialized ≡ r.initialized
    pub requests : r'.requests ≡ r.requests
    pub near : rank r'.net.world ≤ rank r.net.world

  pub Steady-trans : (r₁ r₂ r₃ : Radio p) → Steady r₁ r₂ → Steady r₂ r₃ → Steady r₁ r₃
  Steady-trans r₁ r₂ r₃ a b = record {
    valid = λ v. b.valid (a.valid v);
    client = b.client ∙ a.client;
    connected = b.connected ∙ a.connected;
    scheduler = b.scheduler ∙ a.scheduler;
    family = b.family ∙ a.family;
    initialized = b.initialized ∙ a.initialized;
    requests = b.requests ∙ a.requests;
    near = omega (arith, a.near, b.near);
  }

  pub with_world-Steady :
      (r : Radio p) (w : p.World) → rank w ≤ rank r.net.world → Steady r (with_world w r)
  with_world-Steady r w h = record {
    valid = λ v. v;
    client = refl;
    connected = refl;
    scheduler = refl;
    family = refl;
    initialized = refl;
    requests = refl;
    near = h;
  }

  abbrev pub Ends : Radio p → Option (Monitor × Radio p) → Type 0
  Ends r o = (m' : Monitor) × (r' : Radio p) × (o ≡ some (m', r')) × Steady r r'

  module _ (k : Kernel p) (l : LinkKernel p) (law : EndsDumps k l rank) where
    ask_address-rank :
        (d : ℕ) (name : List ℕ) (n : Net p) → rank (ask_address k d name n).1.world ≤ rank n.world
    unfolding ask_address
    ask_address-rank d name n =
        let w = (k.permanent_address d name n.world).1 in
        ground (arith, law.close d w, law.address d name n.world)

    get_pmaddr-rank :
        (name : List ℕ) (n : Net p) → rank (get_pmaddr k name n).1.world ≤ rank n.world
    unfolding get_pmaddr
    get_pmaddr-rank name n =
        let w = (k.malloc n.world).1 in
        let n' : Net p = record n { world = (k.datagram_socket w).1 } in
        elim (Option-cases (k.datagram_socket w).0) [
          | inl e ↦ ground (arith, e, law.malloc n.world, law.socket w)
          | inr (d, e) ↦
              ground (arith, e, law.malloc n.world, law.socket w, ask_address-rank d name n')
        ]

    handle_new-Steady :
        (d : WirelessDevice) (r : Radio p) → Steady r (handle_new_winet_notification k d r)
    unfolding handle_new_winet_notification
    handle_new-Steady d r = record {
      valid = λ v. (handle_new-Implements k d r v).valid;
      client = ground arith;
      connected = ground arith;
      scheduler = ground arith;
      family = ground arith;
      initialized = ground arith;
      requests = ground arith;
      near = ground (arith, get_pmaddr-rank d.name r.net);
    }

    pub handle_del-Steady :
        (d : WirelessDevice) (r : Radio p) → Steady r (handle_del_winet_notification d r)
    unfolding handle_del_winet_notification
    handle_del-Steady d r = record {
      valid = λ v. (handle_del-Implements d r v).valid;
      client = refl;
      connected = refl;
      scheduler = refl;
      family = refl;
      initialized = refl;
      requests = refl;
      near = omega arith;
    }

    infos-Steady :
        (a : InterfaceReply) (m : Monitor) (r : Radio p)
        → Steady r (recv_winterface_infos k l a m r).1
          × ((recv_winterface_infos k l a m r).0.err ≡ m.err)
    unfolding recv_winterface_infos
    infos-Steady a m r = elim (Option-cases (device_of_reply a)) [
      | inl e ↦ rw (e, recv_winterface_infos) (with_world-Steady r r.net.world (omega arith), refl)
      | inr (d, e) ↦ rw (e, recv_winterface_infos) (handle_new-Steady d r, refl)
    ]

    replies-Steady :
        (rs : List Reply) (m : Monitor) (r : Radio p)
        → Steady r (handle_replies k l rs m r).1
          × (m.err ≡ 0 → (handle_replies k l rs m r).0.err ≡ 0)
          × (Finishes rs → (handle_replies k l rs m r).0.err ≡ 0)
    unfolding handle_replies
    replies-Steady [] m r = (with_world-Steady r r.net.world (omega arith), λ e. e, λ f. elim f [ ])
    replies-Steady (valid a ∷ rest) m r =
        let (s, e) = infos-Steady a m r in
        let (m', r') = recv_winterface_infos k l a m r in
        let (s', z, f) = replies-Steady rest m' r' in (Steady-trans r r' _ s s', λ h. z (e ∙ h), f)
    replies-Steady (finish ∷ rest) m r =
        let (s', z, f) = replies-Steady rest (record m { err = 0 }) r in
        (s', λ h. z refl, λ h. z refl)

    recvmsgs-Steady :
        (m : Monitor) (r : Radio p)
        → Steady r (recvmsgs k l m r).1
          × (((recvmsgs k l m r).0.err ≡ 0)
              ⊎ (rank (recvmsgs k l m r).1.net.world < rank r.net.world))
    unfolding recvmsgs
    recvmsgs-Steady m r =
        let (rs, w) = l.nl_recvmsgs r.net.world in
        let (s, z, f) = replies-Steady rs m (with_world w r) in
        (
          Steady-trans r (with_world w r) _ (with_world-Steady r w (law.replies r.net.world)) s,
          elim (law.ends r.net.world) [
            | inl h ↦ inl (f h)
            | inr h ↦ inr (omega (arith, h, s.near))
          ],
        )

    loop-Ends :
        (fuel : ℕ) (m : Monitor) (r : Radio p)
        → (if m.err == 0 then 0 else suc (rank r.net.world)) < fuel
        → Ends r (recvmsgs_loop k l fuel m r)
    unfolding recvmsgs_loop
    loop-Ends zero m r h = elim h [ ]
    loop-Ends (suc fuel) m r h =
        if_split (Ends r) (m.err == 0)
          (λ t. (m, r, refl, with_world-Steady r r.net.world (omega arith)))
          (λ f.
            let (m', r') = recvmsgs k l m r in
            let (s, d) = recvmsgs-Steady m r in
            let (m₂, r₂, e, s') = loop-Ends fuel m' r' (ground (arith, d, h, f, s.near)) in
            (m₂, r₂, e, Steady-trans r r' r₂ s s'))

    pub infos_lem :
        (fuel : ℕ) (i : ℤ) (m : Monitor) (r : Radio p)
        → suc (rank r.net.world) < fuel
        → (ret : ℤ) × (m' : Monitor) × (r' : Radio p) × (get_winterface_infos k l fuel i m r
            ≡ some (ret, m', r'))
          × Steady r r'
    unfolding get_winterface_infos
    infos_lem fuel i m r h =
        let m₁ : Monitor = record m { err = 1 } in
        let w₁ = (l.nlmsg_alloc r.net.world).1 in
        let w₂ = (l.get_interface i w₁).1 in
        let near : rank w₂ ≤ rank r.net.world =
          omega (arith, law.alloc r.net.world, law.request i w₁) in
        let a₁ = with_world-Steady r w₁ (law.alloc r.net.world) in
        let a₂ = with_world-Steady r w₂ near in
        let goal = λ (o : Option (ℤ × Monitor × Radio p)).
          (ret : ℤ) × (m' : Monitor) × (r' : Radio p) × (o ≡ some (ret, m', r')) × Steady r r' in
        let (m₃, r₃, e₃, s₃) = loop-Ends fuel m₁ (with_world w₂ r) (omega (arith, h, near)) in
        if_both goal _ (negsuc 11, m₁, with_world w₁ r, refl, a₁)
          (if_both goal _ (negsuc 0, m₁, with_world w₂ r, refl, a₂)
            (if_both (λ o. goal (o >>= λ (m₂, r₂). some (pos 0, m₂, r₂))) (==_ℤ i (pos 0))
              (pos 0, m₃, r₃, rw e₃, Steady-trans r (with_world w₂ r) r₃ a₂ s₃)
              (
                pos 0,
                _,
                _,
                refl,
                Steady-trans r (with_world w₂ r) _ a₂ (recvmsgs-Steady m₁ (with_world w₂ r)).0,
              )))
