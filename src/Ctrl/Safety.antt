-- ===== src/Ctrl/Safety.antt =====
-- Every order of cctrlserver.cc leaves the server in its invariant, and no assertion fails.
use vwifi.Prelude.{
  ℕ, suc, ◌+◌, ◌≤◌, ◌≡◌, refl, inl, inr, if_both, Option-cases, Bool, true, false, Option, none,
  some, List, [], ◌∷◌, arith, ltb, ◌==◌, if◌then◌else◌, length, length-set, get_elem?, get_elem?_lt,
  All, All-set,
}
use vwifi.Prelude.Bytes.{of_le}
use vwifi.Platform.{Platform, Net}
use vwifi.Info.{InfoWifi, InfoSocket}
use vwifi.WifiServer.{WifiServer}
use vwifi.WifiServer.Registry.{
  NameFits, set_name-NameFits, descriptors, trim, length-trim, trim-NameFits, remember_total,
  set_cid_total,
}
use vwifi.WifiServer.Registry
use vwifi.WifiServer.Closing.{All_get_elem?}
use vwifi.Server.{Server}
use vwifi.Server.Sound.{IsSound}
use vwifi.Ctrl.{
  Handler, ◌>>=◌, pure, return_early, checked, get_state, put_state, ctrl_client, ctrl_read,
  ctrl_read_over, ctrl_send, change_at, send_info_wifi, send_infos, send_server_list, send_list,
  send_show, send_status, change_scale, change_packet_loss,
}

pub change_at-NameFits :
    (f : InfoWifi → InfoWifi) (i : ℕ) (ws : List InfoWifi)
    → ((w : InfoWifi) → NameFits w → NameFits (f w))
    → All NameFits ws
    → All NameFits (change_at f i ws)
change_at-NameFits f i ws keep h = elim (Option-cases (get_elem? ws i)) [
  | inl e ↦ rw (e, change_at) h
  | inr (w, e) ↦
      rw (e, change_at) (All-set NameFits ws i (f w) h (keep w (All_get_elem? NameFits ws i w h e)))
]

pub length-change_at :
    (f : InfoWifi → InfoWifi) (i : ℕ) (ws : List InfoWifi) → length (change_at f i ws) ≡ length ws
length-change_at f i ws = elim (Option-cases (get_elem? ws i)) [
  | inl e ↦ rw (e, change_at)
  | inr (w, e) ↦ rw (e, change_at) (length-set ws i (f w))
]

-- From a state with one open connection the handler ends, in such a state.
abbrev pub SafeAt : {p : Platform} → Bool → {A : Type 0} → Handler p A → Server p → Type 0
SafeAt {p} strict {A} m s =
    (r : Option A) × (s' : Server p) × (m s ≡ some (r, s')) × IsSound strict 1 s'

module _ {p : Platform} {strict : Bool} where
  pub bind-SafeAt :
      {A B : Type 0} (m : Handler p A) (f : A → Handler p B) (s : Server p)
      → SafeAt strict m s
      → ((a : A) (s' : Server p) → IsSound strict 1 s' → SafeAt strict (f a) s')
      → SafeAt strict (m >>= f) s
  unfolding ◌>>=◌
  bind-SafeAt m f s (none, s', e, v) next = (none, s', rw (e, ◌>>=◌) refl, v)
  bind-SafeAt m f s (some a, s', e, v) next =
      let (r, s₂, e₂, v₂) = next a s' v in (r, s₂, rw (e, ◌>>=◌) e₂, v₂)

  pub get-SafeAt :
      {B : Type 0} (f : Server p → Handler p B) (s : Server p)
      → SafeAt strict (f s) s
      → SafeAt strict (get_state >>= f) s
  unfolding ◌>>=◌
  get-SafeAt f s h = h

  pub checked-SafeAt :
      {A B : Type 0} (x : Option A) (f : A → Handler p B) (s : Server p) {a : A}
      → x ≡ some a
      → SafeAt strict (f a) s
      → SafeAt strict (checked x >>= f) s
  unfolding ◌>>=◌
  checked-SafeAt x f s e h = rw (e, checked) h

  pub put-SafeAt :
      {B : Type 0} (f : Unit {0} → Handler p B) (s s' : Server p)
      → SafeAt strict (f tt) s'
      → SafeAt strict (put_state s' >>= f) s
  unfolding ◌>>=◌
  put-SafeAt f s s' h = h

  -- The invariant does not speak of the world, the calls, the losses or the scale.
  pub IsSound-net :
      (s : Server p) (n : Net p) {k : ℕ}
      → IsSound strict k s
      → IsSound strict k (record s { net = n })
  IsSound-net s n v = record {
    clients_valid = v.clients_valid;
    spies_valid = v.spies_valid;
    orders = v.orders;
    balanced = v.balanced;
    watched = v.watched;
  }

  pub ctrl_client-SafeAt : (s : Server p) → IsSound strict 1 s → SafeAt strict ctrl_client s
  unfolding ctrl_client
  ctrl_client-SafeAt s v =
      let (socket, e) = get_elem?_lt s.ctrl_sockets 0 (omega (arith, v.orders)) in
      get-SafeAt _ s (checked-SafeAt _ _ s e (some socket.descriptor, s, refl, v))

  pub or_early-SafeAt :
      {A B : Type 0} (x : Option A) (f : A → B) (s : Server p)
      → IsSound strict 1 s
      → SafeAt strict {A = B} (elim x [ none ↦ return_early | some a ↦ pure (f a) ]) s
  or_early-SafeAt none f s v = (none, s, refl, v)
  or_early-SafeAt (some a) f s v = (some (f a), s, refl, v)

  pub ctrl_read-SafeAt :
      (size : ℕ) (s : Server p) → IsSound strict 1 s → SafeAt strict (ctrl_read size) s
  unfolding ctrl_read
  ctrl_read-SafeAt size s v =
      bind-SafeAt _ _ s (ctrl_client-SafeAt s v)
        λ d s' v'. get-SafeAt _ s' (put-SafeAt _ s' _ (or_early-SafeAt _ _ _ (IsSound-net s' _ v')))

  pub ctrl_read_over-SafeAt :
      (old : List ℕ) (s : Server p) → IsSound strict 1 s → SafeAt strict (ctrl_read_over old) s
  unfolding ctrl_read_over
  ctrl_read_over-SafeAt old s v =
      bind-SafeAt _ _ s (ctrl_client-SafeAt s v)
        λ d s' v'. get-SafeAt _ s' (put-SafeAt _ s' _ (or_early-SafeAt _ _ _ (IsSound-net s' _ v')))

  pub ctrl_send-SafeAt :
      (bytes : List ℕ) (s : Server p) → IsSound strict 1 s → SafeAt strict (ctrl_send bytes) s
  unfolding ctrl_send
  ctrl_send-SafeAt bytes s v =
      bind-SafeAt _ _ s (ctrl_client-SafeAt s v)
        λ d s' v'. get-SafeAt _ s' (put-SafeAt _ s' _ (or_early-SafeAt _ _ _ (IsSound-net s' _ v')))

  pub unless-SafeAt :
      (b : Bool) (m : Handler p (Unit {0})) (s : Server p)
      → IsSound strict 1 s
      → (b ≡ false → SafeAt strict m s)
      → SafeAt strict (if b then return_early else m) s
  unless-SafeAt true m s v h = (none, s, refl, v)
  unless-SafeAt false m s v h = h refl

  pub send_info_wifi-SafeAt :
      (w : InfoWifi) (s : Server p) → IsSound strict 1 s → SafeAt strict (send_info_wifi w) s
  unfolding send_info_wifi
  send_info_wifi-SafeAt w s v = bind-SafeAt _ _ s (ctrl_send-SafeAt _ s v) λ _ s₁ v₁.
      bind-SafeAt _ _ s₁ (ctrl_send-SafeAt _ s₁ v₁) λ _ s₂ v₂.
        bind-SafeAt _ _ s₂ (ctrl_send-SafeAt _ s₂ v₂) λ _ s₃ v₃.
          if_both (λ (m : Handler p (Unit {0})). SafeAt strict m s₃) (ltb 0 (length w.name))
            (ctrl_send-SafeAt _ s₃ v₃) (some tt, s₃, refl, v₃)

  -- The loop reads an entry only where there is one.
  pub send_infos-SafeAt :
      (ws : List InfoWifi) (i : ℕ) (ss : List InfoSocket) (s : Server p)
      → i + length ss ≤ length ws
      → IsSound strict 1 s
      → SafeAt strict (send_infos ws i ss) s
  unfolding send_infos
  send_infos-SafeAt ws i [] s h v = (some tt, s, refl, v)
  send_infos-SafeAt ws i (x ∷ ss) s h v =
      bind-SafeAt _ _ s
        (if_both (λ (m : Handler p (Unit {0})). SafeAt strict m s) x.enable
          (let (w, e) = get_elem?_lt ws i (omega arith) in
            checked-SafeAt _ _ s e (send_info_wifi-SafeAt w s v))
          (some tt, s, refl, v))
        λ _ s₁ v₁. send_infos-SafeAt ws (suc i) ss s₁ (omega arith) v₁

  pub send_server_list-SafeAt :
      (t : WifiServer) (s : Server p)
      → Registry.IsValid t
      → IsSound strict 1 s
      → SafeAt strict (send_server_list t) s
  unfolding send_server_list
  send_server_list-SafeAt t s vt v =
      bind-SafeAt _ _ s (ctrl_send-SafeAt _ s v)
        λ _ s₁ v₁. send_infos-SafeAt t.info_wifis 0 t.info_sockets s₁ (omega (arith, vt.paired)) v₁

  pub send_list-SafeAt : (s : Server p) → IsSound strict 1 s → SafeAt strict send_list s
  unfolding send_list
  send_list-SafeAt s v = get-SafeAt _ s (
      bind-SafeAt _ _ s (send_server_list-SafeAt s.spies s v.spies_valid v)
        λ _ s₁ v₁. send_server_list-SafeAt s.clients s₁ v.clients_valid v₁)

  -- The sending of some bytes before the rest of a handler.
  pub after_send :
      {B : Type 0} (bytes : List ℕ) (f : Unit {0} → Handler p B) (s : Server p)
      → IsSound strict 1 s
      → ((s' : Server p) → IsSound strict 1 s' → SafeAt strict (f tt) s')
      → SafeAt strict (ctrl_send bytes >>= f) s
  after_send bytes f s v next = bind-SafeAt _ _ s (ctrl_send-SafeAt bytes s v) λ _ s' v'. next s' v'

  pub send_show-SafeAt : (s : Server p) → IsSound strict 1 s → SafeAt strict send_show s
  unfolding send_show
  send_show-SafeAt s v =
      get-SafeAt _ s
        (after_send _ _ s v λ s₁ v₁. after_send _ _ s₁ v₁ λ s₂ v₂. ctrl_send-SafeAt _ s₂ v₂)

  pub send_status-SafeAt : (s : Server p) → IsSound strict 1 s → SafeAt strict send_status s
  unfolding send_status
  send_status-SafeAt s v = get-SafeAt _ s (
      after_send _ _ s v λ s₁ v₁. after_send _ _ s₁ v₁ λ s₂ v₂. after_send _ _ s₂ v₂ λ s₃ v₃.
        after_send _ _ s₃ v₃ λ s₄ v₄. after_send _ _ s₄ v₄ λ s₅ v₅. ctrl_send-SafeAt _ s₅ v₅)

  pub change_scale-SafeAt : (s : Server p) → IsSound strict 1 s → SafeAt strict change_scale s
  unfolding change_scale
  change_scale-SafeAt s v = bind-SafeAt _ _ s (ctrl_read-SafeAt 8 s v) λ bytes s₁ v₁.
      get-SafeAt _ s₁ (
        some tt,
        record s₁ { scale = p.of_bytes bytes },
        refl,
        record {
          clients_valid = v₁.clients_valid;
          spies_valid = v₁.spies_valid;
          orders = v₁.orders;
          balanced = v₁.balanced;
          watched = v₁.watched;
        },
      )

  pub change_packet_loss-SafeAt :
      (s : Server p) → IsSound strict 1 s → SafeAt strict change_packet_loss s
  unfolding change_packet_loss
  change_packet_loss-SafeAt s v = bind-SafeAt _ _ s (ctrl_read-SafeAt 4 s v) λ bytes s₁ v₁.
      get-SafeAt _ s₁ (
        some tt,
        record s₁ { can_lost_packets = if of_le bytes == 0 then false else true },
        refl,
        record {
          clients_valid = v₁.clients_valid;
          spies_valid = v₁.spies_valid;
          orders = v₁.orders;
          balanced = v₁.balanced;
          watched = v₁.watched;
        },
      )
