-- ===== src/WifiServer/Copied.antt =====
-- Copies of a CWifiServer, and how the lists of the original fare.
use mathlib.Core.Path.{subst}
use vwifi.Prelude.Results.{Holds, Holds-bind, Holds-all, both_Option}
use vwifi.Prelude.{
  ℕ, suc, ◌<◌, ◌≡◌, refl, ◌∙◌, ap, true, false, Option, none, some, ◌>>=◌, List, arith, ◌==◌,
  if◌then◌else◌,
}
use vwifi.Platform.{Platform, Net}
use vwifi.Info.{InfoWifi, InfoSocket}
use vwifi.WifiServer.Owned.{
  Pointer, null, object, variable, Heap, new, deref, delete, Lists, Holder, assign_socket_server,
  assign_wifi_server, copy_socket_server, copy_server, destroy_server, delete_wifis, close_master,
  close_sockets,
}

-- The server manages its own lists, which hold what is said.
pub record Owns (o : Holder) (s : Lists) (ss : List InfoSocket) (ws ds : List InfoWifi)
    : Type 0 where
  pub managed : o.list_info_self_managed ≡ true
  pub sockets : ℕ
  pub wifis : ℕ
  pub deconnected : ℕ
  pub at_sockets : o.info_sockets ≡ object sockets
  pub at_wifis : o.info_wifis ≡ object wifis
  pub at_deconnected : o.info_wifis_deconnected ≡ object deconnected
  pub holds_sockets : s.sockets.objects sockets ≡ some ss
  pub holds_wifis : s.wifis.objects wifis ≡ some ws
  pub holds_deconnected : s.wifis.objects deconnected ≡ some ds
  pub made_sockets : sockets < s.sockets.next
  pub made_wifis : wifis < s.wifis.next
  pub made_deconnected : deconnected < s.wifis.next

-- The store behind a copy.
abbrev copied : Lists → List InfoSocket → List InfoWifi → List InfoWifi → Lists
copied s ss ws ds = record { sockets = (new ss s.sockets).1; wifis = (new ds (new ws s.wifis).1).1 }

abbrev copy : Holder → Lists → Holder
copy o s = record o {
  info_sockets = object s.sockets.next;
  info_wifis = object s.wifis.next;
  info_wifis_deconnected = object (suc s.wifis.next);
}

copy_lem :
    (o : Holder) (s : Lists) (ss : List InfoSocket) (ws ds : List InfoWifi)
    → Owns o s ss ws ds
    → copy_server o s ≡ some (copy o s, copied s ss ws ds)
unfolding copy_server copy_socket_server assign_socket_server assign_wifi_server deref delete new
copy_lem o s ss ws ds h =
    let off : (h.deconnected == s.wifis.next) ≡ false = ground (arith, h.made_deconnected) in
    rw
      (
        h.managed, h.at_sockets, h.at_wifis, h.at_deconnected, h.holds_sockets, h.holds_wifis, off,
        h.holds_deconnected,
      )
      refl

copy-Owns :
    (o : Holder) (s : Lists) (ss : List InfoSocket) (ws ds : List InfoWifi)
    → Owns o s ss ws ds
    → Owns (copy o s) (copied s ss ws ds) ss ws ds
unfolding new
copy-Owns o s ss ws ds h = record {
  managed = h.managed;
  sockets = s.sockets.next;
  wifis = s.wifis.next;
  deconnected = suc s.wifis.next;
  at_sockets = refl;
  at_wifis = refl;
  at_deconnected = refl;
  holds_sockets = ground arith;
  holds_wifis = ground arith;
  holds_deconnected = ground arith;
  made_sockets = omega arith;
  made_wifis = omega arith;
  made_deconnected = omega arith;
}

original-Owns :
    (o : Holder) (s : Lists) (ss : List InfoSocket) (ws ds : List InfoWifi)
    → Owns o s ss ws ds
    → Owns o (copied s ss ws ds) ss ws ds
unfolding new
original-Owns o s ss ws ds h = record {
  managed = h.managed;
  sockets = h.sockets;
  wifis = h.wifis;
  deconnected = h.deconnected;
  at_sockets = h.at_sockets;
  at_wifis = h.at_wifis;
  at_deconnected = h.at_deconnected;
  holds_sockets = ground (arith, h.made_sockets, h.holds_sockets);
  holds_wifis = ground (arith, h.made_wifis, h.holds_wifis);
  holds_deconnected = ground (arith, h.made_deconnected, h.holds_deconnected);
  made_sockets = omega (arith, h.made_sockets);
  made_wifis = omega (arith, h.made_wifis);
  made_deconnected = omega (arith, h.made_deconnected);
}

abbrev without : {A : Type 0} → ℕ → Heap A → Heap A
without a h = record h { objects = λ b. if b == a then none else h.objects b }

abbrev deleted :
    {o : Holder} {s : Lists} {ss : List InfoSocket} {ws ds : List InfoWifi}
    → Owns o s ss ws ds
    → Lists
deleted {o} {s} h = record {
  sockets = without h.sockets s.sockets;
  wifis = without h.deconnected (without h.wifis s.wifis);
}

delete-some :
    {A : Type 0}
    → (a : ℕ) (x : A) (h : Heap A) → h.objects a ≡ some x
    → delete (object a) h ≡ some (without a h)
unfolding delete
delete-some a x h e = rw (e, delete) refl

delete-gone :
    {A : Type 0} → (q : Pointer) (h : Heap A) → Holds (λ h'. deref q h' ≡ none) (delete q h)
unfolding delete deref
delete-gone null h = refl
delete-gone (object a) h =
    both_Option (Holds (λ h'. deref (object a) h' ≡ none)) (h.objects a) tt (λ x. ground arith)
delete-gone (variable a) h = tt

bind-none :
    {A B : Type 0} → (o : Option A) (f : A → Option B) → ((x : A) → f x ≡ none) → (o >>= f) ≡ none
bind-none none f h = refl
bind-none (some x) f h = h x

kept :
    (o : Holder) (s : Lists) (ss : List InfoSocket) (ws ds : List InfoWifi)
    → (h : Owns o s ss ws ds) → Owns o (deleted (copy-Owns o s ss ws ds h)) ss ws ds
unfolding copy-Owns new
kept o s ss ws ds h = record {
  managed = h.managed;
  sockets = h.sockets;
  wifis = h.wifis;
  deconnected = h.deconnected;
  at_sockets = h.at_sockets;
  at_wifis = h.at_wifis;
  at_deconnected = h.at_deconnected;
  holds_sockets = ground (arith, h.made_sockets, h.holds_sockets);
  holds_wifis = ground (arith, h.made_wifis, h.holds_wifis);
  holds_deconnected = ground (arith, h.made_deconnected, h.holds_deconnected);
  made_sockets = omega (arith, h.made_sockets);
  made_wifis = omega (arith, h.made_wifis);
  made_deconnected = omega (arith, h.made_deconnected);
}

module _ {p : Platform} where
  destroy_lem :
      (o : Holder) (s : Lists) (ss : List InfoSocket) (ws ds : List InfoWifi) (n : Net p)
      → (h : Owns o s ss ws ds) → (h.deconnected == h.wifis) ≡ false
      → destroy_server o s n ≡ some (deleted h, close_master o.master (close_sockets ss n))
  unfolding destroy_server deref
  destroy_lem o s ss ws ds n h apart =
      rw
        (
          h.managed,
          h.at_sockets,
          h.at_wifis,
          h.at_deconnected,
          delete-some (h.wifis) ws s.wifis h.holds_wifis,
          delete-some h.deconnected ds (without h.wifis s.wifis) (rw apart h.holds_deconnected),
          h.holds_sockets,
          delete-some h.sockets ss s.sockets h.holds_sockets,
        )
        refl

  -- The copy of a CWifiServer that manages its lists, where these are objects of their own,
  -- succeeds: original and copy both hold the lists that the original held, and after the
  -- destruction of the copy, which succeeds too, the original holds them still.
  pub copy_server-Owns :
      (o : Holder) (s : Lists) (ss : List InfoSocket) (ws ds : List InfoWifi) (n : Net p)
      → Owns o s ss ws ds
      → (o' : Holder) × (s' : Lists) × (copy_server o s ≡ some (o', s'))
        × Owns o' s' ss ws ds
        × Owns o s' ss ws ds
        × ((s'' : Lists) × (n' : Net p) × (destroy_server o' s' n ≡ some (s'', n'))
            × Owns o s'' ss ws ds)
  unfolding copy-Owns
  copy_server-Owns o s ss ws ds n h =
      let h' = copy-Owns o s ss ws ds h in
      (
        copy o s,
        copied s ss ws ds,
        copy_lem o s ss ws ds h,
        h',
        original-Owns o s ss ws ds h,
        (
          _,
          _,
          destroy_lem (copy o s) (copied s ss ws ds) ss ws ds n h' (ground arith),
          kept o s ss ws ds h,
        ),
      )

  destroy_server-gone :
      (o : Holder) (s : Lists) (n : Net p)
      → Holds (λ (s', n'). deref o.info_sockets s'.sockets ≡ none) (destroy_server o s n)
  unfolding destroy_server
  destroy_server-gone o s n =
      Holds-all _ (if o.list_info_self_managed then delete_wifis o s.wifis else some s.wifis) _
        (λ hw. Holds-all _ (deref o.info_sockets s.sockets) _ (λ sockets.
          Holds-bind _ _ (delete o.info_sockets s.sockets) _ (delete-gone o.info_sockets s.sockets)
            (λ hs e. e)))

  destroy_server-none :
      (o : Holder) (s : Lists) (n : Net p)
      → deref o.info_sockets s.sockets ≡ none
      → destroy_server o s n ≡ none
  unfolding destroy_server
  destroy_server-none o s n e =
      bind-none (if o.list_info_self_managed then delete_wifis o s.wifis else some s.wifis) _
        (λ hw. rw e refl)

  -- Two servers on the same list of sockets.
  pub destroy_server-shared :
      (o o' : Holder) (s s' : Lists) (n n' n₂ : Net p)
      → o'.info_sockets ≡ o.info_sockets
      → destroy_server o s n ≡ some (s', n')
      → destroy_server o' s' n₂ ≡ none
  destroy_server-shared o o' s s' n n' n₂ e h =
      let gone =
        subst (Holds (λ x. deref o.info_sockets x.0.sockets ≡ none)) h
          (destroy_server-gone o s n) in
      destroy_server-none o' s' n₂ (ap (λ q. deref q s'.sockets) e ∙ gone)
