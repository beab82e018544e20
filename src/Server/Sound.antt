-- ===== src/Server/Sound.antt =====
-- The invariant of the server process of vwifi-server.cc.
use vwifi.Prelude.{
  ℕ, ◌+◌, ◌≡◌, Bool, true, false, List, [], ◌∷◌, Option, some, arith, length, count, refl,
}
use vwifi.Platform.{Platform}
use vwifi.Select.Maximum.{Watches}
use vwifi.WifiServer.Registry.{descriptors}
use vwifi.WifiServer.Registry
use vwifi.Server.{Endpoints, Server, forward_clients, forward_spies}
use vwifi.Server.Forward.{ParsesMessages, forward_data-Ends}

abbrev pub masters : Endpoints → List ℕ
masters e = e.vtcp ∷ e.itcp ∷ e.spy ∷ e.ctrl ∷ []

-- Both servers are well formed, the control server has `open` connections, and the scheduler waits
-- on the listening sockets and on those of all clients and spies, each as often as it stands there,
-- and on nothing else; in the strict sense on each of them.
pub record IsSound {p : Platform} (strict : Bool) (open_orders : ℕ) (s : Server p) : Type 0 where
  pub clients_valid : Registry.IsValid s.clients
  pub spies_valid : Registry.IsValid s.spies
  pub orders : length s.ctrl_sockets ≡ open_orders
  pub balanced :
      (d : ℕ)
      → count d s.scheduler.list_nodes
        ≡ count d (descriptors s.clients.info_sockets)
          + count d (descriptors s.spies.info_sockets)
          + count d (masters s.endpoints)
  pub watched : Watches strict s.scheduler

abbrev pub Continues : {p : Platform} → Bool → ℕ → Option (Server p) → Type 0
Continues {p} strict k x = (s' : Server p) × (x ≡ some s') × IsSound strict k s'

module _ {p : Platform} {strict : Bool} where
  pub forward_clients-IsSound :
      (parses : ParsesMessages p) (s : Server p) {k : ℕ}
      → IsSound strict k s
      → Continues strict k (forward_clients s)
  unfolding forward_clients
  forward_clients-IsSound parses s v =
      let (r, e, w) =
        forward_data-Ends strict (λ d. count d (masters s.endpoints)) parses s.scale
          s.can_lost_packets false
          (record {
            src = s.clients;
            other_dst = s.spies;
            scheduler = s.scheduler;
            buffer = s.buffer;
            net = s.net;
          })
          (record {
            src_valid = v.clients_valid;
            dst_valid = v.spies_valid;
            balanced = v.balanced;
            watched = v.watched;
          }) in
      (
        record s {
          clients = r.src;
          spies = r.other_dst;
          scheduler = r.scheduler;
          buffer = r.buffer;
          net = r.net;
        },
        rw e refl,
        record {
          clients_valid = w.src_valid;
          spies_valid = w.dst_valid;
          orders = v.orders;
          balanced = w.balanced;
          watched = w.watched;
        },
      )

  pub forward_spies-IsSound :
      (parses : ParsesMessages p) (s : Server p) {k : ℕ}
      → IsSound strict k s
      → Continues strict k (forward_spies s)
  unfolding forward_spies
  forward_spies-IsSound parses s v =
      let (r, e, w) =
        forward_data-Ends strict (λ d. count d (masters s.endpoints)) parses s.scale
          s.can_lost_packets true
          (record {
            src = s.spies;
            other_dst = s.clients;
            scheduler = s.scheduler;
            buffer = s.buffer;
            net = s.net;
          })
          (record {
            src_valid = v.spies_valid;
            dst_valid = v.clients_valid;
            balanced = λ d. omega (arith, v.balanced d);
            watched = v.watched;
          }) in
      (
        record s {
          spies = r.src;
          clients = r.other_dst;
          scheduler = r.scheduler;
          buffer = r.buffer;
          net = r.net;
        },
        rw e refl,
        record {
          clients_valid = w.dst_valid;
          spies_valid = w.src_valid;
          orders = v.orders;
          balanced = λ d. omega (arith, w.balanced d);
          watched = w.watched;
        },
      )
