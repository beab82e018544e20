-- ===== src/Listening/Opened.antt =====
-- What the opening of the four servers of vwifi-server.cc leaves open.
use mathlib.Core.Path.{subst}
use vwifi.Prelude.{
  ℕ, ◌≡◌, refl, ◌⊎◌, inl, inr, Option-cases, true, Option, none, some, List, [], ◌∷◌, ◌++◌,
  if_split, false, zero, suc, get_elem?,
}
use vwifi.Platform.{Platform, Net, Call, closed}
use vwifi.CommandLine.{ServerOptions}
use vwifi.Server.{Endpoints}
use vwifi.Server.Forward.{ParsesMessages}
use vwifi.MainLoop.{stopped}
use vwifi.MainLoop.Running.{HasCids, Runs, run-start}
use vwifi.Ctrl.Serving.{TerminatesNames}
use vwifi.Listening.{
  Family, inet, vsock, ListenKernel, setup, listen_or_close, listen_on, or_exit, open_servers,
  vwifi_server,
}

module _ {p : Platform} (k : ListenKernel p) where
  -- A descriptor that `socket` gave and that Setup then made listen on a port.
  abbrev pub Listens : Family → ℕ → ℕ → Type 0
  Listens f port d =
      (w : p.World) × ((k.socket f w).0 ≡ some d) × ((setup k f d port (k.socket f w).1).0 ≡ true)

  -- After `socket` in a world: it gave none, which is the world that is left, and nothing was
  -- closed; or it gave one that Setup failed on, and this one was closed and nothing else.
  abbrev pub CleansFrom : Family → ℕ → p.World → List Call → Net p → Type 0
  CleansFrom f port w calls n =
      (((k.socket f w).0 ≡ none) × (n.world ≡ (k.socket f w).1) × (n.calls ≡ calls))
      ⊎ ((d : ℕ) × ((k.socket f w).0 ≡ some d)
          × ((setup k f d port (k.socket f w).1).0 ≡ false)
          × (n.world ≡ p.close d (setup k f d port (k.socket f w).1).1)
          × (n.calls ≡ calls ++ closed d ∷ []))

  -- One of the servers, of a family and with a port that are among those asked for, failed so.
  abbrev pub Cleans : List (Family × ℕ) → List Call → Net p → Type 0
  Cleans asked calls n =
      (i : ℕ) × (f : Family) × (port : ℕ) × (w : p.World) × (get_elem? asked i ≡ some (f, port))
      × CleansFrom f port w calls n

  shift-Cleans :
      (a : Family × ℕ) (asked : List (Family × ℕ)) (calls : List Call) (n : Net p)
      → Cleans asked calls n
      → Cleans (a ∷ asked) calls n
  shift-Cleans a asked calls n (i, f, port, w, e, h) = (suc i, f, port, w, e, h)

  -- What is opened is as it should be, and nothing was closed; or nothing is left open of the last.
  abbrev pub Opens :
      {A : Type 0} → List (Family × ℕ) → (A → Type 0) → List Call → Option A × Net p → Type 0
  Opens asked P calls (none, n) = Cleans asked calls n
  Opens asked P calls (some a, n) = P a × (n.calls ≡ calls)

  listen_or_close-Opens :
      (f : Family) (port d : ℕ) (n : Net p)
      → (k.socket f n.world).0 ≡ some d
      → Opens
          ((f, port) ∷ [])
          (Listens f port)
          n.calls
          (listen_or_close k f port d (record n { world = (k.socket f n.world).1 }))
  unfolding listen_or_close
  listen_or_close-Opens f port d n e =
      if_split (Opens ((f, port) ∷ []) (Listens f port) n.calls)
        (setup k f d port (k.socket f n.world).1).0 (λ t. ((n.world, e, t), refl))
        (λ failed. (0, f, port, n.world, refl, inr (d, e, failed, refl, refl)))

  listen_on-Opens :
      (f : Family) (port : ℕ) (n : Net p)
      → Opens ((f, port) ∷ []) (Listens f port) n.calls (listen_on k f port n)
  unfolding listen_on
  listen_on-Opens f port n = elim (Option-cases (k.socket f n.world).0) [
    | inl e ↦ rw (e, listen_on) (0, f, port, n.world, refl, inl (e, refl, refl))
    | inr (d, e) ↦ rw (e, listen_on) (listen_or_close-Opens f port d n e)
  ]

  shift-Opens :
      {A : Type 0} (a : Family × ℕ) (asked : List (Family × ℕ)) (Q : A → Type 0) (calls : List Call)
      (x : Option A × Net p)
      → Opens asked Q calls x
      → Opens (a ∷ asked) Q calls x
  shift-Opens a asked Q calls (none, n) h = shift-Cleans a asked calls n h
  shift-Opens a asked Q calls (some x, n) h = h

  first-Cleans :
      (a : Family × ℕ) (asked : List (Family × ℕ)) (calls : List Call) (n : Net p)
      → Cleans (a ∷ []) calls n
      → Cleans (a ∷ asked) calls n
  first-Cleans a asked calls n (zero, f, port, w, e, h) = (0, f, port, w, e, h)
  first-Cleans a asked calls n (suc i, f, port, w, e, h) = cc

  or_exit-Opens :
      {A : Type 0} (a : Family × ℕ) (asked : List (Family × ℕ)) (P : ℕ → Type 0) (Q : A → Type 0)
      (calls : List Call) (x : Option ℕ × Net p) (next : ℕ → Net p → Option A × Net p)
      → Opens (a ∷ []) P calls x
      → ((d : ℕ) (n : Net p) → P d → Opens asked Q n.calls (next d n))
      → Opens (a ∷ asked) Q calls (or_exit k x next)
  or_exit-Opens a asked P Q calls (none, n) next cleans after = first-Cleans a asked calls n cleans
  or_exit-Opens a asked P Q calls (some d, n) next (h, e) after =
      subst (λ cs. Opens (a ∷ asked) Q cs (next d n)) e
        (shift-Opens a asked Q n.calls (next d n) (after d n h))

  -- The families and ports of the four servers, in the order in which they are opened.
  abbrev pub asked_for : ServerOptions → List (Family × ℕ)
  asked_for o =
      (vsock, o.port_vhost) ∷ (inet, o.port_tcp) ∷ (inet, o.port_spy) ∷ (inet, o.port_ctrl) ∷ []

  -- Each server listens on its port and in its family, in the order of the program.
  pub record AllListen (o : ServerOptions) (e : Endpoints) : Type 0 where
    pub vtcp : Listens vsock o.port_vhost e.vtcp
    pub itcp : Listens inet o.port_tcp e.itcp
    pub spy : Listens inet o.port_spy e.spy
    pub ctrl : Listens inet o.port_ctrl e.ctrl
    pub port_vtcp : e.port_vtcp ≡ o.port_vhost
    pub port_itcp : e.port_itcp ≡ o.port_tcp

  -- Opening the four servers either gives four descriptors, each of which socket gave for the
  -- family of its server and Setup then made listen on the port of its option, with these ports
  -- kept and nothing closed, or gives nothing, where for one of the servers, in its family and
  -- with its port, either socket gave none and nothing was closed, or Setup failed on the
  -- descriptor that socket gave and this one was closed and nothing else.
  pub open_servers-Opens :
      (o : ServerOptions) (n : Net p)
      → Opens (asked_for o) (AllListen o) n.calls (open_servers k o n)
  unfolding open_servers
  open_servers-Opens o n =
      let Q = AllListen o in
      or_exit-Opens _ ((inet, o.port_tcp) ∷ (inet, o.port_spy) ∷ (inet, o.port_ctrl) ∷ []) _ Q _ _ _
        (listen_on-Opens vsock o.port_vhost n)
        λ vtcp n₁ v.
          or_exit-Opens _ ((inet, o.port_spy) ∷ (inet, o.port_ctrl) ∷ []) _ Q _ _ _
            (listen_on-Opens inet o.port_tcp n₁)
            λ itcp n₂ t.
              or_exit-Opens _ ((inet, o.port_ctrl) ∷ []) _ Q _ _ _
                (listen_on-Opens inet o.port_spy n₂)
                λ spy n₃ s.
                  or_exit-Opens _ [] _ Q _ _ _ (listen_on-Opens inet o.port_ctrl n₃) λ ctrl n₄ c. (
                    record {
                      vtcp = v;
                      itcp = t;
                      spy = s;
                      ctrl = c;
                      port_vtcp = refl;
                      port_itcp = refl;
                    },
                    refl,
                  )

  module _ (names : TerminatesNames p) (cids : HasCids p) (parses : ParsesMessages p) where
    -- Where the names that are read have a zero among their bytes, every accepted peer has a CID
    -- of 0 or at least 3 and genlmsg_parse does not fail on a message that RecvSignal gives,
    -- vwifi_server with any options runs any number of rounds without a failed assertion: it has
    -- exited after an error of a call, at the opening of its servers or later, or it goes on, or
    -- has come to its return after an error of the scheduler, with the server in its invariant.
    -- What the destructors do after that return is not a part of it.
    pub vwifi_server-Runs :
        (rounds : ℕ) (o : ServerOptions) (scale : p.Real) (w : p.World)
        → Runs (vwifi_server k rounds o scale w)
    unfolding vwifi_server
    vwifi_server-Runs rounds o scale w =
        let n : Net p = record { world = w; calls = [] } in
        elim (Option-cases (open_servers k o n).0) [
          | inl e ↦ rw (e, vwifi_server) (stopped, refl, tt)
          | inr (e, eq) ↦
              rw (eq, vwifi_server)
                (run-start names cids parses rounds e o.can_lost_packets o.hash_uses_port scale
                  (open_servers k o n).1.world)
        ]
