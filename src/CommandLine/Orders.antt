-- ===== src/CommandLine/Orders.antt =====
-- main of vwifi-ctrl.cc: its options, the order that its words name, and the connection that each
-- order makes. `none` is an exception of `std::stoi`, a failed assertion, or that the fuel of
-- ConnectLoop ran out.
use vwifi.Prelude.{
  ℕ, ◌+◌, Bool, true, false, ◌&&◌, Option, none, some, ◌>>=◌, ◌>>◌, assert, not, List, [], ◌∷◌,
  ◌++◌, map, leb, if◌then◌else◌,
}
use vwifi.Prelude.Int.{pos_part}
use vwifi.Platform.{Platform, Net, closed}
use vwifi.Tools.{is_int_or_float}
use vwifi.Info.{InfoWifi}
use vwifi.Kernel.{Kernel}
use vwifi.Client.{init_itcp, connect_loop, close}
use vwifi.CtrlClient.{Ask, ask_list, ask_show, ask_status, ask_distance}
use vwifi.CtrlClient
use vwifi.CtrlClient.Words.{set_words, setname_words, loss_words, distance_words, same_word}
use vwifi.Commands.{Command, place_at, name_as, lose_packets, scale_to, close_all, ask}
use vwifi.CommandLine.{
  Parsed, exits, runs, codes, is_option, int_behind, with_port, default_port_vhost,
}

pub record CtrlOptions : Type 0 where
  pub ip_ctrl : List ℕ
  pub port_ctrl : ℕ

unfoldable pub default_ctrl : CtrlOptions
default_ctrl = record { ip_ctrl = codes "127.0.0.1"; port_ctrl = default_port_vhost + 3 }

abbrev pub with_ip :
    {A : Type 0}
    → List (List ℕ)
    → Option (Parsed A)
    → (List ℕ → Option (Parsed A))
    → Option (Parsed A)
with_ip [] kept set' = kept
with_ip (v ∷ rest) kept set' = set' v

-- The loop over the words, with the words kept for the order so far; the flag tells that the first
-- word was the value of an option.
unfoldable pub parse_ctrl :
    Bool
    → List (List ℕ)
    → CtrlOptions
    → List (List ℕ)
    → Option (Parsed (CtrlOptions × List (List ℕ)))
parse_ctrl used [] o param_cmd = some (runs (o, param_cmd))
parse_ctrl true (w ∷ rest) o param_cmd = parse_ctrl false rest o param_cmd
parse_ctrl false (w ∷ rest) o param_cmd =
    let kept = parse_ctrl false rest o (param_cmd ++ w ∷ []) in
    let used = parse_ctrl true rest in
    if is_option "-v" "--version" w
    then some (exits 0)
    else if is_option "-h" "--help" w
    then some (exits 1)
    else if is_option "-p" "--port" w
    then with_port (int_behind rest) kept (λ n. used (record o { port_ctrl = n }) param_cmd)
    else if is_option "-i" "--ip" w
    then with_ip rest kept (λ v. used (record o { ip_ctrl = v }) param_cmd)
    else kept

-- `strcasecmp`, in the letters of ASCII.
unfoldable pub lower : ℕ → ℕ
lower c = if leb b'A' c && leb c b'Z' then c + 32 else c

unfoldable pub same_order : List ℕ → List ℕ → Bool
same_order word name = same_word (map lower word) (map lower name)

-- The functions that `main` calls, behind the reading of their words.
pub data Request (q : Platform) : Type 0 where
  list : Request q
  show : Request q
  status : Request q
  distance : ℕ → ℕ → Request q
  change : Command q → Request q

-- What is displayed.
pub data Shown (p : Platform) : Type 0 where
  nothing : Shown p
  lists : List InfoWifi × List InfoWifi → Shown p
  shows : (ℕ × p.Real × ℕ) × (List InfoWifi × List InfoWifi) → Shown p
  statuses : ℕ × p.Real × ℕ × ℕ × ℕ × ℕ → Shown p
  distances : p.Real → Shown p

abbrev pub displays : {p : Platform} {A : Type 0} → (A → Shown p) → Ask p A → Ask p (Shown p)
displays shown asked = CtrlClient.◌>>=◌ asked (λ x. CtrlClient.pure (shown x))

-- `inet_addr`, `htons`, `atof` and the comparison of a double with 0.
module _ {p : Platform} (k : Kernel p) (inet_addr : List ℕ → ℕ) (htons : ℕ → ℕ)
    (atof : List ℕ → p.Real) (at_most_zero : p.Real → Bool) where
  unfoldable pub scale_words : List (List ℕ) → Option (Command p)
  scale_words (word ∷ []) = do
    assert (is_int_or_float word)
    assert (not (at_most_zero (atof word)))
    some (scale_to (atof word))
  scale_words _ = none

  -- `none` is a `return 1`.
  unfoldable pub request_of : List ℕ → List (List ℕ) → Option (Request p)
  request_of name words =
      if same_order name (codes "ls")
      then some list
      else if same_order name (codes "set")
      then (do (cid, coo) ← set_words words; some (change (place_at cid coo)))
      else if same_order name (codes "setname")
      then (do (cid, word) ← setname_words words; some (change (name_as cid word)))
      else if same_order name (codes "loss")
      then (do value ← loss_words words; some (change (lose_packets value)))
      else if same_order name (codes "show")
      then some show
      else if same_order name (codes "status")
      then some status
      else if same_order name (codes "distance")
      then (do (cid1, cid2) ← distance_words words; some (distance cid1 cid2))
      else if same_order name (codes "scale")
      then (do c ← scale_words words; some (change c))
      else if same_order name (codes "close")
      then some (change close_all)
      else none

  -- The destructor of the socket at the end of an order: at a `return 1` it closes the descriptor,
  -- which an order that comes to its end has closed.
  abbrev pub destroys : {A : Type 0} → ℕ → Option (Option A × Net p) → Option (Option A × Net p)
  destroys d none = none
  destroys d (some (none, n)) =
      some (none, record { world = p.close d n.world; calls = n.calls ++ closed d ∷ [] })
  destroys d (some (some a, n)) = some (some a, n)

  -- The beginning of each order: Init, and ConnectLoop, without which it returns 1, and its end.
  unfoldable pub on_connection : {A : Type 0} → ℕ → CtrlOptions → (ℕ → Ask p A) → Ask p A
  on_connection fuel o order n = do
    (ok, s, n') ← connect_loop k fuel (init_itcp (inet_addr o.ip_ctrl) (htons o.port_ctrl)) n
    if ok
        then destroys (pos_part s.master) (order (pos_part s.master) n')
        else some (none, (close s n').1)

  unfoldable pub run_request : ℕ → CtrlOptions → Request p → Ask p (Shown p)
  run_request fuel o list = on_connection fuel o (λ d. displays lists (ask_list d))
  run_request fuel o show = displays shows (
      CtrlClient.◌>>=◌ (on_connection fuel o ask_show) (λ status.
        CtrlClient.◌>>=◌ (on_connection fuel o ask_list)
          (λ shown. CtrlClient.pure (status, shown))))
  run_request fuel o status = on_connection fuel o (λ d. displays statuses (ask_status d))
  run_request fuel o (distance cid1 cid2) =
      on_connection fuel o (λ d. displays distances (ask_distance d cid1 cid2))
  run_request fuel o (change c) = on_connection fuel o (λ d. displays (λ _. nothing) (ask d c))

  -- The return value, or what is displayed before a `return 0`.
  abbrev pub returned : Option (Shown p) × Net p → Parsed (Shown p) × Net p
  returned (none, n) = (exits 1, n)
  returned (some shown, n) = (runs shown, n)

  unfoldable pub do_order :
      ℕ → CtrlOptions → List (List ℕ) → Net p → Option (Parsed (Shown p) × Net p)
  do_order fuel o [] n = some (exits 0, n)
  do_order fuel o (name ∷ words) n = elim (request_of name words) [
    | none ↦ some (exits 1, n)
    | some r ↦ do answer ← run_request fuel o r n; some (returned answer)
  ]

  unfoldable pub vwifi_ctrl : ℕ → List (List ℕ) → Net p → Option (Parsed (Shown p) × Net p)
  vwifi_ctrl fuel argv n = do
    parsed ← parse_ctrl false argv default_ctrl []
    elim parsed [ exits code ↦ some (exits code, n) | runs (o, words) ↦ do_order fuel o words n ]
