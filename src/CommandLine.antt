-- ===== src/CommandLine.antt =====
-- The command lines: main of vwifi-server.cc and vwifi-client.cc up to what they
-- start, built with ENABLE_VHOST. A word is the list of its bytes; `none` is an exception of
-- `std::stoi` that nothing catches.
pub mod Ports
pub mod Decimal
pub mod Orders
pub mod Typed
pub mod Served
pub mod Adding
use Prim.Native.Char.{code}
use Prim.Native.String.{String}
use vwifi.Prelude.{
  ℕ, ◌+◌, ◌*◌, ◌-◌, ◌^◌, ◌%◌, Bool, true, false, not, ◌&&◌, ◌||◌, Option, none, some, ◌>>=◌, List,
  [], ◌∷◌, ltb, ◌==◌, if◌then◌else◌, length, set,
}
use vwifi.Prelude.Int.{ℤ, pos}
use vwifi.Prelude.Ordered.{==_ℤ}
use vwifi.Tools.{is_positive_int}
use vwifi.CtrlClient.Words.{digits_value}
use vwifi.Devices.{same_bytes}
use vwifi.Interfaces.{RadioKernel, Created, manage_radios}

abbrev pub codes : String → List ℕ
codes String.[] = []
codes (String.◌∷◌ c s) = code c ∷ codes s

-- `! strcmp`, for the short and the long form of an option.
unfoldable pub is_option : String → String → List ℕ → Bool
is_option short long word = same_bytes word (codes short) || same_bytes word (codes long)

-- `std::stoi` of a word that isPositiveInt takes: a `+` at most, and digits.
unfoldable pub stoi_digits : List ℕ → Option ℕ
stoi_digits [] = none
stoi_digits (c ∷ cs) =
    if ltb (digits_value 0 (c ∷ cs)) (2 ^ 31) then some (digits_value 0 (c ∷ cs)) else none

unfoldable pub stoi : List ℕ → Option ℕ
stoi [] = none
stoi (c ∷ cs) = if c == b'+' then stoi_digits cs else stoi_digits (c ∷ cs)

-- The word behind an option, if it is there and isPositiveInt takes it, and what `std::stoi` says.
unfoldable pub int_behind : List (List ℕ) → Option (Option ℕ)
int_behind [] = none
int_behind (v ∷ rest) = if is_positive_int v then some (stoi v) else none

-- A TPort has 16 bits.
abbrev pub to_port : ℕ → ℕ
to_port n = n % 2 ^ 16

-- The return value of `main`, or the options that it goes on with.
pub data Parsed (A : Type 0) : Type 0 where
  exits : ℕ → Parsed A
  runs : A → Parsed A

-- vwifi-server.cc.
pub record ServerOptions : Type 0 where
  pub can_lost_packets : Bool
  pub hash_uses_port : Bool
  pub port_vhost : ℕ
  pub port_tcp : ℕ
  pub port_spy : ℕ
  pub port_ctrl : ℕ

abbrev pub default_port_vhost : ℕ
default_port_vhost = 8211

unfoldable pub default_server : ServerOptions
default_server = record {
  can_lost_packets = false;
  hash_uses_port = false;
  port_vhost = default_port_vhost;
  port_tcp = default_port_vhost + 1;
  port_spy = default_port_vhost + 2;
  port_ctrl = default_port_vhost + 3;
}

-- A port is set, and the word behind the option is passed over.
abbrev pub with_port :
    {A : Type 0}
    → Option (Option ℕ)
    → Option (Parsed A)
    → (ℕ → Option (Parsed A))
    → Option (Parsed A)
with_port none refused set' = refused
with_port (some none) refused set' = none
with_port (some (some n)) refused set' = set' (to_port n)

-- The loop over the words; the flag tells that the first word was the value of an option.
unfoldable pub parse_server : Bool → List (List ℕ) → ServerOptions → Option (Parsed ServerOptions)
parse_server used [] o = some (runs o)
parse_server true (w ∷ rest) o = parse_server false rest o
parse_server false (w ∷ rest) o =
    let skip = parse_server false rest in
    let take_port = λ (f : ℕ → ServerOptions).
      with_port (int_behind rest) (some (exits 1)) (λ n. parse_server true rest (f n)) in
    if is_option "-v" "--version" w
    then some (exits 0)
    else if is_option "-h" "--help" w
    then some (exits 0)
    else if is_option "-l" "--lost-packets" w
    then skip (record o { can_lost_packets = true })
    else if is_option "-u" "--use-port-in-hash" w
    then skip (record o { hash_uses_port = true })
    else if is_option "-p" "--port-vhost" w
    then take_port (λ n. record o { port_vhost = n })
    else if is_option "-t" "--port-tcp" w
    then take_port (λ n. record o { port_tcp = n })
    else if is_option "-s" "--port-spy" w
    then take_port (λ n. record o { port_spy = n })
    else if is_option "-c" "--port-ctrl" w
    then take_port (λ n. record o { port_ctrl = n })
    else some (exits 1)

-- vwifi-client.cc.
pub record ClientOptions : Type 0 where
  pub spy : Bool
  pub ip_addr : List ℕ
  pub port_number : ℕ
  pub number_interface : ℕ
  pub mac_prefix : List ℕ
  pub hash_uses_port : Bool

-- The start of `main`: the fourth byte of 74:F8:F6 is drawn at random.
unfoldable pub default_client : ℕ → ClientOptions
default_client rand = record {
  spy = false;
  ip_addr = [];
  port_number = 0;
  number_interface = 0;
  mac_prefix = 116 ∷ 248 ∷ 246 ∷ (rand % 100) ∷ 0 ∷ 0 ∷ [];
  hash_uses_port = false;
}

abbrev pub is_empty : List ℕ → Bool
is_empty [] = true
is_empty (c ∷ cs) = false

-- `-n` with a number.
abbrev pub with_number :
    {A : Type 0}
    → Option (Option ℕ)
    → Option (Parsed A)
    → (ℕ → Option (Parsed A))
    → Option (Parsed A)
with_number none refused set' = refused
with_number (some none) refused set' = none
with_number (some (some n)) refused set' = if ltb 100 n then some (exits 4) else set' n

-- `-m` with a prefix: `scan` is the `sscanf` of ParseAddress, which returns how many bytes it has
-- stored, or -1, and the address after that.
abbrev pub with_mac :
    {A : Type 0}
    → (List ℕ → List ℕ → ℤ × List ℕ)
    → List ℕ
    → List (List ℕ)
    → Option (Parsed A)
    → (List ℕ → Option (Parsed A))
    → Option (Parsed A)
with_mac scan mac [] refused set' = refused
with_mac scan mac (v ∷ rest) refused set' =
    let (count, mac') = scan v mac in
    if ltb 17 (length v)
    then some (exits 5)
    else if ==_ℤ count (pos 0)
    then some (exits 6)
    else set' mac'

unfoldable pub parse_client :
    (List ℕ → List ℕ → ℤ × List ℕ)
    → Bool
    → List (List ℕ)
    → ClientOptions
    → Option (Parsed ClientOptions)
parse_client scan used [] o = some (runs o)
parse_client scan true (w ∷ rest) o = parse_client scan false rest o
parse_client scan false (w ∷ rest) o =
    let skip = parse_client scan false rest in
    let used = parse_client scan true rest in
    let refused = if is_empty o.ip_addr then skip (record o { ip_addr = w }) else some (exits 1) in
    if is_option "-v" "--version" w
    then some (exits 0)
    else if is_option "-h" "--help" w
    then some (exits 0)
    else if is_option "-p" "--port" w
    then with_port (int_behind rest) refused (λ n. used (record o { port_number = n }))
    else if is_option "-u" "--use-port-in-hash" w
    then skip (record o { hash_uses_port = true })
    else if is_option "-s" "--spy" w
    then skip (record o { spy = true })
    else if is_option "-n" "--number" w
    then with_number (int_behind rest) refused (λ n. used (record o { number_interface = n }))
    else if is_option "-m" "--mac" w
    then with_mac scan o.mac_prefix rest refused (λ mac. used (record o { mac_prefix = mac }))
    else refused

-- The server that the client connects to: the type of its socket, the address and the port.
pub data ClientMode : Type 0 where
  mode_tcp : List ℕ → ℕ → ClientMode
  mode_vhost : ℕ → ClientMode

abbrev pub or_default : ℕ → ℕ → ℕ
or_default port default = if port == 0 then default else port

unfoldable pub client_mode : ClientOptions → ClientMode
client_mode o =
    if o.spy
    then mode_tcp (if is_empty o.ip_addr then codes "127.0.0.1" else o.ip_addr)
        (or_default o.port_number (default_port_vhost + 2))
    else if is_empty o.ip_addr
    then mode_vhost (or_default o.port_number default_port_vhost)
    else mode_tcp o.ip_addr (or_default o.port_number (default_port_vhost + 1))

-- Behind the loop: the user, the radios, and the mode.
unfoldable pub client_start :
    {k : RadioKernel} → ℕ → ClientOptions → Created k → Parsed ClientMode × Created k
client_start uid o s =
    let (ret, s') = manage_radios o.number_interface o.mac_prefix s in
    if not (uid == 0)
    then (exits 2, s)
    else if o.number_interface == 0
    then (runs (client_mode o), s)
    else if ret == 0
    then (runs (client_mode o), s')
    else (exits 7, s')
