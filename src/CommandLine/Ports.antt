-- ===== src/CommandLine/Ports.antt =====
-- What main of vwifi-client.cc makes of any words.
use vwifi.Prelude.{
  ℕ, ◌≤◌, ◌<◌, ◌%◌, ◌^◌, ◌≡◌, refl, Bool, true, false, Option, none, some, List, [], ◌∷◌, arith,
  ltb, if_both, if_split, length,
}
use vwifi.Prelude.Int.{ℤ, pos}
use vwifi.Prelude.Ordered.{==_ℤ}
use vwifi.CommandLine.{
  Parsed, exits, runs, ClientOptions, ClientMode, mode_tcp, mode_vhost, is_empty, is_option,
  int_behind, with_port, with_number, with_mac, parse_client, default_client, client_mode,
}

pub record InRange (o : ClientOptions) : Type 0 where
  pub port : o.port_number < 65536
  pub number : o.number_interface ≤ 100

-- An exception, an error that is numbered from 0 to 6, or options in range.
abbrev pub Suits : Option (Parsed ClientOptions) → Type 0
Suits none = Unit
Suits (some (exits n)) = n ≤ 6
Suits (some (runs o)) = InRange o

with_port-Suits :
    (x : Option (Option ℕ)) (refused : Option (Parsed ClientOptions))
    (set' : ℕ → Option (Parsed ClientOptions))
    → Suits refused
    → ((n : ℕ) → n < 65536 → Suits (set' n))
    → Suits (with_port x refused set')
with_port-Suits none refused set' r h = r
with_port-Suits (some none) refused set' r h = tt
with_port-Suits (some (some n)) refused set' r h = h (n % 2 ^ 16) (omega arith)

with_number-Suits :
    (x : Option (Option ℕ)) (refused : Option (Parsed ClientOptions))
    (set' : ℕ → Option (Parsed ClientOptions))
    → Suits refused
    → ((n : ℕ) → n ≤ 100 → Suits (set' n))
    → Suits (with_number x refused set')
with_number-Suits none refused set' r h = r
with_number-Suits (some none) refused set' r h = tt
with_number-Suits (some (some n)) refused set' r h =
    if_split Suits (ltb 100 n) (λ t. omega arith) (λ f. h n (ground arith))

with_mac-Suits :
    (scan : List ℕ → List ℕ → ℤ × List ℕ) (mac : List ℕ) (rest : List (List ℕ))
    (refused : Option (Parsed ClientOptions)) (set' : List ℕ → Option (Parsed ClientOptions))
    → Suits refused
    → ((mac : List ℕ) → Suits (set' mac))
    → Suits (with_mac scan mac rest refused set')
with_mac-Suits scan mac [] refused set' r h = r
with_mac-Suits scan mac (v ∷ rest) refused set' r h =
    if_both Suits (ltb 17 (length v)) (omega arith)
      (if_both Suits (==_ℤ (scan v mac).0 (pos 0)) (omega arith) (h (scan v mac).1))

parse_client-Suits :
    (scan : List ℕ → List ℕ → ℤ × List ℕ) (used : Bool) (words : List (List ℕ)) (o : ClientOptions)
    → InRange o
    → Suits (parse_client scan used words o)
unfolding parse_client
parse_client-Suits scan used [] o h = h
parse_client-Suits scan true (w ∷ rest) o h = parse_client-Suits scan false rest o h
parse_client-Suits scan false (w ∷ rest) o h =
    let skip = parse_client-Suits scan false rest in
    let used = parse_client-Suits scan true rest in
    let named = skip (record o { ip_addr = w }) (record { port = h.port; number = h.number }) in
    let one : Suits (some (exits 1)) = omega arith in
    let refused = if_both Suits (is_empty o.ip_addr) named one in
    let zero' : Suits (some (exits 0)) = omega arith in
    if_both Suits (is_option "-v" "--version" w) zero' (
      if_both Suits (is_option "-h" "--help" w) zero' (
        if_both Suits (is_option "-p" "--port" w)
          (with_port-Suits (int_behind rest) _ _ refused
            (λ n l. used (record o { port_number = n }) (record { port = l; number = h.number })))
          (if_both Suits (is_option "-u" "--use-port-in-hash" w)
            (skip _ (record { port = h.port; number = h.number }))
            (if_both Suits (is_option "-s" "--spy" w)
              (skip _ (record { port = h.port; number = h.number }))
              (if_both Suits (is_option "-n" "--number" w)
                (with_number-Suits (int_behind rest) _ _ refused (λ n l.
                  used (record o { number_interface = n }) (record { port = h.port; number = l })))
                (if_both Suits (is_option "-m" "--mac" w)
                  (with_mac-Suits scan o.mac_prefix rest _ _ refused (λ mac.
                    used (record o { mac_prefix = mac })
                      (record { port = h.port; number = h.number })))
                  refused))))))

-- A client without spying and without an address goes to the host; any other one has an address.
-- The port is one that a socket can have.
abbrev pub Reaches : ClientOptions → ClientMode → Type 0
Reaches o (mode_tcp ip port) = (is_empty ip ≡ false) × (0 < port) × (port < 65536)
Reaches o (mode_vhost port) =
    (is_empty o.ip_addr ≡ true) × (o.spy ≡ false) × (0 < port) × (port < 65536)

client_mode-Reaches : (o : ClientOptions) → InRange o → Reaches o (client_mode o)
unfolding client_mode
client_mode-Reaches o h =
    if_split (Reaches o) o.spy
      (λ t. (
        if_split (λ ip. is_empty ip ≡ false) (is_empty o.ip_addr) (λ e. refl) (λ e. e),
        ground arith,
        ground (arith, h.port),
      ))
      (λ f.
        if_split (Reaches o) (is_empty o.ip_addr)
          (λ e. (e, f, ground arith, ground (arith, h.port)))
          (λ e. (e, ground arith, ground (arith, h.port))))

-- An exception, an error from 0 to 6, or options in range with a mode that reaches a server.
abbrev pub Starts : Option (Parsed ClientOptions) → Type 0
Starts none = Unit
Starts (some (exits n)) = n ≤ 6
Starts (some (runs o)) = InRange o × Reaches o (client_mode o)

Starts-of_Suits : (r : Option (Parsed ClientOptions)) → Suits r → Starts r
Starts-of_Suits none h = tt
Starts-of_Suits (some (exits n)) h = h
Starts-of_Suits (some (runs o)) h = (h, client_mode-Reaches o h)

-- Whatever the words, the draw and the reading of an address, the loop of main of vwifi-client
-- ends with an exception of stoi, with a return value of at most 6, or with a number of radios of
-- at most 100 and a port of 16 bits, and then with a mode whose port is neither 0 nor above 16
-- bits: the host exactly without spying and without an address, else an address that is not empty.
pub parse_client-Starts :
    (scan : List ℕ → List ℕ → ℤ × List ℕ) (words : List (List ℕ)) (rand : ℕ)
    → Starts (parse_client scan false words (default_client rand))
unfolding default_client
parse_client-Starts scan words rand = Starts-of_Suits _ (
    parse_client-Suits scan false words (default_client rand)
      (record { port = omega arith; number = omega arith }))
