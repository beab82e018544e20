-- ===== src/CommandLine/Adding.antt =====
-- main of vwifi-add-interfaces.cc. The `sscanf` of ParseInt and ParseAddress are parameters: each
-- returns how many values it has stored, or -1, and the variable after that.
use vwifi.Prelude.{ℕ, ◌%◌, Bool, false, List, [], ◌∷◌, ltb, ◌==◌, if◌then◌else◌, length}
use vwifi.Prelude.Int.{ℤ, pos, pos_part, ltb_ℤ}
use vwifi.Prelude.Ordered.{==_ℤ}
use vwifi.Interfaces.{RadioKernel, Created, manage_radios}
use vwifi.CommandLine.{Parsed, exits, runs, is_option}

abbrev pub starts_with_dash : List ℕ → Bool
starts_with_dash [] = false
starts_with_dash (c ∷ cs) = c == b'-'

module _ (scan_int : List ℕ → ℤ → ℤ × ℤ) (scan : List ℕ → List ℕ → ℤ × List ℕ) where
  -- The loop over the words, of which `arg_used` is the next place.
  unfoldable pub parse_adding : ℕ → List (List ℕ) → ℤ → List ℕ → Parsed (ℤ × List ℕ)
  parse_adding arg_used [] n_radios mac_prefix = runs (n_radios, mac_prefix)
  parse_adding arg_used (w ∷ rest) n_radios mac_prefix =
      let (read_ints, n) = scan_int w n_radios in
      let (read_bytes, mac) = scan w mac_prefix in
      let number =
        if ==_ℤ read_ints (pos 0)
        then exits 2
        else if ltb_ℤ n (pos 1)
        then exits 3
        else if ltb_ℤ (pos 100) n
        then exits 4
        else parse_adding 2 rest n mac_prefix in
      let prefix =
        if ltb 17 (length w)
        then exits 5
        else if ==_ℤ read_bytes (pos 0)
        then exits 6
        else parse_adding 3 rest n_radios mac in
      let passed = parse_adding arg_used rest n_radios mac_prefix in
      if is_option "-v" "--version" w
      then exits 0
      else if is_option "-h" "--help" w
      then exits 0
      else if starts_with_dash w
      then exits 1
      else if arg_used == 1
      then number
      else if arg_used == 2
      then prefix
      else passed

  -- Behind the loop: the user and the radios.
  unfoldable pub adding_start :
      {k : RadioKernel} → ℕ → Parsed (ℤ × List ℕ) → Created k → ℕ × Created k
  adding_start uid (exits code) s = (code, s)
  adding_start uid (runs (n, mac)) s = if uid == 0 then manage_radios (pos_part n) mac s else (2, s)

  -- `fresh` is what stands in `nRadios`, which nothing sets at first; the fourth byte of 74:F8:F6 is
  -- drawn at random.
  unfoldable pub vwifi_add_interfaces :
      {k : RadioKernel} → (fresh : ℤ) (rand uid : ℕ) → List (List ℕ) → Created k → ℕ × Created k
  vwifi_add_interfaces fresh rand uid [] s = (0, s)
  vwifi_add_interfaces fresh rand uid (w ∷ rest) s =
      let mac = 116 ∷ 248 ∷ 246 ∷ (rand % 100) ∷ 0 ∷ 0 ∷ [] in
      adding_start uid (parse_adding 1 (w ∷ rest) fresh mac) s
