-- ===== src/Examples/Typing.antt =====
-- vwifi-ctrl with the words of an order, over the machine of Examples.Radios.
use vwifi.Prelude.{ℕ, ◌≡◌, refl, true, false, some, List, [], ◌∷◌, arith}
use vwifi.Prelude.Int.{pos, negsuc}
use vwifi.Platform.{Net}
use vwifi.Client.{connect_loop, connect, configure, new_client, init_itcp}
use vwifi.Socket.Sent.{bytes_sent}
use vwifi.Ctrl.{serve_order}
use vwifi.Commands.{Command, place_at, obey, hang_up}
use vwifi.Commands.Obeyed.{at}
use vwifi.CommandLine.{runs, codes}
use vwifi.CommandLine.Decimal.{decimal, decimal_ℤ}
use vwifi.CommandLine.Orders.{nothing, vwifi_ctrl}
use vwifi.CommandLine.Typed.{set}
use vwifi.CommandLine.Served.{calls_of, serve_order-vwifi_ctrl}
use vwifi.Examples.Radios.{on_air, kernel}
use vwifi.Examples.Streamed.{streamed-IsDocumented, listening}

abbrev no_network : Net on_air
no_network = record { world = 5; calls = [] }

abbrev moved : Command on_air
moved = place_at 1000 (record { x = negsuc 6; y = pos 2; z = pos 0 })

-- `-i 10.0.0.1 -p 8214 set 1000 -7 2 0`
abbrev words : List (List ℕ)
words =
    codes "set" ∷ decimal 1000 ∷ decimal_ℤ (negsuc 6) ∷ decimal_ℤ (pos 2) ∷ decimal_ℤ (pos 0) ∷ []

abbrev argv : List (List ℕ)
argv = codes "-i" ∷ codes "10.0.0.1" ∷ codes "-p" ∷ decimal 8214 ∷ words

abbrev typed : List ℕ
typed =
    bytes_sent 35
      (calls_of (vwifi_ctrl kernel (λ ip. 1) (λ x. x) (λ w. 1) (λ r. false) 1 argv no_network))

serve_order-vwifi_ctrl_example :
    ((n : Net on_air) × (vwifi_ctrl kernel
          (λ ip. 1)
          (λ x. x)
          (λ w. 1)
          (λ r. false)
          1
          argv
          no_network
        ≡ some (runs nothing, n)))
    × ((w : List ℕ) × (serve_order (listening 8 typed)
          ≡ hang_up (obey moved (at w (listening 8 typed)))))
unfolding connect_loop connect configure new_client init_itcp
serve_order-vwifi_ctrl_example =
    serve_order-vwifi_ctrl kernel (λ ip. 1) (λ x. x) (λ w. 1) (λ r. false) streamed-IsDocumented
      (record { descriptor = 8; enable = true }) (λ w. w) (λ n w. (refl, refl)) moved words
      (codes "10.0.0.1") 8214 1 35 no_network _ _ (listening 8 typed)
      (set 1000 (negsuc 6) (pos 2) (pos 0) (omega arith) (omega arith)
        ((omega arith, omega arith), (omega arith, omega arith), (omega arith, omega arith)))
      (omega arith) refl refl (λ bytes w. refl) refl refl refl refl
