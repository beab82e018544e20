-- ===== src/Commands/Said.antt =====
-- The bytes that vwifi-ctrl.cc sends for an order with its words.
use mathlib.Core.Path.{subst}
use vwifi.Prelude.{
  ℕ, ◌≡◌, refl, ap, sym, ◌∙◌, some, List, [], ◌∷◌, ◌++◌, ltb, if◌then◌else◌, length, take, arith,
  append_assoc, append-nil, if_split,
}
use vwifi.Prelude.Slices.{take_short}
use vwifi.Prelude.Int.{pos}
use vwifi.Platform.{Platform, Net, closed}
use vwifi.Info.{max_size_name}
use vwifi.Socket.{send}
use vwifi.Socket.Sent.{bytes_sent, bytes_sent-append, TakesAll, send_all, send-bytes}
use vwifi.Ctrl.{u32_bytes, s32_bytes, coordinate_bytes}
use vwifi.Ctrl.Orders.{Order}
use vwifi.CtrlClient.{
  Ask, ◌>>=◌, code, ask_send, close_connection, ask_change_coordinate, ask_set_name,
  ask_packet_loss, ask_scale, ask_close_all_client,
}
use vwifi.Commands.{
  Command, place_at, name_as, lose_packets, scale_to, close_all, ask, command_bytes,
}

abbrev cut : List ℕ → List ℕ
cut word = if ltb max_size_name (length word) then take max_size_name word else word

cut_lem : (word : List ℕ) → cut word ≡ take max_size_name word
cut_lem word =
    if_split (λ (bs : List ℕ). bs ≡ take max_size_name word) (ltb max_size_name (length word))
      (λ long. refl) (λ short. sym (take_short max_size_name word (ground (arith, short))))

module _ {q : Platform} (d : ℕ) (net : TakesAll q d) where
  -- The call ends well, and its bytes are behind those sent before.
  abbrev pub Asks : Ask q (Unit {0}) → Net q → List ℕ → Type 0
  Asks m n bytes =
      (n' : Net q) × (m n ≡ some (some tt, n'))
      × (bytes_sent d n'.calls ≡ bytes_sent d n.calls ++ bytes)

  ask_send-Asks : (bytes : List ℕ) (n : Net q) → Asks (ask_send d bytes) n bytes
  unfolding ask_send
  ask_send-Asks bytes n =
      ((send q d bytes n).1, rw (send_all d net bytes n, ask_send) refl, send-bytes d net bytes n)

  close-Asks : (n : Net q) → Asks (close_connection d) n []
  unfolding close_connection
  close-Asks n = (_, refl, bytes_sent-append d n.calls (closed d ∷ []))

  Asks-bind :
      (bytes more : List ℕ) (m m' : Ask q (Unit {0})) (n : Net q)
      → Asks m n bytes
      → ((n' : Net q) → Asks m' n' more)
      → Asks (m >>= λ _. m') n (bytes ++ more)
  unfolding ◌>>=◌
  Asks-bind bytes more m m' n (n₁, e₁, b₁) next =
      let (n₂, e₂, b₂) = next n₁ in
      (
        n₂,
        rw (e₁, ◌>>=◌) e₂,
        b₂ ∙ (ap (λ (bs : List ℕ). bs ++ more) b₁ ∙ append_assoc (bytes_sent d n.calls) bytes more),
      )

  -- The last bytes, behind which the connection is closed.
  last-Asks :
      (bytes : List ℕ) (n : Net q) → Asks (ask_send d bytes >>= λ _. close_connection d) n bytes
  last-Asks bytes n =
      subst (Asks (ask_send d bytes >>= λ _. close_connection d) n) (append-nil bytes)
        (Asks-bind bytes [] _ _ n (ask_send-Asks bytes n) close-Asks)

  then-Asks :
      (bytes more : List ℕ) (m : Ask q (Unit {0})) (n : Net q)
      → ((n' : Net q) → Asks m n' more)
      → Asks (ask_send d bytes >>= λ _. m) n (bytes ++ more)
  then-Asks bytes more m n next = Asks-bind bytes more _ m n (ask_send-Asks bytes n) next

  pub ask-Asks : (c : Command q) (n : Net q) → Asks (ask d c) n (command_bytes c)
  unfolding ask_change_coordinate ask_set_name ask_packet_loss ask_scale ask_close_all_client
  ask-Asks (place_at cid coo) n =
      then-Asks _ _ _ n λ n₁. then-Asks _ _ _ n₁ λ n₂. last-Asks (coordinate_bytes coo) n₂
  ask-Asks (name_as cid word) n =
      subst
        (λ (name : List ℕ). Asks (ask_set_name d cid word) n (
          u32_bytes (code Order.set_name)
          ++ (u32_bytes cid ++ (s32_bytes (pos (length name)) ++ (name ++ 0 ∷ [])))))
        (cut_lem word)
        (then-Asks _ _ _ n
          λ n₁. then-Asks _ _ _ n₁ λ n₂. then-Asks _ _ _ n₂ λ n₃. last-Asks (cut word ++ 0 ∷ []) n₃)
  ask-Asks (lose_packets b) n = then-Asks _ _ _ n λ n₁. last-Asks _ n₁
  ask-Asks (scale_to scale) n = then-Asks _ _ _ n λ n₁. last-Asks _ n₁
  ask-Asks close_all n = then-Asks _ _ _ n close-Asks
