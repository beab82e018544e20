-- ===== src/Radio/Delivered.antt =====
-- What a frame of the server leads to: recv_from_server of ckernelwifi.cc.
use vwifi.Prelude.{
  ℕ, ◌≡◌, ◌∙◌, inl, inr, Bool-cases, true, false, not, some, List, ◌++◌, arith, if◌then◌else◌,
}
use vwifi.Prelude.Int.{ℤ, pos}
use vwifi.Prelude.Bytes.{of_le, signed}
use vwifi.Platform.{Platform}
use vwifi.Devices.{list_devices}
use vwifi.Kernel.{Kernel, Attribute, attr_addr_transmitter, attr_frame}
use vwifi.Radio.{Radio, hwsim_cmd_frame, bytes_at, cmd, manage_server_crash, clone_to_all}
use vwifi.Radio.Forwarding.{frequency_of, deliver}
use vwifi.Prelude.Ordered.{==_ℤ}
use vwifi.Select.{node_has_action, wait, scheduler_error}
use vwifi.Socket.{DynBuffer, is_socket_error}
use vwifi.Wifi.{recv_signal}
use vwifi.Radio.{recv_from_socket, with_world}
use vwifi.Radio.Forwarding.{receive, recv_from_server}
use vwifi.Radio.Requests.{Builds, clones, for_family, clone_to_all-Asks}

-- The buffer holds a frame, with the attributes that are followed.
pub record HoldsFrame {p : Platform} (k : Kernel p) (msg : List ℕ) (frame : Attribute)
    : Type 0 where
  pub of_frame : cmd msg ≡ hwsim_cmd_frame
  pub transmitter : Attribute
  pub has_transmitter : k.parse msg attr_addr_transmitter ≡ some transmitter
  pub has_frame : k.parse msg attr_frame ≡ some frame

-- The server's socket is ready, and a signal is read from it: the reading's result, the power, the
-- buffer and the world.
pub record Reads {p : Platform} (d : ℕ) (r : Radio p) (ret power : ℤ) (buffer : DynBuffer)
    (w : p.World) : Type 0 where
  pub connected : r.connected_to_server ≡ true
  pub descriptor : r.client.master ≡ pos d
  pub no_error : ==_ℤ (wait p r.scheduler r.net.world).0 scheduler_error ≡ false
  pub ready : node_has_action 0 (wait p r.scheduler r.net.world).1 ≡ some true
  pub answer :
      recv_signal p d
        (signed 8 (of_le (p.uninit 1 (wait p r.scheduler r.net.world).2)))
        r.buffer
        (wait p r.scheduler r.net.world).2
      ≡ some (ret, power, buffer, w)

-- The state after `Wait`.
abbrev waited : {p : Platform} → Radio p → Radio p
waited {p} r = record (with_world (wait p r.scheduler r.net.world).2 r) {
  scheduler = (wait p r.scheduler r.net.world).1;
}

abbrev settled : {p : Platform} → ℤ → Radio p → Radio p
settled ret r = if is_socket_error ret then manage_server_crash r else r

module _ {p : Platform} (k : Kernel p) (builds : Builds p k) (f : ℕ) where
  deliver-clones :
      (signal : ℤ) (r : Radio p) (frame : Attribute)
      → HoldsFrame k r.buffer.buffer frame
      → deliver k signal r
        ≡ some (
            clone_to_all k
              (bytes_at frame.offset frame.size r.buffer.buffer)
              signal
              (frequency_of k r.buffer.buffer r.buffer.buffer)
              (list_devices r.list_winterfaces)
              r)
  unfolding deliver
  deliver-clones signal r frame b = ground (arith, b.of_frame, b.has_transmitter, b.has_frame)

  passes_guards :
      (r : Radio p)
      → r.connected_to_server ≡ true
      → ==_ℤ (wait p r.scheduler r.net.world).0 scheduler_error ≡ false
      → node_has_action 0 (wait p r.scheduler r.net.world).1 ≡ some true
      → recv_from_server k r ≡ receive k (waited r)
  unfolding recv_from_server
  passes_guards r c e h = ground (arith, c, e, h)

  reads :
      (r : Radio p) (d : ℕ) (ret power : ℤ) (buffer : DynBuffer) (w : p.World)
      → r.client.master ≡ pos d
      → recv_signal p d (signed 8 (of_le (p.uninit 1 r.net.world))) r.buffer r.net.world
        ≡ some (ret, power, buffer, w)
      → receive k r ≡ deliver k power (settled ret (record (with_world w r) { buffer = buffer }))
  unfolding receive recv_from_socket
  reads r d ret power buffer w m e = rw (m, e)

  -- Where the driver's messages can be built, recv_from_server on a connected client, whose first
  -- node is ready and whose reading of a signal ends with some result and leaves a frame in the
  -- buffer, succeeds: it asks the driver for one copy of this frame to each radio, in the order of
  -- their indices, at the power read, sends nothing, and stays connected exactly if the result is
  -- no error. After a failed reading it delivers what the buffer holds.
  pub recv_from_server-Delivers :
      (d : ℕ) (r : Radio p) (ret power : ℤ) (buffer : DynBuffer) (w : p.World) (frame : Attribute)
      → r.family_id ≡ pos f
      → Reads d r ret power buffer w
      → HoldsFrame k buffer.buffer frame
      → (r' : Radio p) × (recv_from_server k r ≡ some r')
        × (r'.requests
            ≡ r.requests
              ++ for_family (pos f) (
                  clones
                    (bytes_at frame.offset frame.size buffer.buffer)
                    power
                    (frequency_of k buffer.buffer buffer.buffer)
                    (list_devices r.list_winterfaces)))
        × (r'.net.calls ≡ r.net.calls)
        × (r'.connected_to_server ≡ not (is_socket_error ret))
  unfolding manage_server_crash
  recv_from_server-Delivers d r ret power buffer w frame fam h b =
      let r₂ : Radio p = record (with_world w (waited r)) { buffer = buffer } in
      let e =
        passes_guards r h.connected h.no_error h.ready
        ∙ reads (waited r) d ret power buffer w h.descriptor h.answer in
      let bytes = bytes_at frame.offset frame.size buffer.buffer in
      let freq = frequency_of k buffer.buffer buffer.buffer in
      let ds = list_devices r.list_winterfaces in
      elim (Bool-cases (is_socket_error ret)) [
        | inl t ↦
            let r₃ : Radio p = record r₂ { connected_to_server = false } in
            let a = clone_to_all-Asks k builds f bytes power freq ds r₃ fam in
            (
              clone_to_all k bytes power freq ds r₃,
              e ∙ rw t (deliver-clones power r₃ frame b),
              a.requests,
              a.calls,
              a.connected ∙ rw t,
            )
        | inr t ↦
            let a = clone_to_all-Asks k builds f bytes power freq ds r₂ fam in
            (
              clone_to_all k bytes power freq ds r₂,
              e ∙ rw t (deliver-clones power r₂ frame b),
              a.requests,
              a.calls,
              a.connected ∙ h.connected ∙ rw t,
            )
      ]
