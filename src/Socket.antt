-- ===== src/Socket.antt =====
-- cdynbuffer.cc, csocket.cc and csocketclient.cc: bytes through a socket. A result of -1, which is
-- SOCKET_ERROR, is `none`, but where the code hands it on as a number.
pub mod Stream
pub mod Sent
pub mod Pieces
use vwifi.Prelude.{
  ℕ, zero, suc, ◌+◌, ◌-◌, ◌%◌, ◌^◌, Bool, true, false, not, Option, none, some, ◌>>=◌, List, [],
  ◌∷◌, ◌++◌, ltb, ◌==◌, if◌then◌else◌, length, take, drop,
}
use vwifi.Prelude.Int.{ℤ, pos, negsuc, pos_part, ltb_ℤ}
use vwifi.Prelude.Bytes.{le, of_le}
use vwifi.Platform.{Platform, Net, sent}

abbrev pub socket_error : ℤ
socket_error = negsuc 0

abbrev pub is_socket_error : ℤ → Bool
is_socket_error (negsuc zero) = true
is_socket_error _ = false

-- CDynBuffer: `Size` bytes of memory.
pub record DynBuffer : Type 0 where
  pub buffer : List ℕ
  pub size : ℕ

-- Bytes written over others, from an offset on.
abbrev pub write_at : ℕ → List ℕ → List ℕ → List ℕ
write_at offset bytes old = take offset old ++ (bytes ++ drop (offset + length bytes) old)

abbrev pub default_size_buffer : ℕ
default_size_buffer = 1024

module _ (p : Platform) where
  unfoldable pub new_buffer : p.World → DynBuffer
  new_buffer w = record { buffer = p.uninit default_size_buffer w; size = default_size_buffer }

  unfoldable pub allocate : ℕ → Bool → DynBuffer → p.World → DynBuffer
  allocate size keep_values b w = record {
    buffer =
        if keep_values
        then write_at 0 (take b.size b.buffer) (p.uninit size w)
        else p.uninit size w;
    size = size;
  }

  unfoldable pub needed_size : ℤ → Bool → DynBuffer → p.World → DynBuffer
  needed_size size keep_values b w =
      if ltb_ℤ (pos b.size) size then allocate (pos_part size) keep_values b w else b

  -- CSocket::Send: a partial send is an error too.
  unfoldable pub send : ℕ → List ℕ → Net p → Option ℕ × Net p
  send d bytes n =
      let (ret, w) = p.send d bytes n.world in
      let n' : Net p = record { world = w; calls = n.calls ++ sent d bytes ∷ [] } in
      (elim ret [ none ↦ none | some k ↦ if k == length bytes then some k else none ], n')

  -- CSocket::SendBigData: the size as two bytes, then the data.
  unfoldable pub send_big_data : ℕ → List ℕ → ℕ → Net p → Option ℕ × Net p
  send_big_data d bytes size n =
      let (ret, n') = send d (le 2 size) n in
      elim ret [ none ↦ (none, n') | some _ ↦ send d (take size bytes) n' ]

  -- CSocket::Read: the end of the stream is an error too.
  unfoldable pub read : ℕ → ℕ → p.World → Option (List ℕ) × p.World
  read d size w =
      let (ret, w') = p.recv d size w in
      (elim ret [ none ↦ none | some [] ↦ none | some (b ∷ bs) ↦ some (b ∷ bs) ], w')

  -- The loop of CSocket::ReadEqualSize: whether it read all, and the buffer. The outer `none`
  -- means that the fuel ran out.
  unfoldable pub read_loop : ℕ → ℕ → ℕ → ℕ → List ℕ → p.World → Option (Bool × List ℕ × p.World)
  read_loop zero d offset remaining buffer w = none
  read_loop (suc fuel) d offset remaining buffer w =
      let (ret, w') = read d remaining w in
      let rest = λ (bs : List ℕ).
        read_loop fuel d (offset + length bs) (remaining - length bs) (write_at offset bs buffer)
          w' in
      if ltb 0 remaining
      then (elim ret [ none ↦ some (false, buffer, w') | some bs ↦ rest bs ])
      else some (true, buffer, w)

  -- CSocket::ReadEqualSize. A size below the bytes already read leaves nothing to read.
  unfoldable pub read_equal_size :
      ℕ → DynBuffer → ℕ → ℤ → p.World → Option (ℤ × DynBuffer × p.World)
  read_equal_size d buf already size w =
      let b = needed_size size (not (already == 0)) buf w in
      let remaining = pos_part size - already in
      do
        (complete, bytes, w') ← read_loop (suc remaining) d already remaining b.buffer w
        some (if complete then size else socket_error, record b { buffer = bytes }, w')

  -- CSocket::ReadBigData, with the bytes of `size` that a short read leaves unwritten.
  unfoldable pub read_big_data : ℕ → DynBuffer → p.World → Option (ℤ × DynBuffer × p.World)
  read_big_data d buf w =
      let (ret, w') = read d 2 w in
      elim ret [
        | none ↦ some (socket_error, buf, w')
        | some bs ↦ read_equal_size d buf 0 (pos (of_le (write_at 0 bs (p.uninit 2 w)))) w'
      ]
