-- ===== src/Platform.antt =====
-- What the program takes from outside the repository: the socket calls of the kernel, `pselect`,
-- `rand`, uninitialised memory, the netlink parser of libnl and the `double` arithmetic of the
-- compiler and of libm. All of it is a parameter of the models.
use vwifi.Prelude.{ℕ, ◌≤◌, ◌≡◌, Bool, Option, some, List, length}
use vwifi.Prelude.Int.{ℤ}

-- `struct sockaddr_in`: the address and the port, both in network byte order, as unsigned numbers.
pub record SockaddrIn : Type 0 where
  pub s_addr : ℕ
  pub sin_port : ℕ

pub record Platform : Type 1 where
  -- The state of the kernel, of the peers and of the random generator.
  pub World : Type 0
  -- `send(fd, data, size, 0)`: `none` for -1, else the number of bytes taken.
  pub send : ℕ → List ℕ → World → Option ℕ × World
  -- `recv(fd, buffer, size, 0)`: `none` for -1, else the bytes stored; no byte at the end of stream.
  pub recv : ℕ → ℕ → World → Option (List ℕ) × World
  pub close : ℕ → World → World
  -- `accept` on an internet and on a vsock socket: the new descriptor with the peer's address or
  -- CID, `none` for a negative result.
  pub accept_inet : ℕ → World → Option (ℕ × SockaddrIn) × World
  pub accept_vsock : ℕ → World → Option (ℕ × ℕ) × World
  -- `pselect(nfds, set, …)`: the result, whether `errno` is EINTR, and the set as it is left.
  pub pselect : ℤ → (ℕ → Bool) → World → ℤ × Bool × (ℕ → Bool) × World
  pub rand : World → ℕ × World
  -- The bytes found in `n` bytes of memory that nothing has written.
  pub uninit : ℕ → World → List ℕ
  -- `genlmsg_parse` and `nla_get_u32` of HWSIM_ATTR_FREQ in a netlink message: `none` where the
  -- parser fails, which leaves the attributes unwritten, `some none` where there is no such attribute.
  pub frequency_attr : List ℕ → Option (Option ℕ)
  -- `double`: `ratio n d` is the literal n / d.
  pub Real : Type 0
  pub ratio : ℕ → ℕ → Real
  pub of_int : ℤ → Real
  pub add : Real → Real → Real
  pub sub : Real → Real → Real
  pub mul : Real → Real → Real
  pub sqrt : Real → Real
  pub log10 : Real → Real
  pub is_zero : Real → Bool
  pub truncate : Real → ℤ
  pub to_bytes : Real → List ℕ
  pub of_bytes : List ℕ → Real

-- What the manual pages say of these calls.
pub record IsDocumented (p : Platform) : Type 0 where
  pub recv_bound :
      (d n : ℕ) (w : p.World) (bs : List ℕ) → (p.recv d n w).0 ≡ some bs → length bs ≤ n
  pub uninit_size : (n : ℕ) (w : p.World) → length (p.uninit n w) ≡ n

-- A call that the program made and that others can see.
pub data Call : Type 0 where
  sent : ℕ → List ℕ → Call
  closed : ℕ → Call

-- The world, with the calls made so far, oldest first.
pub record Net (p : Platform) : Type 0 where
  pub world : p.World
  pub calls : List Call
