-- ===== src/Muduo/InetAddress.antt =====
-- project/MyMuduo/InetAddress.h and InetAddress.cc: an IPv4 address with a port.
pub mod Names
mod Tests
use alexproject.Common.{ℕ, ◌+◌, ◌*◌, ◌/◌, ◌%◌, ◌≤◌, ◌∷◌, ◌++◌, length}
use alexproject.Common.Decimal.{Text, decimal}

-- The conversions of addresses of the C library; the text of an IPv4 address has at most 15 characters.
pub record Inet : Type 0 where
  pub inet_addr : Text → ℕ
  pub inet_ntop : ℕ → Text
  pub length-inet_ntop : (a : ℕ) → length (inet_ntop a) ≤ 15

-- `htons` and `ntohs` of a 16-bit number where the low byte comes first.
unfoldable pub swap_bytes : ℕ → ℕ
swap_bytes port = port % 256 * 256 + port / 256

abbrev pub af_inet : ℕ
af_inet = 2

-- `sockaddr_in`
pub record InetAddress : Type 0 where
  pub sin_family : ℕ
  pub sin_port : ℕ
  pub s_addr : ℕ

module _ (N : Inet) where
  unfoldable pub new_inet_address : ℕ → Text → InetAddress
  unfolding swap_bytes
  new_inet_address port ip = record {
    sin_family = af_inet;
    sin_port = swap_bytes port;
    s_addr = N.inet_addr ip;
  }

  unfoldable pub to_ip : InetAddress → Text
  to_ip a = N.inet_ntop a.s_addr

  unfoldable pub to_port : InetAddress → ℕ
  unfolding swap_bytes
  to_port a = swap_bytes a.sin_port

  -- `sprintf(buf + end, ":%u", port)` behind the address.
  unfoldable pub to_ip_port : InetAddress → Text
  unfolding swap_bytes
  to_ip_port a = N.inet_ntop a.s_addr ++ 58 ∷ decimal (swap_bytes a.sin_port)
