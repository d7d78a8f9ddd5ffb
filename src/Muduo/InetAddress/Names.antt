-- ===== src/Muduo/InetAddress/Names.antt =====
-- What an address prints fits every buffer that it is printed into.
use alexproject.Common.{
  ℕ, zero, suc, ◌+◌, ◌/◌, ◌%◌, ◌^◌, ◌<◌, ◌≤◌, ◌≡◌, ◌∷◌, [], ltb, true, length, length-append,
  Bool-cases, inl, inr, arith, ◌++◌, ap, ◌∙◌, append_assoc,
}
use alexproject.Common.Decimal.{Text, digits, decimal}
use alexproject.Muduo.TcpServer.{connection_name}
use alexproject.Muduo.TcpServer.Names.{connection_name-injective, untruncated}
use alexproject.Muduo.InetAddress.{
  Inet, InetAddress, swap_bytes, new_inet_address, to_ip_port, to_port,
}

-- A number below a power of ten has no more digits than the power.
length-digits_lt : (k j n : ℕ) → n < 10 ^ suc j → length (digits k n) ≤ suc j
length-digits_lt zero j n h = omega arith
length-digits_lt (suc k) zero n h =
    let small : ltb n 10 ≡ true = ground arith in rw small (omega arith)
length-digits_lt (suc k) (suc j) n h = elim (Bool-cases (ltb n 10)) [
  | inl small ↦ rw small (omega arith)
  | inr large ↦ rw large (
      omega (
        arith,
        length-append (digits k (n / 10)) ((48 + n % 10) ∷ []),
        length-digits_lt k j (n / 10) (omega arith),
      ))
]

swap_bytes-lt : (port : ℕ) → port < 2 ^ 16 → swap_bytes port < 10 ^ 5
unfolding swap_bytes
swap_bytes-lt port h = omega arith

module _ (N : Inet) where
  length-to_ip_port : (a : InetAddress) → a.sin_port < 2 ^ 16 → length (to_ip_port N a) ≤ 21
  unfolding to_ip_port decimal
  length-to_ip_port a h = omega (
    arith,
    length-append (N.inet_ntop a.s_addr) (58 ∷ digits 10 (swap_bytes a.sin_port)),
    N.length-inet_ntop a.s_addr,
    length-digits_lt 10 4 (swap_bytes a.sin_port) (swap_bytes-lt a.sin_port h),
  )

  -- Of a server whose address holds a 16-bit port, the connection with the number `n` of type `int` is called by the server's name, `-`, the
  -- whole text of address and port, `#` and the whole number: neither buffer cuts it off; and connections
  -- with different numbers have different names.
  pub server_names-injective :
      (a : InetAddress) (name : Text) (m n : ℕ)
      → a.sin_port < 2 ^ 16
      → m < 2 ^ 31
      → n < 2 ^ 31
      → (connection_name name (to_ip_port N a) n
          ≡ name
            ++ 45
              ∷ (N.inet_ntop a.s_addr ++ 58 ∷ (decimal (swap_bytes a.sin_port) ++ 35 ∷ decimal n)))
        × (connection_name name (to_ip_port N a) m ≡ connection_name name (to_ip_port N a) n
            → m ≡ n)
  unfolding connection_name to_ip_port
  server_names-injective a name m n h hm hn = (
    ap (λ t. name ++ t) (untruncated (to_ip_port N a) n (length-to_ip_port a h))
        ∙ ap (λ t. name ++ 45 ∷ t)
            (append_assoc (N.inet_ntop a.s_addr) (58 ∷ decimal (swap_bytes a.sin_port))
              (35 ∷ decimal n)),
    connection_name-injective name (to_ip_port N a) m n (length-to_ip_port a h) hm hn,
  )

  to_port-new :
      (port : ℕ) (ip : Text) → port < 2 ^ 16 → to_port N (new_inet_address N port ip) ≡ port
  unfolding to_port new_inet_address
  to_port-new port ip h = omega arith
