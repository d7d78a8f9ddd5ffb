-- ===== src/Muduo/InetAddress/Tests.antt =====
-- Tests of addresses, with a C library that prints every address alike.
use alexproject.Common.{ℕ, ◌≡◌, refl, arith}
use alexproject.Common.Decimal.{decimal}
use alexproject.Common.Literal.{codes}
use alexproject.Muduo.InetAddress.{Inet, InetAddress, new_inet_address, to_ip_port, to_port}
use alexproject.Muduo.TcpServer.{connection_name}
use alexproject.Muduo.InetAddress.Names.{server_names-injective}

abbrev local : Inet
local = record {
  inet_addr = λ ip. 0x100007f;
  inet_ntop = λ a. codes "127.0.0.1";
  length-inet_ntop = λ a. omega arith;
}

abbrev address : InetAddress
unfolding new_inet_address
address = new_inet_address local 6000 (codes "127.0.0.1")

printed : to_ip_port local address ≡ codes "127.0.0.1:6000"
unfolding to_ip_port new_inet_address decimal
printed = refl

port : to_port local address ≡ 6000
unfolding to_port new_inet_address
port = refl

server_names-injective_example :
    let named = connection_name (codes "chat") (to_ip_port local address) in
    (named 7 ≡ codes "chat-127.0.0.1:6000#7") × (named 8 ≡ named 7 → ◌≡◌ {A = ℕ} 8 7)
unfolding new_inet_address decimal
server_names-injective_example =
    server_names-injective local address (codes "chat") 8 7 (omega arith) (omega arith)
      (omega arith)
