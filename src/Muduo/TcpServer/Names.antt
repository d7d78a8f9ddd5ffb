-- ===== src/Muduo/TcpServer/Names.antt =====
-- The names of connections.
use alexproject.Common.{
  ℕ, ◌<◌, ◌≤◌, ◌^◌, ◌≡◌, sym, ◌∙◌, List, [], ◌∷◌, ◌++◌, arith, length, length-append, take_all,
  append_assoc,
}
use alexproject.Common.Decimal.{Text, decimal, decimal-injective, length-decimal, truncated}
use alexproject.Muduo.TcpServer.{connection_name}

append-cancel : {A : Type 0} (xs ys zs : List A) → xs ++ ys ≡ xs ++ zs → ys ≡ zs
append-cancel [] ys zs e = e
append-cancel (x ∷ xs) ys zs e = append-cancel xs ys zs (ground arith)

pub untruncated :
    (ip_port : Text) (id : ℕ)
    → length ip_port ≤ 21
    → truncated 64 (45 ∷ ip_port ++ 35 ∷ decimal id) ≡ 45 ∷ ip_port ++ 35 ∷ decimal id
untruncated ip_port id h =
    take_all 63 (45 ∷ ip_port ++ 35 ∷ decimal id)
      (omega (arith, length-append ip_port (35 ∷ decimal id), length-decimal id))

-- With an address and port of at most 21 characters, as IPv4 has, no name is cut off by the 64 bytes
-- of its buffer, and connections with different numbers of type `int` have different names.
pub connection_name-injective :
    (name ip_port : Text) (m n : ℕ)
    → length ip_port ≤ 21
    → m < 2 ^ 31
    → n < 2 ^ 31
    → connection_name name ip_port m ≡ connection_name name ip_port n
    → m ≡ n
unfolding connection_name
connection_name-injective name ip_port m n h hm hn e =
    let whole : 45 ∷ ip_port ++ 35 ∷ decimal m ≡ 45 ∷ ip_port ++ 35 ∷ decimal n =
      sym (untruncated ip_port m h) ∙ append-cancel name _ _ e ∙ untruncated ip_port n h in
    decimal-injective m n hm hn (
      append-cancel (45 ∷ ip_port ++ 35 ∷ []) (decimal m) (decimal n) (
        append_assoc (45 ∷ ip_port) (35 ∷ []) (decimal m)
        ∙ whole
        ∙ sym (append_assoc (45 ∷ ip_port) (35 ∷ []) (decimal n))))
