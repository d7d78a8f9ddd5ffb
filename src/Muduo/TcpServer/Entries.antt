-- ===== src/Muduo/TcpServer/Entries.antt =====
-- The map of connections against the numbers of those that are live.
use alexproject.Common.{
  ℕ, ◌+◌, ◌-◌, ◌<◌, ◌≤◌, ◌^◌, ◌≡◌, ◌≢◌, inl, inr, refl, ap, false, List, [], ◌∷◌, ◌++◌, map, Option,
  some, arith, length, get_elem?, ◌==◌, if◌then◌else◌, ◌>>=◌, Bool-cases,
}
use alexproject.Common.Decimal.{Text}
use alexproject.Common.Text.{put, erase, text_eq, text_eq_refl, text_eq_ne}
use alexproject.Muduo.ThreadPool.RoundRobin.{Inside}
use alexproject.Muduo.TcpServer.{
  Connection, TcpServer, Call, connection_name, new_connection, remove_connection_in_loop,
}
use alexproject.Muduo.TcpServer.Names.{connection_name-injective}

-- A descriptor comes from the acceptor, or a closed connection is removed.
pub data Op : Type 0 where
  accept : ℕ → Op
  remove : ℕ → Op

abbrev pub step : TcpServer → Op → Option (TcpServer × List Call)
step s (accept sockfd) = new_connection s sockfd
step s (remove conn) = remove_connection_in_loop s conn

abbrev pub run : TcpServer → List Op → Option TcpServer
run s [] = some s
run s (op ∷ ops) = step s op >>= λ r. run r.0 ops

-- The specification: connections are numbered as they come, and those that were not removed are live.
abbrev pub without : ℕ → List ℕ → List ℕ
without c [] = []
without c (x ∷ xs) = let rest = without c xs in if x == c then xs else x ∷ rest

abbrev pub count_after : ℕ → Op → ℕ
count_after n (accept sockfd) = n + 1
count_after n (remove c) = n

abbrev pub live_after : ℕ → List ℕ → Op → List ℕ
live_after n live (accept sockfd) = live ++ n ∷ []
live_after n live (remove c) = without c live

abbrev pub live_from : ℕ → List ℕ → List Op → List ℕ
live_from n live [] = live
live_from n live (op ∷ ops) = live_from (count_after n op) (live_after n live op) ops

-- Only connections that were made are removed, and there are fewer than `int` can number.
abbrev pub Allowed : ℕ → Op → Type 0
Allowed n (accept sockfd) = n < 2 ^ 31 - 2
Allowed n (remove c) = c < n

abbrev pub Legal : ℕ → List Op → Type 0
Legal n [] = Unit
Legal n (op ∷ ops) = Allowed n op × Legal (count_after n op) ops

abbrev pub name_of : TcpServer → ℕ → Text
name_of s c = connection_name s.name s.ip_port (c + 1)

abbrev pub entries : (ℕ → Text) → List ℕ → List (Text × ℕ)
entries names = map λ c. (names c, c)

abbrev pub Below : ℕ → List ℕ → Type 0
Below n [] = Unit
Below n (x ∷ xs) = (x < n) × Below n xs

-- The server keeps its `n` connections under their names and lists the live ones.
pub record Tracks (s : TcpServer) (n : ℕ) (live : List ℕ) : Type 0 where
  pub count : length s.made ≡ n
  pub ids : s.next_conn_id ≡ n + 1
  pub few : n < 2 ^ 31 - 1
  pub address : length s.ip_port ≤ 21
  pub named : (c : ℕ) {o : Connection} → get_elem? s.made c ≡ some o → o.name ≡ name_of s c
  pub listed : s.connections ≡ entries (name_of s) live
  pub below : Below n live
  pub round : Inside s.pool

pub Below-append : (n : ℕ) (live : List ℕ) → Below n live → Below (n + 1) (live ++ n ∷ [])
Below-append n [] b = (omega arith, tt)
Below-append n (x ∷ live) b = (omega arith, Below-append n live b.1)

pub Below-without : (n c : ℕ) (live : List ℕ) → Below n live → Below n (without c live)
Below-without n c [] b = tt
Below-without n c (x ∷ live) b = elim (Bool-cases (x == c)) [
  | inl y ↦ rw y b.1
  | inr d ↦ rw d (b.0, Below-without n c live b.1)
]

different :
    (s : TcpServer) (c d : ℕ)
    → length s.ip_port ≤ 21
    → c < 2 ^ 31 - 1
    → d < 2 ^ 31 - 1
    → c ≢ d
    → text_eq (name_of s c) (name_of s d) ≡ false
different s c d h hc hd ne = text_eq_ne (name_of s c) (name_of s d) (λ e. ne (
    omega (
      arith,
      connection_name-injective s.name s.ip_port (c + 1) (d + 1) h (omega arith) (omega arith) e,
    )))

pub put-entries :
    (s : TcpServer) (n : ℕ) (live : List ℕ)
    → length s.ip_port ≤ 21
    → n < 2 ^ 31 - 1
    → Below n live
    → put (name_of s n) n (entries (name_of s) live) ≡ entries (name_of s) (live ++ n ∷ [])
put-entries s n [] h hn b = refl
put-entries s n (x ∷ live) h hn b =
    rw (different s x n h (omega arith) hn (omega arith))
      (ap (λ l. (name_of s x, x) ∷ l) (put-entries s n live h hn b.1))

pub erase-entries :
    (s : TcpServer) (n c : ℕ) (live : List ℕ)
    → length s.ip_port ≤ 21
    → n < 2 ^ 31 - 1
    → c < n
    → Below n live
    → erase (name_of s c) (entries (name_of s) live) ≡ entries (name_of s) (without c live)
erase-entries s n c [] h hn hc b = refl
erase-entries s n c (x ∷ live) h hn hc b = elim (Bool-cases (x == c)) [
  | inl y ↦ let same : x ≡ c = ground arith in rw (y, same, text_eq_refl (name_of s c)) refl
  | inr d ↦
      rw (d, different s x c h (omega arith) (omega arith) (ground arith))
        (ap (λ l. (name_of s x, x) ∷ l) (erase-entries s n c live h hn hc b.1))
]
