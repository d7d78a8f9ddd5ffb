-- ===== src/Muduo/Grace/Setup.antt =====
-- The two main functions of graceserver.cc and graceclient.cc up to their loops, and the loop of the server.
use alexproject.Common.{ℕ, Bool, true, List, [], ◌∷◌, ◌++◌, Option, none, some, ◌>>=◌}
use alexproject.Common.Decimal.{Text, decimal}
use alexproject.Common.Literal.{codes}
use alexproject.Muduo.InetAddress.{swap_bytes}
use alexproject.Muduo.Grace.{Read, server_exits, replies, serve}

-- `htons(9877)`
grace_port : ℕ
unfolding swap_bytes
grace_port = swap_bytes 9877

-- Where the server listens: any address, and a queue of 1024.
record Listening : Type 0 where
  address : ℕ
  port : ℕ
  backlog : ℕ

listening : Listening
unfolding grace_port
listening = record { address = 0; port = grace_port; backlog = 1024 }

-- With what `bind`, `listen` and `accept` return: the connection, or none where the process ends.
accept_client : Bool → Bool → Option ℕ → Option ℕ
accept_client true true accepted = accepted
accept_client _ _ accepted = none

-- The loop, on what the reads give: the answers and the count when the process ends or the reads are used up; none where a
-- byte is written behind an array.
unfoldable pub serve_all : List Read → ℕ → Option (List Text × ℕ)
unfolding serve
serve_all [] count = some ([], count)
serve_all (r ∷ reads) count = serve r count >>= λ served. elim served [
  | server_exits ↦ some ([], count)
  | replies text more ↦ (do (texts, last) ← serve_all reads more; some (text ∷ texts, last))
]

-- `sig_int`
received_line : ℕ → Text
unfolding decimal
received_line count = 10 ∷ codes "received " ++ (decimal count ++ (codes " datagrams" ++ 10 ∷ []))

-- `argv`, and whether `connect` succeeds: the address that the client connects to.
start_client : List Text → Bool → Option Text
start_client (name ∷ ip ∷ []) true = some ip
start_client _ connected = none
