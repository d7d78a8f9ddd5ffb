-- ===== src/Muduo/TcpServer/Tests.antt =====
-- Tests of the server.
use alexproject.Common.{ℕ, ◌+◌, ◌≡◌, refl, inr, true, false, List, [], ◌∷◌, some, arith}
use alexproject.Common.Decimal.{Text, decimal}
use alexproject.Muduo.ThreadPool.{ThreadPool}
use alexproject.Muduo.TcpServer.{
  TcpServer, new_server, Call, connection_name, destroy, handle_read, accepted, accept_error,
  close_fd, log_errors,
}
use alexproject.Muduo.TcpServer.Entries.{Op, accept, remove, run, entries}
use alexproject.Muduo.TcpServer.Connections.{destroyed, server_run}

abbrev pool : ThreadPool
pool = record {
  base_loop = 9;
  name = [];
  started = true;
  num_threads = 2;
  next = 0;
  threads = [];
  loops = 5 ∷ 6 ∷ [];
}

-- "1:2"
abbrev address : Text
address = 49 ∷ 58 ∷ 50 ∷ []

abbrev ops : List Op
ops = accept 20 ∷ accept 21 ∷ remove 0 ∷ accept 20 ∷ []

-- "S-1:2#12"
twelfth_name : connection_name (83 ∷ []) address 12 ≡ 83 ∷ 45 ∷ 49 ∷ 58 ∷ 50 ∷ 35 ∷ 49 ∷ 50 ∷ []
unfolding connection_name decimal
twelfth_name = refl

abbrev id : ℕ
id = 12

server_run_example :
    (t : TcpServer) × (cs : List Call) × (run (new_server address (83 ∷ []) pool) ops ≡ some t)
    × (t.connections ≡ entries (λ c. connection_name t.name t.ip_port (c + 1)) (1 ∷ 2 ∷ []))
    × (destroy t ≡ some cs)
    × (destroyed cs ≡ 1 ∷ 2 ∷ [])
server_run_example =
    server_run address (83 ∷ []) pool ops (ground arith) (inr (ground arith))
      (omega arith, (omega arith, (omega arith, (omega arith, tt))))

no_callback : handle_read false (accepted 7) ≡ close_fd 7
unfolding handle_read
no_callback = refl

no_descriptor_left : handle_read true (accept_error 24) ≡ log_errors 2
unfolding handle_read
no_descriptor_left = refl
