-- ===== src/Muduo/TcpServer/Connections.antt =====
-- Which connections the server keeps.
use alexproject.Common.{
  ℕ, ◌+◌, ◌-◌, ◌<◌, ◌≤◌, ◌^◌, ◌≡◌, inl, inr, refl, ap, ◌∙◌, List, [], ◌∷◌, ◌++◌, some, arith,
  length, get_elem?, length-append, get-append, get-inside,
}
use alexproject.Common.Decimal.{Text}
use alexproject.Common.Text.{put, erase}
use alexproject.Muduo.ThreadPool.{ThreadPool}
use alexproject.Muduo.ThreadPool.RoundRobin.{Inside, get_next_loop-Inside}
use alexproject.Muduo.TcpServer.{
  Connection, TcpServer, new_server, Call, run_connect_established, run_connect_destroyed,
  queue_connect_destroyed, connection_name, new_connection, remove_connection_in_loop, destroy,
  destroy_entries,
}
use alexproject.Muduo.TcpServer.Entries.{
  Op, accept, remove, step, run, count_after, live_after, live_from, Allowed, Legal, name_of,
  entries, Below, Tracks, without, Below-append, Below-without, put-entries, erase-entries,
}

-- The server once it has made a connection, and once it has removed one.
abbrev made_one : TcpServer → ℕ → ThreadPool → ℕ → TcpServer
made_one s io_loop pool sockfd =
    let name = connection_name s.name s.ip_port s.next_conn_id in
    record s {
      pool = pool;
      next_conn_id = s.next_conn_id + 1;
      connections = put name (length s.made) s.connections;
      made = s.made ++ (record { name = name; loop = io_loop; sockfd = sockfd }) ∷ [];
    }

made_one-Tracks :
    (s : TcpServer) (n io_loop sockfd : ℕ) (pool : ThreadPool) (live : List ℕ)
    → Tracks s n live
    → n < 2 ^ 31 - 2
    → Inside pool
    → Tracks (made_one s io_loop pool sockfd) (n + 1) (live ++ n ∷ [])
made_one-Tracks s n io_loop sockfd pool live v h inside =
    let new : Connection = record {
      name = connection_name s.name s.ip_port s.next_conn_id;
      loop = io_loop;
      sockfd = sockfd;
    } in
    let id : s.next_conn_id ≡ n + 1 = v.ids in
    record {
      count = length-append s.made (new ∷ []) ∙ omega (arith, v.count);
      ids = omega (arith, v.ids);
      few = omega arith;
      address = v.address;
      named = λ c {o} f. elim (get-append s.made new c f) [
        | inl old ↦ v.named c old
        | inr (last, newest) ↦
            let same : s.next_conn_id ≡ c + 1 = omega (arith, v.ids, v.count) in
            ap (λ (k : Connection). k.name) newest ∙ ap (connection_name s.name s.ip_port) same
      ];
      listed = rw (v.ids, v.count, v.listed) (put-entries s n live v.address v.few v.below);
      below = Below-append n live v.below;
      round = inside;
    }

abbrev removed_one : TcpServer → Connection → TcpServer
removed_one s o = record s { connections = erase o.name s.connections }

removed_one-Tracks :
    (s : TcpServer) (n c : ℕ) (o : Connection) (live : List ℕ)
    → Tracks s n live
    → c < n
    → get_elem? s.made c ≡ some o
    → Tracks (removed_one s o) n (without c live)
removed_one-Tracks s n c o live v h e = record {
  count = v.count;
  ids = v.ids;
  few = v.few;
  address = v.address;
  named = λ d f. v.named d f;
  listed = rw (v.named c e, v.listed) (erase-entries s n c live v.address v.few h v.below);
  below = Below-without n c live v.below;
  round = v.round;
}

step-Tracks :
    (s : TcpServer) (n : ℕ) (live : List ℕ) (op : Op)
    → Tracks s n live
    → Allowed n op
    → (t : TcpServer) × (cs : List Call) × (step s op ≡ some (t, cs))
      × Tracks t (count_after n op) (live_after n live op)
unfolding new_connection remove_connection_in_loop
step-Tracks s n live (accept sockfd) v h =
    let (x, q, e, inside) = get_next_loop-Inside s.pool v.round in
    (
      made_one s x q sockfd,
      run_connect_established x (length s.made) ∷ [],
      rw e refl,
      made_one-Tracks s n x sockfd q live v h inside,
    )
step-Tracks s n live (remove c) v h =
    let (o, e) = get-inside s.made c (omega (arith, v.count)) in
    (
      removed_one s o,
      queue_connect_destroyed o.loop c ∷ [],
      rw e refl,
      removed_one-Tracks s n c o live v h e,
    )

run-Tracks :
    (s : TcpServer) (n : ℕ) (live : List ℕ) (ops : List Op)
    → Tracks s n live
    → Legal n ops
    → (t : TcpServer) × (m : ℕ) × (run s ops ≡ some t) × Tracks t m (live_from n live ops)
run-Tracks s n live [] v l = (s, n, refl, v)
run-Tracks s n live (op ∷ ops) v l =
    let (t, cs, e, w) = step-Tracks s n live op v l.0 in
    let (u, m, f, z) = run-Tracks t (count_after n op) (live_after n live op) ops w l.1 in
    (u, m, rw e f, z)

-- What the destructor's calls destroy.
abbrev pub destroyed : List Call → List ℕ
destroyed [] = []
destroyed (run_connect_destroyed loop c ∷ cs) = c ∷ destroyed cs
destroyed (_ ∷ cs) = destroyed cs

destroy-entries :
    (s : TcpServer) (n : ℕ) (names : ℕ → Text) (live : List ℕ)
    → length s.made ≡ n
    → Below n live
    → (cs : List Call) × (destroy_entries s (entries names live) ≡ some cs) × (destroyed cs ≡ live)
unfolding destroy_entries
destroy-entries s n names [] e b = ([], refl, refl)
destroy-entries s n names (x ∷ live) e b =
    let (o, f) = get-inside s.made x (omega arith) in
    let (cs, g, h) = destroy-entries s n names live e b.1 in
    (run_connect_destroyed o.loop x ∷ cs, rw (f, g) refl, ap (λ l. x ∷ l) h)

-- A new server whose address and port have at most 21 characters and whose pool is started, with fewer connections than an `int` counts, where only connections
-- that were made are removed: no step fails, the server lists exactly the connections that were accepted and
-- not removed, each under its own name, and its destructor destroys exactly these.
pub server_run :
    (ip_port name : Text) (pool : ThreadPool) (ops : List Op)
    → length ip_port ≤ 21
    → Inside pool
    → Legal 0 ops
    → (t : TcpServer) × (cs : List Call) × (run (new_server ip_port name pool) ops ≡ some t)
      × (t.connections
          ≡ entries (λ c. connection_name t.name t.ip_port (c + 1)) (live_from 0 [] ops))
      × (destroy t ≡ some cs)
      × (destroyed cs ≡ live_from 0 [] ops)
unfolding destroy new_server
server_run ip_port name pool ops h inside l =
    let fresh : Tracks (new_server ip_port name pool) 0 [] = record {
      count = refl;
      ids = refl;
      few = omega arith;
      address = h;
      named = λ c e. absurd (ground arith);
      listed = refl;
      below = tt;
      round = inside;
    } in
    let (t, m, e, v) = run-Tracks (new_server ip_port name pool) 0 [] ops fresh l in
    let (cs, f, g) = destroy-entries t m (name_of t) (live_from 0 [] ops) v.count v.below in
    (t, cs, e, v.listed, rw v.listed f, g)
