-- ===== src/Muduo/TcpServer.antt =====
-- project/MyMuduo/TcpServer.h, TcpServer.cc, Acceptor.h and Acceptor.cc: the server accepts connections,
-- spreads them over its loops and keeps them under their names.
pub mod Names
pub mod Entries
pub mod Connections
mod Tests
use alexproject.Common.{
  ℕ, ◌+◌, Bool, true, false, List, [], ◌∷◌, ◌++◌, Option, none, some, ◌==◌, if◌then◌else◌, ◌>>=◌,
  length, get_elem?, map,
}
use alexproject.Common.Decimal.{Text, decimal, truncated}
use alexproject.Common.Text.{put, erase}
use alexproject.Muduo.ThreadPool.{ThreadPool, get_next_loop, start}

-- What the server reads of a connection it has made.
pub record Connection : Type 0 where
  pub name : Text
  pub loop : ℕ
  pub sockfd : ℕ

-- `made` holds every connection object ever made, and a `TcpConnectionPtr` is its place there; `connections`
-- lists the entries of the unordered map in the order of their insertion.
pub record TcpServer : Type 0 where
  pub ip_port : Text
  pub name : Text
  pub pool : ThreadPool
  pub started : ℕ
  pub next_conn_id : ℕ
  pub connections : List (Text × ℕ)
  pub made : List Connection

unfoldable pub new_server : Text → Text → ThreadPool → TcpServer
new_server ip_port name pool = record {
  ip_port = ip_port;
  name = name;
  pool = pool;
  started = 0;
  next_conn_id = 1;
  connections = [];
  made = [];
}

-- What a method has other objects do.
pub data Call : Type 0 where
  init_callback : ℕ → Call
  listen : Call
  -- `loop->runInLoop` and `loop->queueInLoop` of a method of a connection.
  run_connect_established run_connect_destroyed queue_connect_destroyed : ℕ → ℕ → Call
  run_remove_connection : ℕ → Call

-- `started_++ == 0`
unfoldable pub start_server : (ℕ → ℕ) → Bool → TcpServer → TcpServer × List Call
start_server start_loop cb s =
    let after = record s { started = s.started + 1 } in
    let (pool, called) = start start_loop cb s.pool in
    if s.started == 0
    then (record after { pool = pool }, map init_callback called ++ listen ∷ [])
    else (after, [])

-- `name_ + buf` where `snprintf(buf, sizeof buf, "-%s#%d", ipPort, id)` fills 64 bytes.
unfoldable pub connection_name : Text → Text → ℕ → Text
connection_name name ip_port id = name ++ truncated 64 (45 ∷ ip_port ++ 35 ∷ decimal id)

pub new_connection : TcpServer → ℕ → Option (TcpServer × List Call)
unfolding connection_name get_next_loop
new_connection s sockfd = do
  (io_loop, pool) ← get_next_loop s.pool
  let name = connection_name s.name s.ip_port s.next_conn_id
  let conn = length s.made
  some (
    record s {
      pool = pool;
      next_conn_id = s.next_conn_id + 1;
      connections = put name conn s.connections;
      made = s.made ++ (record { name = name; loop = io_loop; sockfd = sockfd }) ∷ [];
    },
    run_connect_established io_loop conn ∷ [],
  )

pub remove_connection : TcpServer → ℕ → TcpServer × List Call
remove_connection s conn = (s, run_remove_connection conn ∷ [])

-- `none` where `conn` points to no connection.
pub remove_connection_in_loop : TcpServer → ℕ → Option (TcpServer × List Call)
remove_connection_in_loop s conn = do
  c ← get_elem? s.made conn
  some (
    record s { connections = erase c.name s.connections },
    queue_connect_destroyed c.loop conn ∷ [],
  )

-- The destructor's loop over the entries.
pub destroy_entries : TcpServer → List (Text × ℕ) → Option (List Call)
destroy_entries s [] = some []
destroy_entries s ((name, conn) ∷ entries) = do
  c ← get_elem? s.made conn
  calls ← destroy_entries s entries
  some (run_connect_destroyed c.loop conn ∷ calls)

pub destroy : TcpServer → Option (List Call)
unfolding destroy_entries
destroy s = destroy_entries s s.connections

-- What `accept` returned to `Acceptor::handleRead`: a descriptor, or -1 with `errno`.
pub data Accepted : Type 0 where
  accepted : ℕ → Accepted
  accept_error : ℕ → Accepted

-- What the acceptor does: it hands the descriptor to the callback that the server set, closes it where there is none, or
-- logs the error, twice when there are no descriptors left.
pub data Handled : Type 0 where
  new_connection_callback : ℕ → Handled
  close_fd : ℕ → Handled
  log_errors : ℕ → Handled

abbrev pub emfile : ℕ
emfile = 24

pub handle_read : Bool → Accepted → Handled
handle_read has_callback (accepted connfd) =
    if has_callback then new_connection_callback connfd else close_fd connfd
handle_read has_callback (accept_error errno) = log_errors (if errno == emfile then 2 else 1)
