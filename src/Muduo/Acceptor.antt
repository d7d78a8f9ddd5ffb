-- ===== src/Muduo/Acceptor.antt =====
-- project/MyMuduo/Acceptor.h, Acceptor.cc, Socket.h and Socket.cc: the listening socket and its channel. What a
-- system call returns is an argument. `handleRead` stands with the server.
pub mod Lifecycle
mod Tests
use alexproject.Common.{ℕ, Bool, true, false, List, [], ◌∷◌, Option, none, some, if◌then◌else◌}
use alexproject.Muduo.Channel.{Channel, new_channel}
use alexproject.Muduo.InetAddress.{InetAddress}
use alexproject.Muduo.Poller.Kernel.{Epoll}
use alexproject.Muduo.Poller.{Poller, Outcome, ok, fatal, install, enable_reading, retire, ◌>>=◌}

-- The options that `Socket` sets.
pub data SockOpt : Type 0 where
  tcp_no_delay reuse_addr reuse_port keep_alive : SockOpt

pub data SysCall : Type 0 where
  setsockopt : ℕ → SockOpt → ℕ → SysCall
  bind : ℕ → InetAddress → SysCall
  listen : ℕ → ℕ → SysCall
  shutdown_write close : ℕ → SysCall

-- `setTcpNoDelay`, `setReuseAddr`, `setReusePort`, `setKeepAlive`
abbrev pub set_option : ℕ → SockOpt → Bool → SysCall
set_option sockfd opt on = setsockopt sockfd opt (if on then 1 else 0)

-- `bindAddress` and `Socket::listen`: the call, and whether it returned 0; else LOG_FATAL.
unfoldable pub bind_address : ℕ → InetAddress → Bool → Outcome SysCall
bind_address sockfd addr bound = if bound then ok (bind sockfd addr) else fatal

unfoldable pub listen_socket : ℕ → Bool → Outcome SysCall
listen_socket sockfd listened = if listened then ok (listen sockfd 1024) else fatal

-- `createNonblocking` on what `socket` returned.
unfoldable pub create_nonblocking : Option ℕ → Outcome ℕ
create_nonblocking none = fatal
create_nonblocking (some sockfd) = ok sockfd

-- `accept_channel` is the place of the channel.
pub record Acceptor : Type 0 where
  pub accept_socket : ℕ
  pub accept_channel : ℕ
  pub listenning : Bool

-- The channel that the constructor makes: it has a read callback and asks for nothing.
abbrev pub accept_channel_of : ℕ → Channel
accept_channel_of sockfd = record (new_channel sockfd) { read_callback = true }

module _ (K : Epoll) where
  -- The constructor; both options are switched on whatever `reuseport` is.
  unfoldable pub new_acceptor :
      Option ℕ
      → Bool
      → InetAddress
      → Bool
      → ℕ
      → Poller K
      → Outcome (Acceptor × Poller K × List SysCall)
  unfolding create_nonblocking bind_address
  new_acceptor socket bound listen_addr reuseport c p = do
    sockfd ← create_nonblocking socket
    bind_call ← bind_address sockfd listen_addr bound
    ok (
      record { accept_socket = sockfd; accept_channel = c; listenning = false },
      install K p c (accept_channel_of sockfd),
      set_option sockfd reuse_addr true ∷ set_option sockfd reuse_port true ∷ bind_call ∷ [],
    )

  unfoldable pub listen_acceptor :
      Bool → Acceptor → Poller K → Outcome (Acceptor × Poller K × List SysCall)
  unfolding listen_socket
  listen_acceptor listened a p = do
    listen_call ← listen_socket a.accept_socket listened
    q ← enable_reading K p a.accept_channel
    ok (record a { listenning = true }, q, listen_call ∷ [])

  -- The destructor, and that of the socket behind it.
  unfoldable pub destroy_acceptor : Acceptor → Poller K → Outcome (Poller K × List SysCall)
  destroy_acceptor a p = do q ← retire K p a.accept_channel; ok (q, close a.accept_socket ∷ [])
