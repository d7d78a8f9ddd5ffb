-- ===== src/Muduo.antt =====
-- The network library, project/MyMuduo.
pub mod Buffer
pub mod Channel
pub mod Poller
pub mod EventLoop
pub mod TcpConnection
pub mod ThreadPool
pub mod LoopThread
pub mod TcpServer
pub mod InetAddress
pub mod Acceptor
pub mod Thread
pub mod Timestamp
pub mod Logger
pub mod Grace
pub mod Reactor
pub mod Echo
