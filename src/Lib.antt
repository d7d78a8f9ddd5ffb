-- ===== src/Lib.antt =====
-- Verification of the network library MyMuduo (project/MyMuduo) and of the chat server (project/CHAT).
--
-- A network server runs one event loop per thread. Each loop waits in a poller for the channels that
-- are registered with it, dispatches the events that came, and then runs the callbacks that its own or
-- other threads queued. A TCP connection owns a channel and two buffers; the server makes connections
-- from the descriptors of the acceptor and spreads them over the loops of a thread pool. The chat
-- server parses each message and gives it to the handler for its number, which reads and writes the
-- database and sends to connections or through Redis.
--
-- * Common and its children: tests on numbers, lists over the native numbers, wrapping sizes, integers, and in
--   Common/Reach what a step relation reaches, in Common/Perms lists in another order.
-- * Muduo/Buffer (Buffer.h, Buffer.cc): the vector and its two indices. `size_t` arithmetic wraps at 2^64; the
--   theorems ask for vectors shorter than 2^63, which no address space exceeds. `readv` and `write` are their
--   results.
-- * Muduo/Channel (Channel.h, Channel.cc): the masks of events, and which callbacks a dispatch runs. The
--   sockets' callbacks do not change the events that came, so they are a list.
-- * Muduo/Poller (Poller.h, Poller.cc, EPollPoller.h, EPollPoller.cc): the channels live in a store under
--   numbers, in the place of `Channel*`. The interest list of the kernel is the interface Epoll in
--   Muduo/Poller/Kernel, with what epoll_ctl(2) documents; the tests fill it with a function table.
-- * Muduo/EventLoop (EventLoop.h, EventLoop.cc): the queue of callbacks, `quit_` and the eventfd.
--   Muduo/EventLoop/Creation is the constructor and the destructor, with the poller that DefaultPoller.cc chooses.
--   Muduo/EventLoop/Steps is the step relation: the pieces of `loop()` between which another thread may act, and
--   the pieces of `queueInLoop` and `quit` of other threads, and both calls by the loop's thread before `loop()`.
-- * Muduo/TcpConnection (TcpConnection.h, TcpConnection.cc): every method takes the connection and what the
--   system call returned, and gives the connection and the list of what it did outside. A callback of the user
--   that calls the connection again is a further call: no method reads the connection after it has run a callback.
--   Muduo/TcpConnection/History runs any sequence of calls.
-- * Muduo/Reactor (TcpConnection.cc, Channel.cc, EventLoop.cc): the connections of one loop with the poller of
--   the loop: what a method does to its channel is done to the poller.
-- * Muduo/Echo (testmymuduo/testmuduo.cc): the settings of the echo server, and its message callback, run by
--   `handleRead`.
-- * Muduo/LoopThread (EventLoopThread.h, EventLoopThread.cc): the caller of `startLoop` and the thread, each as
--   a phase; Muduo/LoopThread/Handshake interleaves them, where nobody ends the loop before the caller has its
--   address.
-- * Muduo/ThreadPool (EventLoopThreadPool.h, EventLoopThreadPool.cc): an `EventLoop*` is a number, and the
--   address that a thread's loop gets is a parameter of `start`.
-- * Muduo/Thread (Thread.h, Thread.cc, CurrentThread.h): the object with its std::thread, and the start, in
--   which the caller and the new thread are phases that Muduo/Thread/Start interleaves.
-- * Muduo/InetAddress (InetAddress.h, InetAddress.cc): addresses; the conversions of the C library are a
--   parameter.
-- * Muduo/Acceptor (Acceptor.cc, Socket.cc): the listening socket with its channel in the poller.
-- * Muduo/Timestamp (Timestamp.h, Timestamp.cc), Common/Clock: microseconds as integers, and their text.
-- * Muduo/Logger (Logger.h, Logger.cc): the line that a log macro writes.
-- * Muduo/Grace (graceserver.cc, graceclient.cc): the loops of the two demonstrations, and in Setup how they
--   begin.
-- * Muduo/TcpServer (TcpServer.h, TcpServer.cc, Acceptor.cc): the connections are numbered as they are made, and
--   the entries of the unordered map stand in the order of their insertion. Names are lists of character codes;
--   Common/Decimal is printf's %d for numbers below 2^31.
-- * Chat/Database, Chat/Statements (CHAT/src/server/db, the formats in CHAT/src/server/model): a statement is a
--   constructor for each format, `render` is what sprintf writes, and a statement that overflows its 1024 bytes or
--   holds a quote or backslash in a text gives no result. The client library of MySQL is the parameter Mysql.
--   Chat/Database/Connection is the object and the order of its calls.
-- * Chat/Models (CHAT/src/server/model): users, friends, groups and offline messages.
-- * Chat/Tables (CHAT/src/server/chat.sql): what MySQL documents of the statements, for a server that can be
--   reached, as an interface; the tests fill it with a database of two functions. Its law of insertion is for
--   ASCII text, which the latin1 of the column keeps, and leaves the order of the rows open. Chat/Tables/Accounts
--   is what making an account adds to it.
-- * Chat/Json (CHAT/thirdparty/json.hpp): a parameter with the law of member access.
-- * Chat/Redis (CHAT/src/server/redis): the commands, what the observer reports for the replies of hiredis, and
--   in Contexts the object with its two contexts.
-- * Chat/Service (CHAT/src/server/chatservice.cpp, chatserver.cpp, CHAT/include/public.hpp): the map from users
--   to connections, and in Login and Handlers the handlers, one call at a time, with the map in the order of
--   insertion; Delivery, GroupChat, Session, Leaving, Response, RoundTrip and Remote hold the proofs. Present runs
--   any sequence of events, with what MySQL documents of statements on other tables as an interface.
-- * Chat/Main (CHAT/src/server/main.cpp, chatserver.cpp, CHAT/src/client/main.cpp): the arguments, the settings
--   of the server, and how the client connects.
-- * Chat/Client (CHAT/src/client/main.cpp): the commands of the main menu on a typed line. Chat/Client/Responses
--   is the receiving side, with the globals as a record and the terminal as a list of lines. Chat/Client/Menu is
--   the start menu with the two threads as a step relation, where sending succeeds and each message arrives alone.
--   `Survives` in Chat/Json is what the JSON library promises of a text that it wrote.
-- * Chat/RoundTrip (main.cpp with chatservice.cpp): the client, the server and another client together; its
--   children are a login, a message that waits for one, a registration with the login after it, and a message to a
--   group. Chat/Samples fills the interfaces for the tests.
--
-- Every loop of the code is structural recursion here, so no fuel is used.
--
-- Not modelled: the interleavings of the handlers of the chat service, the functions of Timestamp on
-- double, the example for muduo, build files, and the libraries under the chat server: muduo, hiredis, MySQL's
-- client and JSON, which are parameters.
pub mod Common
pub mod Muduo
pub mod Chat
