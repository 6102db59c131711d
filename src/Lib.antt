-- ===== src/Lib.antt =====
-- libsaf: a verification library for the C++ reactor library of this repository.
--
-- The program. An EventLoop runs in one thread. It polls its file descriptors through an EPollPoller,
-- calls the handlers of those that are ready, runs the functors that other threads have queued, and
-- fires the timers that are due out of its TimerQueue. A descriptor is an IOFd, which keeps the events
-- that it waits for and tells its loop's poller when they change. A TcpConnection has a socket, an
-- IOFd, and two Buffers: it appends what it reads to the one and calls its message callback; what
-- the kernel does not take of a send waits in the other until the socket can be written.
--
-- The files, with the code that they model; the children of each hold its proofs and tests.
-- - Common: tests, lists, results and signed integers on native numbers, shared by all.
-- - Buffer: src/net/Buffer.h, src/net/Buffer.cpp, src/net/NetString.h. `append`, `retrieve`,
--   `make_space`, `read_fd` and so on are append, retrieve, makeSpace, readFd. Buffer/Integers has the
--   integer methods and src/net/NetUtils.h, Buffer/Queue the specification as a queue of bytes.
-- - TimerQueue: src/net/TimerQueue.h, src/net/TimerQueue.cpp and src/net/fd/Timer.h. `heap_up`,
--   `heap_down`, `heap_pop`, `heap_delete`, `create_timer`, `add_timer`, `cancel_timer`,
--   `check_timers`, `pop_timer` are the methods of these names.
-- - Poller: src/net/fd/IOFd.h, src/net/fd/IOFd.cpp, src/net/poller/EPollPoller.h,
--   src/net/poller/EPollPoller.cpp. `poller_update_fd` and `poller_remove_fd` are updateFd and removeFd;
--   Poller/Dispatch has IOFd::handleEvent and EPollPoller::poll, Poller/Kernel what epoll_ctl documents.
-- - TcpConnection: src/net/tcp/TcpConnection.h, src/net/tcp/TcpConnection.cpp and the fields of
--   src/net/Connection.h. `send_in_loop`, `handle_write_in_loop`, `close`, `shutdown` and so on are the
--   methods of these names; it uses Buffer and Poller as the code does.
-- - TcpConnector: src/net/tcp/TcpConnector.h, src/net/tcp/TcpConnector.cpp. `connect_in_loop`,
--   `on_retry_in_loop`, `handle_write_in_loop` and so on are the methods of these names; `observe` is
--   what its socket's handleEvent calls.
-- - EventLoop: src/net/EventLoop.h, src/net/EventLoop.cpp: `start` and the queue of functors. What
--   functors, handlers and timers do is its parameter `Program`; EventLoop/Timers has runTimers over
--   TimerQueue.
-- - AsyncLogger: src/base/AsyncLogger.h, src/base/AsyncLogger.cpp: `append_line` is append,
--   `test_running`, `take_buffers` and `write_buffers` are the parts of a round of threadFunc.
-- - EventLoopCluster: src/net/EventLoopCluster.h, src/net/EventLoopCluster.cpp: `start`, `stop` and
--   `get_next_loop`.
-- - ThreadPool: src/base/ThreadPool.h, src/base/ThreadPool.cpp: `run`, `start`, `stop`, `work`.
-- - Server: src/net/Server.h, src/net/Server.cpp, and the map of connections of
--   src/net/udp/UdpServer.cpp and src/net/tcp/TcpServer.cpp: `new_connection`,
--   `remove_connection_in_loop`, `clear_connections` for what the UDP server's stop() does to the
--   connections.
-- - Acceptor: src/net/tcp/TcpAcceptor.cpp, src/net/udp/UdpAcceptor.cpp and the calls of
--   src/net/fd/Socket.cpp that they make: `listen_in_loop`, `stop_in_loop`, `handle_read_in_loop`.
-- - TcpServer: src/net/tcp/TcpServer.cpp: `start`, `stop` and `new_connection_in_loop`, over Server,
--   Acceptor and EventLoopCluster, with TcpConnection::close and the status that it looks at.
-- - UdpServer: src/net/udp/UdpServer.cpp: `recv_message_in_loop`, `check_expired_in_loop`; a datagram
--   comes from Acceptor through Buffer. UdpServer/Life has `start` and `stop`.
-- - UdpConnection: src/net/udp/UdpConnection.h, src/net/udp/UdpConnection.cpp: `send_in_loop`,
--   `handle_write_in_loop`, `close` and so on.
-- - TcpClient: src/net/tcp/TcpClient.cpp, src/net/Client.cpp: `connect`, `disconnect`,
--   `on_closed_in_connection`, with their functors.
-- - Logging: src/base/Logging.h, src/base/Logging.cpp: `log`, with Decimal for `convert`.
-- - AppendFile: src/base/FileUtils.h, src/base/FileUtils.cpp: `append`.
-- - UnpackHandler: src/net/handler/UnpackHandler.h, src/net/handler/UnpackHandler.cpp: `process`.
-- - Pipeline: src/net/Pipeline.h, src/net/Pipeline.cpp, src/net/Handler.h: `add_first`, `add_last`,
--   `process`; Pipeline/Unpacking has UnpackHandler as a handler.
--
-- The state of an object is a record that each operation takes and returns. A failed assertion, a
-- dangling or null pointer, an access out of bounds and LOG_FATAL are values of `Fault`; an operation
-- that can meet one returns a `Result`. What a system call answers is an argument, which the theorems
-- bound by what the call documents. The byte order of the machine is a parameter, `Endian`, whose laws
-- are those of endian.h.
--
-- Bounds and fuel. The loop of heapUp has the fuel position + 1, since the position is at least halved
-- at each step; that of heapDown has the heap's size + 1, since the position at least doubles. The
-- theorems on the queue say that the operations return, so the fuel is enough. runTimers has two more
-- than the last file descriptor of a timer, which is enough if no timer is repeated at a negative
-- interval; `convert` has one more than the value and AppendFile one more than the line's length, and
-- the theorems there say that it is enough. The list of polls that `start` is given is fuel too.
-- Sizes, times and file descriptors do not wrap, but the count of bytes of AppendFile does; integers on
-- the wire are numbers below 256 ^ width.
--
-- Not modelled: the conversion of addresses and the descriptor that a UDP server gives to its
-- connections; the calls of the system themselves, threads and locks (what other threads do is a
-- functor that the loop finds in its queue), the life of shared pointers, what the other parts log,
-- the examples, and src/third/ikcp.h and src/third/ikcp.cpp, which are a copy of another project's
-- library.
pub mod Common
pub mod Buffer
pub mod TimerQueue
pub mod Poller
pub mod TcpConnection
pub mod TcpConnector
pub mod EventLoop
pub mod AsyncLogger
pub mod ThreadPool
pub mod UnpackHandler
pub mod EventLoopCluster
pub mod UdpConnection
pub mod Server
pub mod UdpServer
pub mod Decimal
pub mod Logging
pub mod AppendFile
pub mod TcpClient
pub mod Acceptor
pub mod TcpServer
pub mod Pipeline
