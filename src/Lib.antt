-- ===== src/Lib.antt =====
-- TcpNetLibrary: a reactor network library with an HTTP server.
--
-- An event loop polls the descriptors of its channels, runs the callbacks of those that are ready,
-- then the functors that other threads have queued. A server accepts connections and gives each to a
-- loop of its pool. A connection moves bytes between its socket and two buffers, and hands what
-- arrives to the user; the HTTP server is such a user, with a parser for each connection.
--
-- Parts, by file (paths from the root of the repository):
-- - Buffer and Buffer/: buffer.h, buffer.cpp. The vector is a list of bytes, and a pointer into it an
--   offset; resizing past the largest vector is a length error. `size_t` arithmetic wraps at 2^64.
-- - Http/Text, Http/Map: what the C++ library does to strings and to the map of headers.
-- - Http/Request, Http/Context and Http/Context/: http/httpRequest.* and http/httpContext.*. The loop
--   of `parseRequest` runs on fuel, one more than the readable bytes: each pass but the last takes at
--   least the two bytes of a line's end. Http/Context/Spec describes the parser over plain bytes.
-- - Http/Response, Http/Server: http/httpResponse.* and http/httpServer.*. The user's callback is a
--   parameter.
-- - Reactor/Channel, Reactor/Poller: channel.*, poller.*. A `Channel*` is a number, and the objects
--   stand in a store; the answer of `poll` is an argument.
-- - Time: timeStamp.*, and the delay of timerQueue.cpp. A time is not negative; what `gmtime_r` and
--   `gettimeofday` answer is an argument.
-- - Logging and Logging/: logging.*. The line is built in an array of 1024 bytes.
-- - Net/Address, Net/Socket, Net/Acceptor: netAddress.*, socket.*, acceptor.*, with the answers of the
--   system calls as arguments.
-- - Reactor/Epoller: epoller.*, with `epoll_ctl` as a parameter, which may refuse: what the manual says
--   of calls that succeed, and that a watched descriptor can be deleted.
-- - Reactor/Loop: the queue of functors of eventLoop.*, with the steps of several threads,
--   from the making of the loop on.
-- - Reactor/EventLoop: `loop` of eventLoop.* with the poller, the callbacks of the channels and the
--   functors, which are parameters. The answers of `poll` come as a list, one for each turn, so
--   `loop` is only followed as far as they reach; when it ends is shown with the threads of
--   Reactor/LoopThread.
-- - Reactor/LoopThread: eventLoopThread.*, with `loop` and `quit` of eventLoop.cpp, as steps of the owner
--   and of the started thread.
-- - Timers and Timers/: timer.*, timerId.*, timerQueue.*, and the calls of eventLoop.* that pass on to
--   them. A `std::set` is a sorted list, a `Timer*` an address.
-- - Net/Connection: tcpConnection.*. What `read` and `write` answer is an argument, and what a handler
--   asks of others is a list of effects in order.
-- - Net/Connector: connector.*, the attempts of a client with their delays.
-- - Net/Pool: eventLoopThreadPool.*, the loops in turn. Net/Server: tcpServer.*; Net/Server/Session puts
--   the server and one of its connections together, as steps of their loops and of users;
--   Net/Server/Serving follows a server from its constructor on.
-- - Other/Stock: other/StockFactory.*, a cache of weak pointers. Other/Observer: other/Observable.*.
-- - Base: results and faults, words, lists over the native numbers.
-- - Tests: each theorem at concrete values.
--
-- An `assert` that fails, an exception, a call of `log_fatal` and an access out of range are faults
-- (Base/Results): the build keeps the assertions. The masks of events are those of <poll.h> on Linux.
--
-- Not modelled: the system calls themselves, the arithmetic of doubles, the messages that
-- the library logs, the setters of the callbacks of a connection and of the TCP server, the programs,
-- the tests, and what is left of other/. `TcpClient` is empty in the source.
pub mod Base
pub mod Buffer
pub mod Http
pub mod Reactor
pub mod Net
pub mod Time
pub mod Logging
pub mod Timers
pub mod Other
pub mod Tests
