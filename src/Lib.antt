-- ===== src/Lib.antt =====
-- Models of sylar, a C++ server framework of fibers, timers, an epoll scheduler and HTTP.
--
-- ByteArray.antt models sylar/bytearray.h, sylar/bytearray.cc and sylar/endian.h: a serialisation
-- buffer in a chain of blocks of one size. The record ByteArray has the source's members; the chain
-- is the list of the blocks' bytes, m_cur the index of a block or none for NULL. An Outcome is what a
-- call does: it returns, throws std::out_of_range, goes through a null pointer, or overruns a local
-- array. Its children state the loops over the blocks (Loops), the invariant (Chain), the file that
-- an array is to its callers (View), and write, read and setPosition against that file (Write, Read,
-- Position, Ahead). ByteArray/Codec.antt has the integers, varints, zigzag codes and strings.
--
-- Timer.antt models sylar/timer.h and sylar/timer.cc: timers at addresses of a store, and the
-- manager's std::set as the list of addresses in the comparator's order. Its children prove the order
-- (Order), the set (Set), the operations (Manager) and the expiry of timers (Expire, Listing).
--
-- Servlet.antt models sylar/http/servlet.h and sylar/http/servlet.cc: the tables of exact paths and of
-- glob patterns, with fnmatch as an argument. Servlet/Tables.antt has lookup, assignment and erasure,
-- Servlet/Dispatch.antt the operations.
--
-- IoManager.antt models sylar/iomanager.h and sylar/iomanager.cc: the vector of descriptor contexts, the
-- event operations, and the handling of a report of epoll_wait. epoll_ctl is an argument, which sees the
-- calls before; a failed assertion is none. IoManager/Slot.antt reads a context as its registrations,
-- IoManager/Table.antt the vector as a table of them, and IoManager/Events.antt is about adding, deleting
-- and cancelling events in that table, IoManager/Report.antt about reports of epoll_wait, and
-- IoManager/CancelAll.antt about cancelAll.
--
-- Fiber.antt models sylar/fiber.h and sylar/fiber.cc: the states of fibers, the thread's current fiber,
-- and the switches between contexts, where a failed assertion is none. Scheduler.antt models the queue of
-- sylar/scheduler.h and sylar/scheduler.cc and how run takes a task from it; it reads the states of
-- fibers, and Scheduler/Queue.antt describes the choice.
--
-- Util.antt models the string helpers of sylar/util.h and sylar/util.cpp; Util/Url.antt is about UrlEncode
-- and UrlDecode. Http.antt models the requests of sylar/http/http.h and sylar/http/http.cc, their headers,
-- parameters and cookies, with the names of methods and states, which the http-parser library has, as
-- arguments; Http/Lookup.antt is about the maps, Http/Params.antt about the parameters of a query.
-- PARSE_PARAM runs on fuel, one round for each character and one more, of which it needs one for each
-- pair and one more.
--
-- Stream.antt models the loops of sylar/stream.h and sylar/stream.cc, over what read and write of a stream
-- answer; Stream/Fixed.antt is about what they transfer.
--
-- Log.antt models the formatter of sylar/log.h and sylar/log.cpp: its pattern is read character by character
-- by a machine of four modes, and what strftime writes is an argument. Log/Pieces.antt reads a printed
-- pattern and Log/Pattern.antt formats an event with it. Log/Logger.antt has the appenders, loggers and
-- their manager, and Log/Listener.antt the listener of LogIniter, which applies a change of the log
-- configuration; its children are about the appenders of a definition (Appenders), the loop over the
-- new value (Apply) and the whole change (Change).
--
-- FdManager.antt models sylar/fd_manager.h and sylar/fd_manager.cc, the contexts of descriptors in a vector;
-- FdManager/Table.antt reads the vector as a table.
--
-- Pool.antt models HttpConnectionPool of sylar/http/http_connection.h and
-- sylar/http/http_connection.cc; Pool/Count.antt has its calls as steps and is about its counter.
-- Pool/Request.antt models doRequest, over what sending and receiving answer.
--
-- Config.antt models sylar/config.h and sylar/config.cc: variables with their listeners, the table of
-- variables and the loading of YAML documents, whose nodes are data; operator==, LexicalCast and whether
-- a listener throws are arguments. Config/Value.antt is about setValue, Config/Load.antt about LoadFromYaml.
--
-- Hook.antt models sylar/hook.cc over the answers of the system's calls, of addEvent and of waits, one
-- after the other; it reads the contexts of FdManager. A call gives its result and a trace of what it did to
-- the system, to timers and events. Its children are about the trace (Trace), the result against a
-- blocking call (Blocking), and the flags of fcntl (Flags).
--
-- Receive.antt models how sylar/http/http_session.cc and sylar/http/http_connection.cc read a message and
-- hand it to the parsers of sylar/http/http_parser.cc, with the http-parser library as an argument and the
-- answers of read as in Stream.antt; Receive/Feed.antt is about the bytes that the parser gets.
--
-- Env.antt models sylar/env.h and sylar/env.cc, the command line and paths; Env/Args.antt reads a printed
-- command line.
--
-- Address.antt models sylar/address.h and sylar/address.cc: the masks and prefixes of IPv4 and IPv6.
-- Address/Print.antt has the texts of addresses and the paths of Unix addresses, Address/Order.antt the
-- comparisons, Address/Host.antt how Lookup splits a host. Address/Swap.antt and Address/Mask.antt compute
-- the masks under byteswap, Address/Ones.antt is about CountBytes, Address/Print/Short.antt about the short
-- texts of IPv6 and Address/Print/Path.antt about paths. What a stream prints of a number is an argument.
--
-- Uri.antt models sylar/uri.h and sylar/uri.cc over the fields that the http-parser library finds;
-- Uri/Port.antt is about the default ports.
--
-- Base.antt holds what they share: tests, lists, bitwise operations, division.
--
-- Integers are native numbers. Wrap-around is written out (% 2 ^ w) in the deadlines of timers, the
-- integers and varints of ByteArray, the counters of the pool, the wait of epoll_wait, the timeouts
-- and sleeps of Hook, the int that readFixSize and writeFixSize return, and the keys of listeners;
-- a mask of addresses that int cannot hold is undefined. The count of pending events wraps
-- downwards only, since it is at most twice the number of contexts. Sizes and positions of an array
-- are taken to stay below 2 ^ 64, and so are seconds times 1000 where a timespec is read. Loops
-- recur on the blocks, on the rounds of a counted loop, or on the places of the array they fill.
-- Two loops run on fuel: CountBytes gets one round more than its value has bits
-- (Address/Ones.antt), and the digits of a printed number twenty, enough below 2 ^ 64
-- (Log/Decimal.antt). The clock and the addresses of new objects are arguments. Locks are not
-- modelled: each operation of the timer manager holds its lock from its first read of the set to
-- its last write, and an event operation the lock of its descriptor's context from its first test
-- of the events on; the vector of contexts is taken not to change in between. The bytes of a fresh
-- block are 0, where the source leaves them open, and allocation succeeds.
--
-- Descriptors are not negative. Not modelled: files, the const read at a position, the
-- iovec lists, condition timers, the numbers and the count of fibers, the threads that a scheduler
-- starts, and the components of the framework that are not named above.
pub mod Base
pub mod ByteArray
pub mod Timer
pub mod Servlet
pub mod Fiber
pub mod Scheduler
pub mod IoManager
pub mod Util
pub mod Http
pub mod Stream
pub mod Log
pub mod Pool
pub mod FdManager
pub mod Config
pub mod Hook
pub mod Receive
pub mod Env
pub mod Address
pub mod Uri
