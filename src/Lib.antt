-- ===== src/Lib.antt =====
-- A verification library for bipolar, a C++17 library for concurrency programming.
--
-- The program's parts and how they interact. bipolar/core has the vocabulary types: `Result`, which an
-- asynchronous operation returns, with a third state for "not yet", and `Option`. In bipolar/futures a
-- promise holds a continuation, a callable object that an executor calls again and again until its
-- result is no longer pending; the adaptors of internal/adaptor.hpp put continuations together; a
-- future is a promise or the result that it gave. The scheduler keeps the tasks of an executor: a queue
-- of those that can run, and a table of tickets under which tasks are suspended and later resumed. The
-- dispatcher of the single-threaded executor runs them; other threads schedule tasks and give back the
-- handles of suspended ones, and wake it when it waits.
-- bipolar/net has the addresses and the sockets, each of which owns a descriptor; bipolar/sync a spin lock, and bipolar/io the rings of io_uring.
--
-- Files and code:
--   Common            Boolean tests, lists, the ordered map that stands for std::map (OrderedMap),
--                     failing assertions (Checked), calls that throw or abort (Outcome), the
--                     arithmetic of ring positions (Rings), and texts with std::from_chars and
--                     std::to_chars (Chars)
--   Core/Result       bipolar/core/result.hpp; Laws and Equality below it for the proofs
--   Core/Option       bipolar/core/option.hpp; Laws and Order
--   Core/Function     bipolar/core/function.hpp; View (what a function stands for) and Lifetime (which
--                     objects it makes and destroys) are proofs
--   Core/FunctionRef  bipolar/core/function_ref.hpp; Aliasing for the proofs
--   Core/Hash         bipolar/core/hash.hpp; Bounds for the proof
--   Core/ScopeGuard   bipolar/core/scope_guard.hpp; Exits for the proof
--   Futures/Scheduler bipolar/futures/scheduler.hpp and scheduler.cpp; the other modules below it are
--                     proofs: Tickets (one ticket's record), Invariant and Preservation, Shutdown
--                     (take_all_tasks), Reachability (histories of calls), Ownership and Ledger (which
--                     tasks are where), Resumption, Once (at most one resumption), Lookup (what the executor needs of each call)
--   Futures/Executor  bipolar/futures/single_threaded_executor.cpp: each part of a method that holds the
--                     mutex. System is the step relation of the threads around it; Balance, Inv,
--                     Preserves, Resolution and Handles are the invariant, Safety what
--                     follows
--   Futures/SuspendedTask
--                     bipolar/futures/suspended_task.hpp; Ledger for the proof
--   Futures/PendingTask
--                     bipolar/futures/pending_task.hpp and bipolar/executors/inline_executor.hpp;
--                     Finished for the proof
--   Io/IoUring        bipolar/io/io_uring.hpp and io_uring.cpp, Sqe has the entries and Setup the
--                     constructors and destructors, with Mappings for the proof; Views, Filled, Queue,
--                     Submission, Completion and Prepared are the proofs, with the queues that the
--                     rings stand for
--   Futures/Promise   bipolar/futures/promise.hpp (call, take_continuation), the other operations and
--                     the functions that make promises are in Make; Future is
--                     bipolar/futures/future_inl.hpp, with States for the proofs; Adaptor is
--                     bipolar/futures/internal/adaptor.hpp; of the latter, Join has
--                     JoinVectorContinuation, JoinTuple has JoinContinuation, and Observe
--                     InspectContinuation and DiscardResultContinuation; Runs is the relation between
--                     a continuation and what it ends with, Chaining, Wrapping, Combinators, Handlers
--                     and Observers the proofs on it
--   Core/Byteorder    bipolar/core/byteorder.hpp; Laws for the proofs
--   Net/Storage       the unions of bipolar/net/ip_address.hpp as bytes of memory, with == and < of arrays
--   Net/Ipv4, Net/Ipv6, Net/IpAddress
--                     the three classes of bipolar/net/ip_address.hpp, with ip_address.cpp; the modules
--                     below them are proofs
--   Net/SocketAddress bipolar/net/socket_address.hpp and socket_address.cpp; Order, Parts and
--                     RoundTrip for the proofs
--   Net/Epoll         bipolar/net/epoll.cpp (poll), with Delivery for the proof; Control has the rest of
--                     epoll.hpp and epoll.cpp
--   Sync/SpinLock     bipolar/sync/spinlock.hpp; Exclusion for the proofs
--   Sync/SpinLockPool bipolar/sync/spinlock_pool.hpp
--   Net/Native        the native structures of addresses, in bipolar/net/ip_address.hpp,
--                     socket_address.hpp and internal/native_to_socket_address.hpp; RoundTrip
--   Net/Os            the system calls of the sockets; Descriptors is what they do to descriptors
--   Net/Socket        the members that have the same code in all classes of sockets of
--                     bipolar/net/tcp.hpp and udp.hpp; Ownership, Creation and Errors are proofs,
--                     History is a program that uses sockets and Epoll, Exclusive the proof on it
--   Net/Tcp, Net/Udp  bipolar/net/tcp.cpp (TcpStream, and TcpListener in Listener; Options for the
--                     proofs) and udp.cpp
--   Core/Examples, Futures/Examples, Io/Examples, Net/Examples, Sync/Examples concrete inputs
--
-- How state and operations correspond. A function has the name of the C++ function; the object comes
-- last among its arguments, and a function that changes the object returns it. The fields of records
-- are the members without the final underscore. Overloads for lvalues and rvalues are one function.
-- `PendingTask` is an optional task, since a moved-from one is empty; tasks are of any type. The
-- assertions of the scheduler are results `none`; elsewhere `Outcome` tells apart what is returned, what
-- is thrown, with its description, and a failed assertion. A promise's continuation is a state and a
-- function of state and context; the context stands for everything outside that a call may change.
-- What `SocketAddress::from_str` does when it leaves its buffer is undefined, a result `none`.
-- A method of std::map is the function of Common/OrderedMap on a list in the order of its keys.
--
-- Numbers. Reference counts (32 bits) and the task counter and the ticket numbers (64 bits) wrap in the
-- model as in the code. Theorems on histories state what bounds they need: a reference count below
-- 2^32 and a ticket number below 2^64. The positions of the rings are 32-bit numbers that wrap, and a
-- ring has 2^k entries, k at most 31. Only the loop of `get_completion_entry` has fuel, for its rounds:
-- two are enough, as is proved. Every other modelled loop is a structural recursion, and the loop of an
-- executor, or of threads, is a derivation of `Runs`, `Reach` or `Reachable`.
--
-- Code outside the repository. The system call `io_uring_enter` and the constants of the kernel's
-- header are a parameter, `Kernel`; `IsContract` is what the code relies on of the call. So are
-- `inet_pton` and `inet_ntop`, with `IsNotation`, `epoll_wait`, and the calls of the sockets, `Os`,
-- with `IsDescriptors`: which of them open and close descriptors, and `IsLinger`: what is read back of
-- `SO_LINGER`. The calls that set a ring up are `Calls`, with `IsShared`: the number of its entries. The mutex of the dispatcher makes
-- its critical sections atomic, and its condition variable may wake without a notification. The
-- handles of suspended tasks are counted there; what the operations of `SuspendedTask` call on a
-- resolver is listed.
--
-- Not modelled. Storage and object lifetime (but for the objects in a `Function`), weak memory orders,
-- callbacks of `Result` and `Option` with effects of their own, and `constexpr` and `noexcept`. The
-- register calls of the rings and the logger hold little but system calls and types.
mod Common
pub mod Core
pub mod Futures
pub mod Io
pub mod Net
pub mod Sync
