-- ===== src/Lib.antt =====
-- libcoro: coroutine synchronisation primitives for C++20 (include/coro and src).
--
-- A coroutine that has to wait links an awaiter object, which lives in its own frame, into a list that
-- the primitive keeps in an atomic word, and suspends; whoever makes the condition true takes awaiters
-- from the list and resumes their coroutines. The lock-free parts are the list itself
-- (include/coro/detail/awaiter_list.hpp), the mutex (include/coro/mutex.hpp, src/mutex.cpp) and the
-- event (include/coro/event.hpp, src/event.cpp). The latch and the task group count down to an event,
-- when_any waits for one, and when_all counts down to the coroutine itself. The thread pool runs
-- coroutines from a queue under a std::mutex.
-- The scheduler's event loop resumes coroutines that wait for a descriptor or for a time, by the events
-- of epoll and of a timer, and the tcp client reads and writes over it.
-- The ring buffer, the queue, the semaphore and the shared mutex hold a coro::mutex around every
-- access to their state.
--
-- How it is modelled. A primitive's state is a record or a data type with the fields of the class; an
-- operation is a function from the state to the state and to what the caller learns (a result, the
-- coroutines that it resumes). Coroutines, addresses and elements are numbers or of a type parameter.
-- A System record adds the callers and a history of what they were given; a list of calls or moves is
-- one interleaving, and `run` folds `step` over it, so that a theorem about all lists is one about all
-- schedules. Memory is sequentially consistent.
--
-- Two granularities.
--   - Mutex follows `m_state` and each `m_next` access by access, with the loops of await_suspend,
--     unlock and awaiter_list_pop: a turn is one load, store or compare_exchange of one operation, and
--     a weak exchange may fail spuriously on any turn. No fuel is needed, since each turn is one step.
--   - In the primitives that hold a coro::mutex, a step is one critical section. A wait for that mutex
--     does not appear as a step, since it changes nothing of theirs.
--   - Elsewhere an exchange loop is the one change that it makes when its exchange succeeds: its
--     earlier turns change nothing shared.
--
-- Files, each with child modules for its proofs and a child Tests with runs at concrete inputs:
--   - Base: names shared by all; lists measured by native numbers; std::atomic arithmetic modulo
--     2 ^ 64; signed 64-bit integers as bit patterns (Base/Int64).
--   - AwaiterList: include/coro/detail/awaiter_list.hpp on a heap of `m_next` fields. The reversing
--     loop has fuel, one more than the length of the list.
--   - Mutex: mutex::try_lock, lock_operation_base::await_ready and await_suspend, mutex::unlock.
--     Mutex/Chain is the list in `m_state`; Mutex/Invariant says what each operation knows in each
--     phase; Mutex/Steps and Mutex/Advance preserve it. Mutex/ScopedLock has the guards.
--   - Event: event::set, event::awaiter::await_suspend, event::reset.
--   - Latch: latch, whose `m_count` is an int64_t.
--   - TaskGroup: task_group::start and count_down, cut between `m_on_empty_event` and `m_size`.
--   - Semaphore: semaphore and acquire_operation, for any max_value. `m_counter` is a std::ptrdiff_t.
--   - SharedMutex: shared_mutex and shared_lock_operation. SharedMutex/Shape says which holders and
--     which waiters go with each state.
--   - RingBuffer: include/coro/ring_buffer.hpp, for any capacity and element type. The two loops that
--     resume waiters after a call are steps of their own, so that anything may come between their
--     turns. RingBuffer/Slots and Contents relate the array to the sequence of elements, and
--     RingBuffer/Order the sequence to what was produced.
--   - Queue: include/coro/queue.hpp, for any element type.
--   - ThreadPool: include/coro/thread_pool.hpp and src/thread_pool.cpp, access by access: the calls of
--     schedule, resume, spawn_detached and shutdown, and the workers' two loops in executor.
--   - WhenAll: detail::when_all_latch of include/coro/when_all.hpp, access by access.
--   - WhenAny: what the tasks of one when_any share (include/coro/when_any.hpp), access by access.
--   - ConditionVariable: include/coro/condition_variable.hpp and src/condition_variable.cpp, each
--     notification as one function of the protected state.
--   - Poll: include/coro/poll.hpp.
--   - IoNotifier: src/detail/io_notifier_epoll.cpp. epoll_ctl is a parameter;
--     EpollLaws says what is relied on of it.
--   - Scheduler: scheduler::poll, yield_for, yield_until, add_timer_token, remove_timer_token and one
--     round of the event loop (process_events_execute) over a list of recent events, with what
--     io_notifier_epoll::next_events adds to it. The events of a round, and each reading of the clock,
--     are arguments.
--   - Net/IoStatus: include/coro/net/io_status.hpp and src/net/io_status.cpp.
--   - Net/TcpClient: include/coro/net/tcp/client.hpp, reading and writing. The calls of the kernel, of
--     scheduler::poll and of the clock are a record of functions; Net/TcpClient/Wire says what the
--     loops rely on of them.
--   - Net/UdpPeer: include/coro/net/udp/peer.hpp, in the same way.
--   - Net/TcpConnect: client::connect (src/net/tcp/client.cpp) and server::accept
--     (include/coro/net/tcp/server.hpp).
--   - Net/IpAddress: the bytes of an address (include/coro/net/ip_address.hpp).
--   - Net/Socket: the descriptors that sockets own (include/coro/net/socket.hpp, src/net/socket.cpp).
--   - Scheduler/Schedule: schedule_operation::await_suspend and process_scheduled_execute_inline,
--     access by access. The pipe is the number of ints in it.
--   - Task: include/coro/task.hpp and include/coro/sync_wait.hpp, as a machine over coroutine frames
--     whose bodies await tasks; one step is what runs between two suspensions. Its reference is the
--     evaluation of the same body with a call in place of each co_await.
--   - Generator: include/coro/generator.hpp in a range-for loop. The bodies of tasks and of
--     generators stand for what the compiler makes of the user's coroutines.
--
-- Bounds. Counters of the source are std::size_t or uint64_t and wrap in the model as they do there;
-- where a counter counts tasks, theorems speak of fewer than 2 ^ 64 calls. The slots of the ring buffer
-- are counted modulo 2 ^ 64 and then modulo the capacity, and RingBuffer/Wrap is about what that does;
-- the theorems on the ring buffer's deliveries are about runs in which no counter reaches 2 ^ 64.
-- The loops of read_exact and write_all have fuel, one more than the number of bytes. The fuel of
-- sync_wait is the number of steps that the threads have made, and that of a range-for loop is above
-- the number of values by two.
--
-- Not modelled: coroutine frames and their lifetimes other than in Task, memory orders weaker than
-- sequential consistency, exceptions from an element's move, threads and std::condition_variable, the
-- scheduler's size and its shutdown, the interleavings of a condition_variable's notifications and its
-- timed waits, tasks that delete themselves, and the rest of the network (TLS and DNS), which
-- is mostly system calls and vendor libraries (OpenSSL, c-ares). include/coro/detail/tl_expected.hpp is a copy of a third-party
-- library: of it only an expected's value or error is used here, a data type of the component's own.
pub mod Base
pub mod AwaiterList
pub mod Mutex
pub mod Event
pub mod Latch
pub mod Semaphore
pub mod SharedMutex
pub mod RingBuffer
pub mod Queue
pub mod ConditionVariable
pub mod Generator
pub mod IoNotifier
pub mod Net
pub mod Poll
pub mod Scheduler
pub mod Task
pub mod TaskGroup
pub mod ThreadPool
pub mod WhenAll
pub mod WhenAny
