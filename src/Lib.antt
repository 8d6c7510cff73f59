-- ===== src/Lib.antt =====
-- The verified parts of cpp_code, a collection of small C++ programs with a shared utility library.
--
-- LogStruct: utils/log_struct. `LogStruct` has the object and its public methods (write, flush,
--   the destructor in two steps), `LogStruct/Worker` the writing thread's writeToFile with one step
--   for each access of shared state, and the interleavings of both as lists of actions. The
--   results of ::write and of the clock are given from outside.
-- Task: behaviortree_test/task/task.hpp. `Task/Status` has the enums and set_status' table,
--   `Task/Object` the object with its public methods and destructor, `Task/Waiting` the two waits
--   of its coroutine. The channels of boost are a parameter; what is taken of them is in
--   `Task/Waiting/Round` (a buffer of one message), and `Task/Slot` is such a channel. The calls that
--   other threads make while a coroutine is suspended are a schedule, a list of wakes. A pending
--   receive is not a state of its own: a command that comes while one is pending is in the channel
--   until the wake, and the theorems on a buffer of one have one command in each wake; that a second
--   is refused is said only of a channel on which no receive is pending.
-- Ota: behaviortree_test/026.ota_state. `Ota/Coroutine` is OtaTask::run_coroutine over the waits of
--   the task, `Ota/Cancel` and `Ota/Race` are about a cancel,
--   `Ota/Node` is the behaviour tree node that makes, starts, feeds and halts the task.
--   The coroutine's loop has one unit of fuel a turn; one more than the wakes of the schedule is
--   enough, since every turn that does not return uses a wake.
-- Reducer: cpp_test/stand_cpp/018.check_state. `Reducer` is StateReducer, `Reducer/Window` the rules
--   of the file's comment as a specification over the frames in the window.
-- FileSystem: utils/filesystem_wrapper. `FileSystem/Atomic` is AtomicFileWriter and atomicWriteFile
--   over the answers of the system calls, `FileSystem/Lines` reading, splitting and trimming,
--   `FileSystem/Stubs` the functions that return a constant.
-- Chunk: cpp_test/iceoryx/002.chunk_head. Layout arithmetic on 64-bit words, and the header's bytes in
--   memory (`Chunk/Bytes`).
-- Relative: cpp_test/iceoryx/003.relative_pointer. `Relative` is the registry and RelativePointer,
--   `Relative/Roudi` the segments of roudi and how clients read them, `Relative/Sender` the sender's
--   checks, `Relative/Protocol` the steps of sender and receiver on the control segment.
-- Pool: utils/thread_pool. `Pool` is ThreadPool, with boost's io_context as a queue of jobs that the
--   pool's threads run until it is stopped.
--   `Pool/Coroutine` has post_coro beside post: how often a coroutine must be taken up is given.
-- TaskPool: behaviortree_test/task/thread_pool.hpp. The task library's ThreadPool, with a queue for
--   functions, one for coroutines, and the futures.
-- WaitSet: cpp_test/iceoryx/007.inproc_waitset. `WaitSet` is MiniWaitSet with fireEvent, step by step,
--   over a semaphore that is a parameter; `WaitSet/Listener` is MiniListener, whose thread waits on
--   such a set and calls back.
-- TestTask: behaviortree_test/024.test_task and 025.test_user_data, a task that end_task ends, over
--   the waits of `Task/Waiting`; one unit of fuel is a turn of its loop.
-- ErrorReporting: cpp_test/iceoryx/005.error_reporting. DispatchHandler with the registration of
--   modules, over the slot of the current handler, which is a parameter.
-- UnixSocket: cpp_test/iceoryx/016.unix_domain_socket. The server, the client and the retries, over
--   what the sockets answer; the fifty attempts are the loop's bound.
-- AnyType: cpp_test/stand_cpp/003.any_test. The held text or value and the conversion of positions.
-- SpscDemo: cpp_test/iceoryx/009.concurrent. The producer and the consumer of demo_spsc_fifo, over a
--   queue that is a parameter. Memory is not modelled beyond the queue and the threads' variables.
-- ObjectPool: cpp_test/iceoryx/001.cmake. The object pool of demo_mpmc_loffli and its workers, over a
--   free list that is a parameter; nine units of fuel are enough for the loop that counts.
-- PthreadPlatform: cpp_test/iceoryx/004.pthread_platform. The threads that count under a normal mutex,
--   which is a parameter, in all interleavings of their accesses, and `PthreadPlatform/Trylock` the
--   two threads of demo_trylock.
-- UserTrigger: cpp_test/iceoryx/006.user_trigger. The waiting loops and workers of the first two
--   demonstrations, over a wait set that is a parameter.
-- UdpClient: boost_test/asio/010.udp_client. The session, its requests and their counter, for all
--   interleavings of what runs between two suspensions.
-- StopTokenPool: cpp_test/stand_cpp/011.stop_token. The pool of that program, with the race between
--   add_task and stop; the mutex goes to any of the calls that wait for it.
-- Constexpr: cpp_test/stand_cpp/016.if_constexpr. Which types `test` takes and what it does.
-- Policy: cpp_test/stand_cpp/014.template_policy. `Policy/Sorter` is Sorter with its policies (the
--   outer loop has one unit of fuel for each element, as the loop's bound has), `Policy/Host` is
--   Repository, `Policy/Plugins` FindPolicy and PluginHost.
-- Prelude: names, lists, integers and bits that the parts share. Each part has a module `Tests`.
--
-- Integers are natural numbers with the wrap-around of 64-bit words written out where the code
-- computes with unsigned words; clock values and the reducer's states are integers without bounds.
-- Memory is sequentially consistent. Not modelled: printing and logging, a crash of the machine,
-- the vendored libraries, and the demonstration programs that only call a library and print.
pub mod AnyType
pub mod Chunk
pub mod Constexpr
pub mod ErrorReporting
pub mod FileSystem
pub mod LogStruct
pub mod ObjectPool
pub mod Ota
pub mod Policy
pub mod Pool
pub mod Prelude
pub mod PthreadPlatform
pub mod Reducer
pub mod Relative
pub mod SpscDemo
pub mod StopTokenPool
pub mod Task
pub mod TaskPool
pub mod TestTask
pub mod UdpClient
pub mod UnixSocket
pub mod UserTrigger
pub mod WaitSet
