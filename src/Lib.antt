-- ===== src/Lib.antt =====
-- mycoroutine: fibers on a pool of threads, with timers, I/O events and synchronisation.
--
-- The parts, and the files that model them. Paths are those of the repository.
--   * include/mycoroutine/scheduler.h, src/scheduler.cpp: `Scheduler`, the queue of tasks that
--     workers take from under five policies. Scheduler.antt has the state and the comparisons,
--     Scheduler/Queue `scheduleEx` and `pickNextTaskLocked`, Scheduler/Run the locked blocks of
--     `run` and `stopping`, Scheduler/Workers the workers as a step relation, Scheduler/Loop the
--     loop of `run` with `idle`, Scheduler/Lifecycle the constructor, `start` and `stop`.
--   * include/mycoroutine/timer.h, src/timer.cpp: `Timer` and `TimerManager`. Timer.antt has the
--     state and the ordered set, Timer/Manager the methods, Timer/Expire `listExpiredCb`.
--   * include/mycoroutine/iomanager.h, src/iomanager.cpp: `IOManager`, a scheduler and a timer
--     manager that wait on epoll. IoManager.antt has the state, IoManager/Contexts `FdContext`,
--     `contextResize` and `tickle`, IoManager/Operations `addEvent`, `delEvent`, `cancelEvent` and
--     `cancelAll`, IoManager/Idle a round of `idle`, and `stopping`. It holds a `Scheduler` and a
--     `TimerManager`, and calls their definitions.
--   * include/mycoroutine/sync.h: `CoMutex` is Sync/Mutex, `WaitGroup` is Sync/WaitGroup, `Channel`
--     is Sync/Channel, on the waiters of Sync.antt. Their locked blocks are functions; the fibers
--     in their methods are a step relation, one locked block or one atomic access to a step.
--   * include/mycoroutine/coroutine_pool.h, src/coroutine_pool.cpp: `CoroutinePool` is Pool.antt.
--   * include/mycoroutine/fd_manager.h, src/fd_manager.cpp: `FdCtx` and `FdManager` are
--     FdManager.antt; FdManager/Spec is the map that the manager is to be.
--   * include/mycoroutine/hook.h, src/hook.cpp: the system calls that are replaced. Hook.antt has
--     `do_io` up to its `yield` and from there on, and the callback of its timer; Hook/Connect
--     `connect_with_timeout`, Hook/Sleep `sleep`, `usleep` and `nanosleep`, Hook/Control `fcntl`,
--     `ioctl`, `setsockopt`, `socket`, `accept` and `close`. A `World` holds an `FdManager` and an
--     `IoManager`, and the hooks call their definitions: `addEvent`, `cancelEvent`, `cancelAll`,
--     `get`, `del` and the timers.
--   * include/mycoroutine/fiber.h, src/fiber.cpp: Fiber.antt has the states of a fiber,
--     Fiber/Transfer `reset`, `resume`, `call`, `yield` and the end of `MainFunc`, up to the moment
--     when control passes; Fiber/Return the switches of one thread as a step relation.
--     Fiber/SharedStack has the stacks that fibers share and their snapshots, Fiber/Prepare
--     `prepareSharedStack`, which `resume` and `call` begin with for such a fiber.
--   * include/mycoroutine/thread.h, src/thread.cpp: `Semaphore` and `Thread` are Thread.antt;
--     Thread/Start has the constructor and `run` on two threads as a step relation.
--
-- How the code is read. A shared object is an address, and its fields a function of addresses; a
-- callback and a fiber are numbers, and `none` is the null pointer or the empty function. What
-- happens under a lock is one function. Where the code gives a lock up in the middle of a method,
-- as `Timer::reset`, `addEvent` and `FdManager::get` do, each locked part has its own definition,
-- and the method composes them. The clock, the answers of `epoll_ctl` and `fstat` and the reports
-- of `epoll_wait` are arguments, and so is the list of the answers of an original system call. A
-- hooked call that yields is two definitions, and other threads may change the state in between. A
-- failed assertion, an exception and a read out of bounds are `none`. Machine integers wrap at
-- their width where the code counts: sequence numbers, levels, pending events. Time points are
-- taken not to overflow.
--
-- Fuel. The loop of `listExpiredCb` runs on fuel: each round takes one timer out or moves it past
-- now, so that one round more than there are timers is enough, but for the case of a clock that
-- went back. So does the loop of `run`, which does not end before the scheduler is stopped: then
-- two rounds more than there are tasks are enough.
--
-- Not modelled: the registers of fibers, the constructors of `Fiber` and the main fiber that
-- `Fiber::GetThis` makes, the loading of the original system calls, the thread-local pointer of the
-- scheduler, and printing. What a task does while it runs and the ids of new threads are
-- parameters; the pool that `stop` clears is not in its state.
pub mod Prelude
pub mod Fiber
pub mod Scheduler
pub mod Timer
pub mod Sync
pub mod IoManager
pub mod Pool
pub mod FdManager
pub mod Hook
pub mod Thread
