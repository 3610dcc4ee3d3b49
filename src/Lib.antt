-- ===== src/Lib.antt =====
-- Models of the example programs of the repository, and what is proved of them.
-- Each program stands alone, so each has a module of its own; most of them are small concurrent
-- systems: threads or processes that share memory under a lock of some kind.
--
-- The style of the models. A thread is a program counter (`Pc`), whose constructors are places in
-- the source, and its local variables. A step of a thread is one access to shared memory or one
-- call that can block, and nothing more; what is done with data that a mutex protects, while the
-- mutex is held, may be one step. The state of a system is a record; `step` carries out an
-- event (which thread goes next, what random() returns, which call fails or is interrupted), and
-- `run` (Base/Lists) carries out a schedule, a list of events. A thread that has to wait stays
-- where it is. A theorem over all schedules is a theorem over all interleavings. Memory is
-- sequentially consistent. Unsigned numbers that can get large wrap at
-- their width.
--
-- What the programs use of the C library and the system is modelled by its documented behaviour:
-- mutexes and condition variables of POSIX (with wakeups for no reason), semaphores, record locks,
-- signals that interrupt a blocked call. Where the outcome of a call is the environment's choice,
-- it is part of the event.
--
-- The files:
--   Base            shared names, tests, lists, runs of a step function
--   Queue           cond-variables/queue-simulation.c: `produce` and `consume` are the threads
--                   `producer` and `consumer`, `print` is the loop of `main`, and `configure` its argument
--   Race            the four programs of race/ whose two processes write two shared bytes
--                   (`examine` is the body of their loop): Race.Plain is race.c, Race.SysvSem is
--                   sem-fixed-race.c, Race.Fcntl is fcntl-fixed-race.c, and Race.PosixSem is
--                   posix-sem-fixed-race.c. `advance` is a step of the loop of `main`.
--   Counter         race/atomic-add.c: `configure` is the reading of the options, `count` the
--                   thread function, `expected` and `verdict` the check at the end of `main`
--   Barrier         pthreads/implement-barrier-fixed.c, the barrier with two waiting loops:
--                   `advance` is a step of the function `thread`
--   SingleBarrier   pthreads/implement-barrier.c, the barrier with one
--   TalkingHeads    semaphores/talking-heads.c: `talk` is the function of that name, `advance` a step
--                   of the loop of a child, `parent` the end of `main` in the parent
--   FileLocking     file-locking/fcntl-locking.c: `advance` is a step of the loop of a child in `main`,
--                   `dump_file` a step of the function of that name in the parent
--                   FileLocking/Options is the reading of the options, FileLocking/Group the processes
--                   when some of them end
--   UnnamedSem      semaphores/posix-unnamed-sem.c: `usher` is the loop body of the thread, `advance`
--                   and `refuse` the loop of `main`
--   Connect         select/non-blocking-connect.c: `init_hosts` is the first loop of `main`, `step` a
--                   round of the loop over select(), `late_hosts` the last loop
--   Atfork          pthreads/atfork.c: `main_step` is `main`, `forker_step` the thread `forker` with
--                   the handlers, `child_step` its copy in the child, `configure` the arguments
--   RwLock          pthreads/pthread-rwlock.c: `advance` is a step of `writer_thread` with `prop_set`,
--                   or of `reader_thread` with `prop_get`
--   Cat             read/cat.c: `do_cat` is the function of that name, `cat` the loop of `main` over the
--                   files
--   Servers         the loops over read() and write() of select/select.c (`select_loop`),
--                   select/connect-only.c, tcp/tcp-sink-server.c (`sink_server`),
--                   tcp/trivial-tcp-echo-server.c (`echo_server`) and read/simple-cat.c
--   Mutexes         mutexes/race.c and mutexes/race-fixed.c: `advance` is a step of `thread`
--   Mmap            mmap/aligned.c: `write_file` and `read_file` are the two halves of `main`, on a
--                   machine that traps at a load that is not aligned, or not;
--                   mmap/reverse.c: `reverse_file` is its loop on the mapped file
--   LockFile        file-locking/lock-unlock.c: `lock`, `unlock` and `lock_unlock`, its `main`; `worker` is
--                   the loop of file-locking/run.sh
--   Cancel          pthreads/pthread-setcanceltype.c: `mythread` is a step of the function of that name,
--                   `main_step` a step of `main`, `configure` its arguments
--   Stages          pthreads/pthread-barrier.c: `worker` is a step of the function of that name, with the
--                   barrier of the library in `barrier_wait`
--   Descriptors     read/redirect.c (`redirect`), read/redirect2.c (`redirect2`) and
--                   pipe/pipe-and-fork.c (`pipe_and_fork`), on tables of descriptors
--   Countdown       pipe/countdown.c: `main_step` is a step of `main`, `next` one of a child
--   Arguments       pthreads/correct-use-of-args.c and pthreads/wrong-use-of-arg.c: `main_step` is a
--                   step of `main`, `thread_step` one of `thread`
--   Datagrams       udp/udp-client.c (`client`) and udp/udp-server.c (`server`): their loops
--   Clients         tcp/connect.c (`connect`) and tcp/linger.c (`linger`): their loops
--   Sigwait         signals/sigwait.c: `parent_step` and `child_step` are steps of the two processes
--   Sigqueue        signals/sigqueue.c: likewise
--   Resolver        reentrant/gethostbyname.c: `main`; what names resolve to is a parameter
--   MutexTypes      mutexes/not-my-lock.c: `configure` is the reading of the options, `main_step` a
--                   step of `main` behind it, `thread_step` one of `thread`
--   PingPong        signals/ping-pong.c: `advance` is a step of either process
--   Waiting         wait/wait.c: `parent_step` is a round of the loop
--   EventLoop       signals/event-loop.c: `loop` is a step of the loop of `main`
--   Writer          select/write-select.c: `server_step` is a step of the loop; how much the system
--                   keeps of the connection is a parameter, and when it knows that the client is
--                   gone an event
--   Getopt          getopt/getopt.c (`main`) and getopt/getopt_long.c (`main_long`), behind getopt()
--   Unlink          unlink/unlink.c: `main`, on a small file system
--   Alarm           signals/alarm.c: `main_step` is a step of `main`, `handler` the handler
-- A module has its definitions in its own file, its theorems in child modules named for what they
-- prove, and its test runs and concrete instances of the theorems in a child module Tests.
--
-- Loops of `main` that count are recursions on the rounds left, and the endless loops of the threads
-- are runs over a schedule. Fuel is used twice: in Cat for the calls of read() on a file, one more
-- than it has bytes, and in Mmap for the rounds of reverse.c, as many as the file has bytes; the
-- theorems there are about the results, so there is enough of it.
--
-- Not modelled: diagnostic output, the set-up calls before the threads or processes start (a failure
-- there ends the program at once), sleeping times, the programs that only show what one call of the
-- system prints, and select/busy-wait.c, whose calls block or not by the open files that it is
-- started with.
pub mod Base
pub mod Queue
pub mod Race
pub mod Counter
pub mod Barrier
pub mod SingleBarrier
pub mod TalkingHeads
pub mod FileLocking
pub mod UnnamedSem
pub mod Connect
pub mod Atfork
pub mod RwLock
pub mod Cat
pub mod Servers
pub mod Mutexes
pub mod Mmap
pub mod LockFile
pub mod Cancel
pub mod Stages
pub mod Descriptors
pub mod Countdown
pub mod Arguments
pub mod Datagrams
pub mod Clients
pub mod Sigwait
pub mod Sigqueue
pub mod Resolver
pub mod MutexTypes
pub mod PingPong
pub mod Waiting
pub mod EventLoop
pub mod Writer
pub mod Getopt
pub mod Unlink
pub mod Alarm
