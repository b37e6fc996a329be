-- ===== src/Lib.antt =====
-- TinyOS (tinyos3-master), the kernel of a teaching operating system: processes and threads over a
-- simulated machine, pipes, terminals and sockets behind file identifiers.
--
-- The parts, and the files that model them. Paths are from the repository's root.
--   tinyos3-master/util.h, the rings of `rlnode`: Rlist. Memory is a record of three maps, one for
--     each field of the struct, and an address is a number. Rlist/Links says what a list is in it.
--   tinyos3-master/kernel_sched.c and kernel_sched.h: Sched. The thread blocks, the five queues, the
--     timeout list and the counters are one record. Here an intrusive list is the list of the addresses
--     in it, in order; `remove` takes the place of `rlist_remove`, which needs no list. Sched/Queues
--     and Sched/Timeouts say when the lists agree with the thread blocks, Sched/Wake covers the expired
--     timeouts, Sched/Switch the selection, Sched/Yield and Sched/Gain the two halves of a switch.
--   tinyos3-master/kernel_cc.c: Cond, the condition variables, with the scheduler in their state, and
--     KernelLock, the semaphore that is the kernel lock. A call that sleeps is cut at its sleep.
--     KernelLock/Exclusion has the runs of the lock, by any threads in any order.
--   tinyos3-master/kernel_pipe.c and kernel_pipe.h: Pipe. A call stops at `kernel_wait`, so it is cut
--     there: `pipe_write` is the call up to the wait, `write_resume` the part that runs again when the
--     thread wakes up. Pipe/Fifo is the abstract queue, Pipe/Ring relates the buffer to its bytes, and
--     Pipe/History has the sequences of calls by any threads. Pipe/Open is `sys_Pipe`, over Streams.
--   tinyos3-master/kernel_dev.c: Devices, the device table and the null device, and Devices/Serial,
--     `serial_read` over a BIOS that is a parameter.
--   tinyos3-master/kernel_streams.c and kernel_streams.h: Streams. The file table, the free list of
--     blocks, the file table of the current process and the stream objects are one record. The
--     operations of a stream are the interface `Driver`; a driver that waits is given the whole state,
--     since other threads run in between. Streams/Refs says when the reference counters are right.
--   tinyos3-master/kernel_proc.c and kernel_proc.h: Proc, the process table, with Proc/Exec, `sys_Exec`,
--     Proc/Wait, `sys_WaitChild`, Proc/Exit, `sys_Exit`, and Proc/Info, the information stream. A
--     `PCB *` is the index of the block, which is the pid. Proc/Forest says when the free list, the
--     states, the parents and the lists of children agree. The state has the streams and the scheduler
--     in it. A call that sleeps is cut at its sleep, as in Pipe. A read of the information stream that
--     copies arguments from NULL, or of a length below 0, has no result.
--   tinyos3-master/kernel_threads.c: Proc/Threads, the joins and detaches, Proc/Exec, the new threads,
--     and Proc/Exit, `sys_ThreadExit`. Proc/Threads/Safe has the runs of the threads of a process.
--   tinyos3-master/kernel_socket.c and kernel_socket.h: Socket, with Socket/Connect, `sys_Connect` and
--     `sys_Accept`, and Socket/Transfer, the operations of the stream and `sys_ShutDown`. The blocks are
--     maps from addresses; `none` as the result of a call means that the code follows a pointer that
--     leads to no such block, or an index behind the port map. A call that sleeps is cut at its sleep.
--     Socket/Accept and Socket/Join cover the connection that `sys_Accept` makes, Socket/Stream the
--     sequences of calls on two connected sockets, Socket/Shutdown their ends, Socket/Ports the ports.
--   tinyos3-master/util.h, the argument vectors: Argv; with Argv/Program, `Execute` and `ParseProcInfo` of
--     tinyos3-master/tinyoslib.c over them.
--   tinyos3-master/kernel_cc.c, `Mutex_Lock` and `Mutex_Unlock`: Mutex, one atomic operation a step.
--   tinyos3-master/tinyoslib.c, `BarrierSync`: Barrier. tinyos3-master/symposium.c and symposium.h, the
--     dining philosophers: Symposium. Both are monitors over a mutex and condition variables: a section
--     under the mutex is one step, and the steps of the threads come in any order. There a wait ends by
--     a signal, as Cond has it.
-- The kernel runs one thread at a time, under its lock, between two waits, and the scheduler under its
-- spinlock, so each function is one atomic step on its state.
--
-- Numbers. The `unsigned int` counters of references, of threads, of sockets and of barriers go round at
-- 2 ^ 32, and wakeup times at 2 ^ 64, as written in the operations. The `int` results are the type ℤ of Prelude/Int. The other
-- numbers count items of arrays and lists of bounded size, and do not go round.
--
-- Fuel. The walks of `rlist_len` and `rlist_find`, the loop that wakes up sleepers and that of
-- `Cond_Broadcast` run on fuel; one step for each item of the list and one more is enough. The loop of
-- `sys_Exit` runs on fuel too, one step for each process and one more, and so does `argvunpack`, with more
-- steps than the buffer has bytes.
--
-- Arguments stand for what the hardware gives: the clock, the time that was left on the timer, the number
-- of serial ports, the content of memory that `xmalloc` returns, the addresses of new threads and blocks.
--
-- Not modelled: the start of a thread, which runs a user program; `serial_write`, which is planned;
-- machine contexts, interrupts and timers, and the BIOS, which simulate hardware; the standard streams
-- of tinyoslib.c, the shell, the terminals and the tests.
pub mod Prelude
pub mod Rlist
pub mod Sched
pub mod Cond
pub mod KernelLock
pub mod Pipe
pub mod Devices
pub mod Streams
pub mod Argv
pub mod Proc
pub mod Barrier
pub mod Mutex
pub mod Socket
pub mod Symposium
