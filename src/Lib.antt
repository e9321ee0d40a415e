-- ===== src/Lib.antt =====
-- piOS, an operating system for a 16-bit processor: a model of its kernel and its libc.
--
-- The parts and their files:
-- - Common: names of the standard library, Boolean tests, lists, integers and 16-bit words.
-- - Libk.Ringbuff: kernel/libk/ringbuff.c, the ring of bytes.
-- - Libk.Kmalloc: kernel/libk/kmalloc.c, the heap of the kernel.
-- - Libk.LinkedList: kernel/libk/list.c, the lists that the kernel keeps its objects on.
-- - Libc.Strings: lib/libc/src/string.c, which the kernel links too, and kernel/libk/string.c.
-- - Fs.Files: open files and descriptors of kernel/fs/vfs.c.
-- - Fs.Mounts: the mount list of kernel/fs/vfs.c and the search of the file system for a path, which
--   uses Libc.Strings.
-- - Fs.Requests: the reads and writes of kernel/fs/vfs.c and kernel/fs/vfs_async.c, which are handed
--   to a driver as requests. A driver is a parameter there.
-- - Fs.Tmp: kernel/fs/tmp.c, the temporary file system. Its `tmp_submit_req` is such a driver.
-- - Fs.Tar: the numbers and the reads of kernel/fs/tar.c, and what kernel/driver/sd.c delivers.
-- - Fs.Rootfs: the entries of kernel/fs/rootfs.c.
-- - Libk.Semaphore, Libk.Spinlock: kernel/libk/con/semaphore.c and spinlock.c.
-- - Libk.Blockq: kernel/libk/con/blockq.c, on Libk.Ringbuff.
-- - Sys.Sysd: kernel/sys/sysd.c, the system calls, which use the files, requests, copies, signals and
--   message queues above. `process_syscall` is the call of the current process; the part of a call
--   after a wait is a definition of its own.
-- - Driver.Tty: kernel/driver/tty.c, the terminal. Its `tty_submit_req` is a driver of Fs.Requests,
--   and its line goes to a ring of Libk.Ringbuff.
-- - Driver.Keyboard: kernel/driver/keyboard.c, which keys the scan codes stand for.
-- - Libc.Stdio: lib/libc/src/stdio.c, the streams, over system calls that are parameters.
-- - Libk.Kprintf, Libc.Printf: kernel/libk/kprintf.c and lib/libc/src/printf.c, formatted text.
-- - Sys.Mq: kernel/sys/mq.c, the message queues, with threads that are switched at any step.
-- - Proc.Blocking: how `semaphore_down` puts the current process to sleep.
-- - Proc.Threads: the creation of threads in kernel/proc/sched.c.
-- - Proc.Handler: the entry of a signal handler and the return from it, kernel/proc/signal.c, on
--   Proc.Virtual.
-- - Proc.Elf: the loader of kernel/proc/elf.c, which fills the pages of a new process from a file.
-- - Irq: the handler of interrupts and the system call that it starts, kernel/irq/interrupt.c. The
--   scheduler and the entry of signal handlers are those of Proc; the codes of the
--   keyboard are those of Driver.Keyboard, and what it sends its keys to is a parameter.
-- - Proc.Virtual: the copies of kernel/proc/virtual.c to and from the memory of a process.
-- - Proc.Signals, Proc.Sched: kernel/proc/signal.c and kernel/proc/sched.c. The scheduler sends the
--   alarms through the former, and wakes what Proc.Blocking put to sleep.
--
-- How state is modelled: a function that writes through a pointer takes the old value and returns
-- the new one; the nodes of a linked list are in a store of their own, with null as address 0. A
-- definition has the name of the C function, or, for a part of one, a name of its own and a comment.
-- An `int`, `size_t` or pointer is its 16-bit word and wraps where the source's does. `panic` and `ASSERT` failing are results of their own. What `kmalloc` returns is a
-- parameter of the callers.
--
-- Bounds and fuel: the loops of kmalloc.c have one round more than the heap has chunks as fuel, and
-- each round moves on by a chunk at least. The loop of a read of a tar file has 128 rounds, and a word
-- has at most 127 sectors; the loops of virtual.c have 17 rounds, one for each page that a word of
-- bytes can touch, and so has the one of elf.c that writes zeros. A page is loaded in 4097 rounds at
-- most, since each reads a byte. The loop of the terminal that waits for data has a turn for each
-- count of its semaphore, and one more. The loop of `sched_pick_next` may not end; its fuel is a
-- parameter, and one round of the process list is enough where the results below say that it ends.
--
-- Not modelled: the other drivers and start-up code that set device registers, assembly, and the
-- parts of the kernel that the list above does not name. A write past the end of an array is dropped.
pub mod Common
pub mod Libk
pub mod Libc
pub mod Fs
pub mod Proc
pub mod Sys
pub mod Driver
pub mod Irq
