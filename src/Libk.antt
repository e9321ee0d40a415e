-- ===== src/Libk.antt =====
-- kernel/libk: the library of the kernel.
pub mod Ringbuff
pub mod Kmalloc
pub mod Kprintf
pub mod LinkedList
pub mod Semaphore
pub mod Spinlock
pub mod Blockq
