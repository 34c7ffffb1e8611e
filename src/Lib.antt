-- ===== src/Lib.antt =====
-- The SENG21213-OS kernel: a verification library for the parts of kernel/ that manage memory,
-- processes, time, synchronisation, the disk and its files, the screen and the keyboard.
--
-- How the parts interact. kernel/pmm.c hands out frames of 4 KiB from a bitmap that it builds from
-- the E820 memory map. kernel/process.c keeps the table of sixteen processes and takes their
-- stacks from it. kernel/scheduler.c chooses among the entries of that table, on the timer and on
-- a yield, and keeps the queue of sleepers; fork and kill of kernel/scheduler.c make and end
-- entries. kernel/mutex.c, kernel/semaphore.c and kernel/rwlock.c block and wake processes through
-- the scheduler, and kernel/deadlock.c searches the mutexes for a cycle. kernel/slab.c hands out
-- small objects of four fixed pages, and kernel/buddy.c blocks of a pool of frames that it takes
-- from kernel/pmm.c. kernel/ramdisk.c is the disk, with a journal for interrupted writes,
-- and kernel/fs.c keeps files and directories on it.
-- kernel/vga.c is the screen, with the lines that have scrolled off it, and kernel/keyboard.c reads
-- lines and shows them there.
--
-- Files. Each is about the source of the same name unless said otherwise, and its functions have
-- the names of the C functions; loops have helpers of their own.
--   Prelude: names that all share, Boolean tests, C arrays (Prelude/Arrays), loops that search
--     (Prelude/Search), bits of a byte (Prelude/Bits), strings (Prelude/Strings) and words in a
--     byte array (Prelude/Words).
--   Pmm: the state of kernel/pmm.c is the record Pmm; alloc_frame and free_frame return it anew.
--   Machine: pcb_t and the static variables of the process code, as the record Kernel.
--   Process: kernel/process.c and kernel/thread.c. Scheduler: kernel/scheduler.c, with fork and
--     kill in Scheduler/Fork.
--   WaitQueue: the array of waiters that the three primitives have each.
--   Mutex, Semaphore, Rwlock: their state is the kernel and an array of the objects.
--   Deadlock: the search over the mutexes, whose state it only reads.
--   Buddy: the table of blocks, with the frames of Pmm.
--   Slab: the caches, and the bytes of memory, where the pointers of their free lists are.
--   Ramdisk: the disk is a function of the block and the offset.
--   Fs: kernel/fs.c. The child modules are the block bitmap and the inode bitmap (Fs/Bitmap), the
--     inode table and the blocks of an inode (Fs/InodeTable), directories (Fs/Directory), paths
--     (Fs/Path), formatting and mounting (Fs/Format), new inodes (Fs/Create), open files (Fs/File),
--     the commands on the tree (Fs/Tree) and the table of operations (Fs/Vfs).
--   Vga: kernel/vga.c. The ring of lines, the view and vga_putchar are in Vga itself; strings with
--     colours are in Vga/Ansi, the cursor and scrolling in Vga/Cursor, numbers and vga_printf in
--     Vga/Print, and boxes in Vga/Box.
--   Keyboard: kernel/keyboard.c. Scan codes and the history are in Keyboard itself, and kb_readline
--     in Keyboard/Line.
--   Fixtures and the Tests below each part: concrete states and the theorems applied to them.
--
-- How the code is read. A number is a natural number and wraps where the C type does, written out
-- as a remainder. A pointer to a process is its index in the table, and one to a mutex, semaphore
-- or lock is its number, with `none` for NULL; a map or an array is a function of the index. The
-- code between irq_save and irq_restore is one step. A function that yields ends there in the
-- model, with a value that says how it goes on; another function is what the process does when it
-- runs again. mutex_lock, sem_wait, sem_signal and the two rwlock functions that lock test and
-- initialise a new object before irq_save, and mutex_lock tests the owner there: the functions of
-- the model run on from these tests as when no interrupt comes between. What an interrupt there
-- allows is in Mutex/Exclusion, as a late mutex_init and a late round; the runs of Semaphore/Units
-- and Rwlock/Exclusion are of initialised objects. Assumptions about interleavings are
-- constructors of the step relations. The stores of ramdisk_write_block take effect in the order
-- of the source.
--
-- Fuel. wake_loop and admit_readers take the length of the queue as fuel, and each round takes one
-- entry off it. propagate has the sixteen rounds of the guard that the source counts. split and
-- merge take the number of orders to go, and demo_search one round for each push and pop. dfs has
-- one more than the processes, since each call below another marks a process more.
-- A path is followed on its length as fuel, since each component takes a character off it; reading
-- and writing take the number of bytes, since each round moves one; and pwd_rec has a level more
-- than there are inodes, where the code has no bound.
-- kb_readline takes the number of codes, of which each round takes one.
--
-- Not modelled: the shell, the demonstrations, the boot code and the assembly, which are input and
-- output or hardware set-up; and the port writes of the scheduler.
pub mod Buddy
pub mod Deadlock
pub mod Fixtures
pub mod Fs
pub mod Keyboard
pub mod Machine
pub mod Mutex
pub mod Pmm
pub mod Prelude
pub mod Process
pub mod Ramdisk
pub mod Rwlock
pub mod Scheduler
pub mod Semaphore
pub mod Slab
pub mod Vga
pub mod WaitQueue
