-- ===== src/Lib.antt =====
-- Linux 0.11 (the commented tree): its memory, tasks, files and printing, as definitions that run
-- and theorems about them.
--
-- Each definition is a C function, a loop or a branch of one, or a macro, under its own name. The
-- state that a function reads and writes is a record that it takes and returns. A 32-bit `int` or
-- `long` is a natural number below 2^32 with the wrap-around written out (Word.antt: add, sub, mul,
-- neg, and slt, sle, sdiv, smod for the signed operations). A panic, the end of a process
-- and an error number are values. A routine that sleeps is cut where it sleeps: the task is put to
-- sleep, and what it does when it runs again is the next call.
--
-- The parts, and their files:
--   Prelude.antt, Prelude/   names of the libraries, Boolean tests, lists, arrays as functions
--   Word.antt                32-bit arithmetic
--   Mm.antt, Mm/             mm/memory.c: get_free_page and free_page (Mm.antt), the page tables
--                            (Mm/Tables.antt), the page faults (Mm/Faults.antt), and theorems on
--                            the allocator (Alloc), copy-on-write faults (Cow), faults on absent
--                            pages (Demand), copied tables (Clone, Fork) and freed ones (Release)
--   Sched.antt, Sched/       kernel/sched.c: schedule (Sched.antt), sleep_on and wake_up
--                            (Sched/Sleep.antt), do_timer, alarm, nice and signal
--                            (Sched/Calls.antt); theorems on the scan (Pick), the choice (Choose),
--                            queues of sleepers (Wakeup) and time slices (Slice)
--   Signals.antt, Signals/   kernel/exit.c: do_kill (Kill), sys_waitpid (Wait), parts of do_exit
--   Ids.antt, Ids/           kernel/sys.c: users, groups and sessions (Rights)
--   Pipe.antt, Pipe/         fs/pipe.c: the ring of bytes (Ring), one call (Fifo), histories (History)
--   Files.antt, Files/       fs/fcntl.c, sys_close of fs/open.c, and the loop of copy_process
--                            (kernel/fork.c) over filp: counted descriptors (Refs, Dup, Close)
--   Bitmap.antt, Bitmap/     fs/bitmap.c: the search for a free bit (Search), writing one (Marks),
--                            zones (Zones) and inodes (Inodes)
--   Inode.antt, Inode/       fs/inode.c: bmap and create_block (Inode/Bmap.antt), against a reading
--                            of the zones (Lookup), what a new block keeps (Grow, Fresh), a new
--                            entry (Create), a new zone (Zones) and create_block as a whole (Maps);
--                            file_read of fs/file_dev.c (Read), against the bytes of the file
--                            (Content), and block_read of fs/block_dev.c (Device)
--   Buffer.antt, Buffer/     fs/buffer.c: the lists (Buffer.antt), getblk, bread and brelse (Calls),
--                            buffer_init (Init, Start); the free list as a ring (Ring) that a buffer leaves
--                            (Free) and joins (Append), a hash queue (Chain), the invariant of the
--                            cache (Queues) under removal (Unqueue) and insertion (Enqueue), the
--                            search of a queue (Find) and of the free list (Scan), what the buffers
--                            hold (Contents), and getblk and bread as a whole (Reuse, Getblk,
--                            Held, Bread)
--   Names.antt, Names/       fs/namei.c: permission (Rights), match (Match) and find_entry, against
--                            an array of entries (Find) and their names (Search)
--   Fork.antt, Fork/         find_empty_process of kernel/fork.c: the numbers that it tries
--                            (Numbers) and what it finds (Free)
--   Strings.antt, Strings/   include/string.h: the string instructions (Strings.antt), copying,
--                            comparing and searching (Copying, Comparing, Searching); theorems on
--                            strlen (Lengths), memmove and strcat (Moves), strcmp (Orders), strspn
--                            and strcspn (Finds)
--   Seek.antt, Seek/         sys_lseek of fs/read_write.c (Moves)
--   Tty.antt, Tty/           include/linux/tty.h and kernel/tty_io.c: copy_to_cooked and tty_intr
--                            (Cooking), the loops of tty_read and tty_write (Calls); queues as lists
--                            (Queues), the line that is typed (Lines), one character (Keys), the
--                            whole loop (Rounds), the interrupt character (Signal), what tty_read
--                            takes (Taken) and tty_write sends (Sent)
--   Console.antt, Console/   kernel/console.c: the cursor and the string instructions (Console.antt),
--                            scrolling (Scroll), the sequences that edit the screen (Edit), con_write
--                            (Write); what moves the cursor (Cursor), the cursor under edits (Edits) and
--                            under con_write (Bounds), what the loops
--                            (Stores) and the moves (Memory) store, and con_write as a whole
--                            (Safety)
--   Mktime.antt, Mktime/     kernel/mktime.c, against a calendar (Calendar)
--   Vsprintf.antt, Vsprintf/ kernel/vsprintf.c: number and skip_atoi (Vsprintf.antt), the digits
--                            (Digits) and their layout (Layout); the parts of a directive (Format)
--                            and vsprintf (Convert), what a directive
--                            leaves of the format (Rounds), the loop (Prints) and its text (Directives)
--   Tests.antt, Tests/       each theorem at a concrete input, and runs
-- Signals, Ids, Fork and Tty work on the tasks of Sched, Inode on the maps of Bitmap, and Names on the
-- files of Inode; the other parts do not share state. Inode and Bitmap have a view of the cached
-- blocks of their own, which is simpler than that of Buffer.
--
-- Bounds and fuel. Memory is that of the 8 Mb configuration of include/linux/config.h: 1536 pages
-- above 2 Mb. The table of tasks has 64 slots. `schedule` has two rounds of its `while (1)`: after
-- one recharge each runnable task has a tick left. `to_digits` has 32 rounds, one for each bit.
-- copy_to_cooked has a round for each character of its input, vsprintf for each of the format, and
-- file_read and block_read for each byte, of which every round takes one at least.
-- The string routines that only the data ends take a number of rounds, as the loop of tty_write
-- does, and their theorems say how many are enough.
-- A hash queue of the cache has no more buffers than there are, find_entry goes past an entry in each
-- round, buffer_init past 1024 bytes, and there are fewer tasks than the 65 rounds of free_pid.
-- `first_free` has a round for each of the 20 descriptors, and find_first_zero 256 words.
--
-- Not modelled: entry code and drivers in assembler, device I/O, the registers of the display, the
-- table of inodes, the walk along a path and changes of a directory, exec, the sleeping around the
-- loops of terminals, and strtok. What tty->write does to the queue of the output is an argument; the
-- answer that con_write puts into the input queue for a status request is not part of it.
-- A write_pipe that goes on after a sleep is a new call, which looks for a reader first, and
-- free_block of a zone whose map block is missing, which loads through NULL, stops like a panic.
-- Cached blocks stand in Bitmap.antt by their numbers of users only, and in Inode.antt by their
-- contents too, without their dirty flags; whether bread gives a block is an argument there. Locks
-- on buffers are left out, and in Buffer no other process runs while a routine sleeps, so that
-- ll_rw_block is an argument that changes data and flags only. The inode that get_empty_inode
-- gives is an argument of new_inode. The characters that con_write takes are a list in place of
-- its queue. Reads and writes of user memory are taken to succeed.
pub mod Prelude
pub mod Word
pub mod Mm
pub mod Sched
pub mod Mktime
pub mod Vsprintf
pub mod Pipe
pub mod Ids
pub mod Signals
pub mod Files
pub mod Bitmap
pub mod Seek
pub mod Strings
pub mod Inode
pub mod Tty
pub mod Buffer
pub mod Names
pub mod Fork
pub mod Console
pub mod Tests
