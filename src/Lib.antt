-- ===== src/Lib.antt =====
-- A file system in memory: disk, block layer, inode layer with its locks, server, client and a tester.
--
-- The program. fs_client.cc offers create, get, getattr, put and remove and calls the fs_server object
-- (fs_server.cc) for each. The server turns ids into inode numbers and calls the inode layer
-- (inode_layer.cc, inode_layer.h). That layer keeps 1024 inodes in the disk blocks 9 to 122, takes the
-- inode's read/write lock (locks.h) around read_file and write_file, and gets blocks from the block
-- layer, which keeps a bitmap of allocated blocks in the disk blocks 1 to 8. The disk is an array of
-- 32768 blocks of 512 bytes.
--
-- The files and the code.
--   Base        shared names: Boolean tests on numbers, the monad `Cmd` of commands on a state whose
--               runs end with a value, a fault (undefined behaviour), a block on a mutex or a
--               condition variable, or without fuel; C's int; bits of a byte; lists; commands that do
--               not run out of fuel (Meets).
--   Disk        class disk. A block and a buffer are functions of the offset. What a local array holds
--               before it is filled is indeterminate: `Stack` is a parameter that gives it.
--   BlockLayer  class block_layer. The constructor does not initialise bitmap_mutex: what the memory from
--               `new` holds there is a parameter. `mounted d` is the state between calls where it is an
--               unlocked mutex: disk d, the superblock of the constructor and that mutex. Bitmap,
--               Alloc and Space read the bitmap as a set of allocated blocks and count free ones; Reuse
--               has the result.
--   Inode       struct inode as bytes of a block (Codec), get_inode and put_inode (Table, Laws).
--   RwLock      class a4_rwlock: what one caller does (Idle), and any number of threads as a step
--               relation (System) with its invariant (Exclusion) and how threads go on (Progress).
--   InodeLayer  class inode_layer. Read, Write and Remove have read_file, write_file and remove_file;
--               their children the loops: Read.Rounds and Write.Direct the direct section, Write.Indirect
--               the indirect one (Steps and Old a round with a new block and with an old one, Opening the
--               first round, Loop and Whole all of them), Write.Large files that have one. RoundTrip and
--               LargeFiles have a write and a read together, Gap the sizes just above 4096, Locks the
--               calls on rwlocks[inum], Unlocked that alloc_inode never locks the bitmap, Termination the
--               ends of the loops from any state.
--   Protocol    the stream operators of fs_protocol::attr, over the marshalling classes of the RPC
--               library as a parameter (Wire).
--   Server      class fs_server, and Client class fs_client; Client.Session is a client's session,
--               Client.LargeText one on a string of whole blocks with an indirect section, and
--               Client.NoMutex one where the memory for the mutex of the bitmap holds none.
--   Files       what the file system is for its clients: a map from ids to files with the requests of
--               fs_client on it. Represents says when a disk holds the files of a map; Creation, Reading,
--               Writing and Removing have one operation each, Handling and Requests the calls of
--               fs_client, Session sequences of them, and Start the sequences from the constructor on.
--   Testers     what the testers share, and the calls of fs_client on a file system that holds the files
--               of a map (Calls, Few). part1_tester.cc is Part1, with a child for each test;
--               part2_tester.cc and part3_tester.cc are Part2 and Part3, each with the bodies of its
--               threads and the child Program for test_concurrent and main. Scheduling runs threads.
--   OldStuff    the earlier alloc_block (Alloc), read_file (Reading), write_file (Write, Partial),
--               free_inode and remove_file of old_stuff.cc, which the Makefile does not build.
--   Examples    small disks, and each theorem at a concrete input.
--
-- Bounds and fuel. Numbers are unbounded and cut where the code cuts: `type` to 16 bits, times and
-- sizes to 32, ids to 31. C's signed overflow does not occur in what is modelled but for the counters
-- of the lock, which are integers here, and for remove_file at sizes from 2^31 to 2^31 + 4095, where
-- it is a `fault`. The loops of read_file and write_file run on fuel size + 1: each round takes at
-- least one byte off the remaining count, so that fuel is enough in every state (Termination). The
-- other loops are structural recursion on the rounds that are left. The threads of a test program run
-- on fuel, one unit for each step; the theorems ask for a schedule that gives some reader its steps.
--
-- What a client of Files keeps to: ids below 1024, types that a short holds, strings of at most 4096
-- bytes, no create when all inodes are in use, and no put of a string that takes fewer blocks than the
-- one it replaces. After such a put the inode still names blocks that are free, and that another file
-- may get; the map does not describe that.
--
-- Addresses and undefined behaviour. Accesses outside ino->blocks, an indirect block, rwlocks or the
-- disk's array, and a dereference of NULL, are the outcome `fault`. Memory from malloc is never short.
-- A buffer that a caller passes holds as many bytes as it says. What time, rand and clock_gettime
-- return and what malloc hands out are parameters. A thread function that flows off its end without a
-- value is the outcome `fault`, and so is locking a pthread_mutex_t that holds no mutex.
--
-- Not modelled. Terminal output and the delay of DISK_ACCESS_LATENCY do not touch the state. The RPC
-- headers under rpc/ belong to a library that is there as a binary archive; the client calls the server
-- object directly. The routines that old_stuff.cc shares with inode_layer.cc are not modelled twice.
-- The threads of the test programs take the calls of the client one at a time, as the lock of their file
-- has them. The steps inside two calls are interleaved for the lock only: the layers above are modelled
-- call by call.
pub mod Base
pub mod Disk
pub mod BlockLayer
pub mod Inode
pub mod RwLock
pub mod InodeLayer
pub mod Server
pub mod Client
pub mod OldStuff
pub mod Files
pub mod Protocol
pub mod Testers
pub mod Examples
