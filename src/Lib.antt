-- ===== src/Lib.antt =====
-- Models and theorems for the C programs of the labs of a course on computer systems. The labs are
-- independent programs; each file of this development says which one it is about.
--
-- Sort models lab3/sort.c. `Sort.quick_sort` is `quickSort`, with a bound on the depth of the
-- recursion; more fuel than cells is enough, since each call is on a shorter range. The cells are
-- integers, which are only compared and moved. Sort/Count, Sort/Partition and Sort/Recursion prove it.
--
-- Heap models lab5/implicit.c and lab5/implicit.h, an allocator over a region that is cut into blocks
-- with their size at both ends. Heap/Layout has the block headers, Heap/Search `heap_malloc` with its
-- three policies, Heap/Release `coalesce` and `heap_free`, Heap/Create `heap_create`, and Heap/Survey
-- `heap_print` and `heap_find_avg_free_block_size`; each function keeps its name. The region is a store
-- of 32-bit words, block sizes wrap at 2^32 and pointers at 2^64. `sbrk` is a parameter: what it
-- granted, if it did. A header of size zero writes a word outside of its block and of the region, which
-- is kept as a word there. A loop over the blocks has fuel, and more fuel than blocks is enough. A function
-- that ends without a return gives `undefined`. `malloc_best_fit` uses a variable that is declared
-- nowhere; its first value is a parameter, which the theorems take to be `NULL`. Heap/Chain relates the
-- store to a list of blocks, Heap/Policy and Heap/Merge are the allocator on lists, and the other files
-- prove that the code implements it. Heap/Session is about a program that makes requests and gives back
-- what it holds, in any order. The heap's own struct is kept apart from the words of the region.
--
-- Harness models lab5/implicit-test.c, which runs the three policies side by side. Harness/Draw has
-- `get_rand_block_size` and Harness/Defs the loop and `main`; `rand`, `sbrk` and what the arrays hold at
-- first are parameters. The two loops that draw a size have fuel 8 and 10, one more than the doublings
-- from 4 to 512 and to 2048, which is enough. Fuel of 2^18 is enough for the loops over the blocks of a
-- heap of 2^21 bytes. Harness/Lists says what the arrays hold, Harness/Kept follows one heap through a
-- request and a release, Harness/Rounds the loop, Harness/Started begins it with new heaps, and
-- Harness/Odd is about sizes that are no multiples of eight. The messages of the loop are left out.
--
-- Mask models lab6/mask.c, lab6/mask.h and `baseMask` of lab6/timemask.c, three versions of one filter.
-- Mask/Defs has the code, with its loops in Mask/Loop and the arithmetic of `long` on 64-bit patterns
-- in Mask/Long. Mask/Sweep and Mask/Total say what nested loops do to an array and to a sum, Mask/Pass
-- and Mask/Pixel follow one pixel through the code, Mask/Kernel states the weighted average, and
-- Mask/Agree, Mask/Single and Mask/Equal conclude; Mask/Compare has `copy` and
-- `countDifferentPixels`. The arrays are functions of row and column, the old image, the new one and
-- the weights are apart, and images are no larger than the arrays. Mask/Pgm has the reading and the
-- writing of an image file, a list of bytes; Mask/Printed and Mask/RoundTrip relate the two. A header
-- has a comment for each unit of fuel at most. Mask/Main has `main` of lab6/timemask.c, with what it
-- prints; the clock and the random numbers are parameters. Mask/Alike is about images that agree inside,
-- Mask/Runs about the loops of trials, Mask/Saved about the file, and Mask/Verdict about the program.
--
-- Cache models lab6/cache.c and lab6/cache.h. Cache/Defs has the functions under their names. Memory is
-- a function from addresses to bytes, a parameter of `cache_read`, and so is the contents of the lines
-- that `malloc` gives. The loop that computes shifts and masks has fuel 32, which is enough for an
-- `int`. Cache/Order and Cache/Hit say which line a read ends with, Cache/Mirror that lines are copies
-- of memory, and Cache/Fresh what `cache_new` sets up. `cache_write` has an empty body. Cache/Sums has
-- the sums of lab6/cache-test.c, which read an array through the cache, and Cache/Totals their values.
-- Cache/Direct is about the cache that its `main` makes, where a set has one line; Cache/Rows, Cache/Stays,
-- Cache/Sweep and Cache/Columns count the misses of the sums, Cache/Filled has what `fillArray` leaves in
-- memory, and Cache/Rates has `main`.
--
-- Bigint models lab4/bigint.c and lab4/bigint.h as far as they are written: most functions return NULL.
-- A pointer is NULL or a place of a store, and following NULL gives `undefined`.
--
-- Ext2 models lab7/ext2.c, with the structs of lab7/ext2.h cut to the fields that are used. Ext2/Defs
-- has the functions up to `read_file_content` under their names, Ext2/Opening `open_volume_file`, and
-- Ext2/Path the directories and paths. `pread` on the volume file is a parameter, and so is the value
-- of memory and variables that are not initialised. The loop of `read_file_content` has fuel, and more
-- fuel than bytes asked for is enough, since each round reads a byte or ends; the loop over a directory
-- has as many rounds as the file has bytes. Products that the source computes in `int` are not cut, which
-- they are not for blocks of up to 4096 bytes, and a quotient by zero is 0. The contract of `pread`, that it returns no more bytes than
-- asked for, or all of them on a disk that serves every read, is a hypothesis. Ext2/Content, Ext2/Index,
-- Ext2/Contiguous, Ext2/Numbers, Ext2/Opened, Ext2/Directory and Ext2/Lookup prove it.
--
-- Fuse models the callbacks of lab7/ext2fs.c on top of Ext2: Fuse/Defs has the code, Fuse/Listing is
-- about `ext2_readdir`, Fuse/Opening about `ext2_open` and `ext2_getattr`, and Fuse/Reading about
-- `ext2_read` and `ext2_readlink`. Each search takes fresh memory, whose contents are a parameter.
--
-- Smoke models lab8/smoke.c as a step relation on the state of its seven threads. Smoke/Defs has what a
-- thread does from one wait to the next, and Smoke/System the steps: a thread that holds the mutex runs
-- alone, and `num_active_threads++`, which no mutex protects, is two steps. A wait may also end without
-- a signal, as POSIX allows. `Trace` is a run in any order of the threads, with the number of such
-- wakeups, and the theorems are about runs that have none, since the program does not guard its waits.
-- Smoke/Invariant, Smoke/Listen, Smoke/Count, Smoke/Calm and Smoke/Reach follow a
-- round of the agent through the listeners and the smokers, Smoke/Live and Smoke/Progress measure how
-- far a run is from its end, and Smoke/Stuck is about the runs in which the agent never goes on.
--
-- Traffic models what is written of the street in lab8/traffic.c, lab8/traffic-sem.c and lab8/part2
-- backup.c: the histogram of waiting times, and the entry of a car. Traffic/Threads runs the calls of
-- `recordWaitingTime` in many threads, step by step, in the order of any schedule, with the mutex as a
-- parameter; Traffic/Semaphore is the semaphore of lab8/traffic-sem.c in its place. Traffic/Exclusion,
-- Traffic/Tally, Traffic/Schedule and Traffic/Progress prove it, and Traffic/Report has the printing of
-- the histogram.
--
-- A call whose result C leaves undefined, as it follows NULL or leaves an array, gives `undefined`, a
-- result of Prelude/Run.
--
-- Not modelled: the callbacks of lab7/ext2fs.c that only print and close, the assembly of labs 1 to 3,
-- lab4/biginttest.c and lab7/ext2test.c,
-- which only call the components and print, and the street of lab8/traffic.c, which is not written.
pub mod Prelude
pub mod Sort
pub mod Heap
pub mod Harness
pub mod Mask
pub mod Bigint
pub mod Cache
pub mod Ext2
pub mod Fuse
pub mod Smoke
pub mod Traffic
pub mod Tests
