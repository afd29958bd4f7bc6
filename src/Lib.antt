-- ===== src/Lib.antt =====
-- mytilus, a C library for Linux on aarch64 written in Rust: the functions that compute, as
-- functions by clauses, and what they are proved to do.
--
-- Parts, and the files that model them:
--
-- * Memory, Memory.antt: a pointer is an address, memory is a partial function from addresses to
--   bytes, and a call ends in a result, in a fault (an access to an unmapped address, undefined in
--   the source) or out of fuel.
-- * Blocks, crates/mytilus-string/src/mem.rs: Block.antt has memcpy, memmove and memset as the
--   byte loops written there, Block/Move.antt their effect.
-- * Strings, crates/mytilus-string/src/str_fns.rs: Str/Length.antt (strlen, strnlen),
--   Str/Find.antt (memchr, memrchr, strchrnul, strchr, strrchr), Str/Compare.antt (strcmp,
--   strncmp, and memcmp of mem.rs), Str/Copy.antt (stpcpy, strcpy, stpncpy, strncpy, strcat) with
--   the theorems in Str/Copy/, Str/Strerror.antt (strerror_r). strrchr calls strlen and memrchr,
--   strcat strlen and strcpy, as in the source; stpncpy fills by a loop of its own.
-- * Searching and cutting strings, crates/mytilus-string/src/str_search.rs: Str/Search.antt
--   (strspn, strcspn, strpbrk, strstr) with the byte set in Str/Search/Sets.antt, Str/Tokens.antt
--   (strsep, strtok_r, strtok), where Str/Tokens/Words.antt follows a caller of strtok_r until
--   NULL and Str/Tokens/Fields.antt one of strsep, and Str/Casecmp.antt (strcasecmp, strncasecmp
--   and those with a locale). strcspn calls strchrnul, strpbrk strcspn, strtok_r
--   both spans, and the case folding tolower.
-- * Integers, crates/mytilus-stdlib/src/int_ops.rs: IntOps.antt has the abs and div families on
--   the patterns of signed words.
-- * Errors, crates/mytilus-errno/src/lib.rs and crates/mytilus-sys/src/errno_raw.rs: Errno.antt
--   builds the message table from the assignments of its initialiser (Errno/Texts.antt) and the
--   error numbers (Errno/Codes.antt); strerror_r reads it. Errno/Location.antt has ERRNO_VAL in
--   the storage of every thread, and ret as it writes there for the thread that calls.
-- * Characters, crates/mytilus-locale/src/ctype.rs: Ctype.antt, with the 32-bit pattern of the
--   `int` argument and the wrapping subtraction of the source; Ctype/Locale.antt has the functions
--   with a locale.
-- * Sorting, crates/mytilus-stdlib/src/sort.rs: Sort/InPlace.antt has qsort, qsort_r and bsearch
--   over memory, with base, nel and width, and a comparator that gets two pointers; elt and
--   swap_bytes are in Sort/Bytes.antt. Sort.antt has the same functions over a list of elements,
--   and Sort/Order.antt what a comparator has to satisfy. Sort/InPlace/Refinement.antt relates the
--   two, by memory that holds the elements as an array; Sort/InPlace/Canonical.antt compares the
--   results on two arrays, with Sort/Unique.antt on ascending lists, and Sort/Bags.antt has arrays
--   up to the order of their elements; Sort/InPlace/Lookup.antt has a program that calls qsort and
--   then bsearch.
-- * Random numbers, crates/mytilus-prng/src/lib.rs: Prng/Lcg.antt (srand, rand, rand_r),
--   Prng/Rand48.antt (the 48-bit family over the words of __seed48), Prng/Random.antt (random,
--   srandom, initstate, setstate over the record Random of the statics RAND_N, RAND_I, RAND_J,
--   RAND_X and RANDOM_LOCK, and a memory whose addresses count 32-bit words).
--   Prng/Random/Initial.antt has RANDOM_INIT and the statics at the start, Prng/Random/Lagged.antt
--   the additive generator on a queue of words, Prng/Random/Seeded.antt its start from a seed,
--   Prng/Random/Resume.antt a program that uses a second buffer for a while, and
--   Prng/Rand48/Sequence.antt the sequence behind srand48. Prng/Period.antt has linear congruential
--   steps modulo a power of two, and Prng/Cycles.antt how long the seeds take to come back.
--   Prng/Random/Spin.antt has the lock under several threads, as a step relation, and
--   Prng/Random/Threads.antt threads that call random, srandom and setstate, each call as lock, its
--   work and unlock. Prng/Random/Buffer.antt has initstate against the bytes of the buffer.
-- * Signal sets, crates/mytilus-signal/src/sigset.rs: Sigset.antt, with the effect on the members
--   in Sigset/Members.antt; Sigset/Subsets.antt has the sets as subsets of the signals, and
--   Sigset/Subsets/Calls.antt the calls of a program on them.
-- * System calls, crates/mytilus-sys/src/syscall.rs: Sys.antt has syscall0 .. syscall6,
--   syscall_cp0 .. syscall_cp6, is_err and ret over the kernel as a parameter, with errno as
--   state; Sys/Errors.antt has the convention of ret, Sys/Numbers.antt the numbers of
--   crates/mytilus-sys/src/nr.rs. The wrappers pass through it: Unistd.antt (mytilus-unistd),
--   Fcntl.antt (mytilus-fcntl), Mman.antt (mytilus-mman), Time.antt (mytilus-time) and
--   Process.antt (mytilus-process), each of crates/<name>/src/lib.rs. Wrappers.antt treats those
--   that only hand their arguments on, and Posix.antt the posix_ functions. sleep and usleep call
--   nanosleep. Where a function has a local struct timespec, the memory of the process is read
--   and written by two parameters, peek and poke, whose laws are the record IsWordMemory of
--   Time/Words.antt.
-- * Entry, crates/mytilus-startup/crt: Startup.antt has the instructions of aarch64 that the entry
--   uses, the code of _start in aarch64/crt1.rs, Scrt1.rs and rcrt1.rs, the pieces of _init and
--   _fini in aarch64/crti.rs and aarch64/crtn.rs, and _start_c of start.rs; __libc_start_main, and
--   the code that other files put between the pieces, are parameters. Startup/Entry.antt has the
--   stack at the entry, Startup/Frames.antt the calls of _init and _fini.
-- * Flags, crates/mytilus-fcntl and crates/mytilus-mman: Base/Flags.antt has the word that a
--   program combines from a list of flags, Fcntl/Flags.antt the O_ constants, with what open reads
--   of them in Fcntl/Flags/Modes.antt, and Mman/Flags.antt the MAP_ constants.
--
-- Base.antt passes on the shared names: Boolean tests, lists by native numbers, integers, and the
-- laws of bit operations. Tests.antt has the theorems at concrete inputs.
--
-- Fuel. strlen, strchrnul, strcmp, stpcpy, strcasecmp and the loops of str_search.rs run until a
-- terminator and take fuel; any fuel above the lengths of the strings is enough, and their
-- theorems take that as a hypothesis. sift_down and bsearch_loop get the number of elements,
-- which the theorems show to be enough. lock spins on a lock that is not free: for one thread
-- that is out of fuel, and in the step relation a step that changes nothing. _Exit never returns
-- and runs out of any fuel.
--
-- Not modelled: the assembly that is copied from musl (memcpy, memset, setjmp, longjmp, and the trap
-- into the kernel, which is a parameter), __cancel, which is never reached, the panic handlers,
-- which spin or end the process, constants that no function reads, the check of the processor
-- that the stack pointer is aligned, and the floating-point subtraction in drand48 and erand48.
pub mod Posix
pub mod Base
pub mod Memory
pub mod Block
pub mod Ctype
pub mod Prng
pub mod Sort
pub mod Errno
pub mod Str
pub mod Sigset
pub mod Tests
pub mod Sys
pub mod IntOps
pub mod Process
pub mod Wrappers
pub mod Fcntl
pub mod Mman
pub mod Unistd
pub mod Time
pub mod Startup
