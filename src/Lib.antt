-- ===== src/Lib.antt =====
-- lfqueue: the lock-free queues of the crate.
--
-- The crate stores values in slots and passes the indices of the slots through rings (the SCQ
-- algorithm). A `BoundedQueue` (src/scq.rs) has two rings: `free_queue` with the indices of the
-- empty slots, and `alloc_queue` with those of the filled ones, oldest first. `enqueue` moves an
-- index from the first to the second and writes the slot, `dequeue` moves one back and reads it.
-- `SingleSize` (src/single.rs) is a queue for one value with a state byte of its own.
--
-- - Word and its children: words of 64 bits, `usize` and `isize`, and their digits.
-- - Lfring: `lfring_*`, `modup`, `determine_order` and `determine_order_const` of src/scq.rs.
-- - Ring: `ScqRing` of src/scq.rs, with `enqueue`, `dequeue`, `catchup`, `finalize` and `eq`.
--   Ring/Holds says when a ring holds a list of indices, Ring/Entry what the words of the array
--   mean, the other children follow one call through its loops. Ring/Shared has the same operations
--   as single accesses to the atomic fields, which several threads make in any order. Below it,
--   Words, Fields, Older and Looks say what the fields of a word are and what the tests tell of
--   them; View and Sound what the threads rely on; Store, Take and Pass what the accesses that
--   change a slot do to that, Moves, Fills, Probes and Turning what each access does; Kept,
--   Consistent and Opened carry it through a run from a new ring.
-- - Alloc: the constructors of rings, of src/scq.rs and src/lfstd.rs.
-- - Bounded: `BoundedQueue` of src/scq.rs, and `AllocBoundedQueueInternal::new` of src/lfstd.rs.
--   Bounded/Store says when a queue holds a list of values. Bounded/Shared has `enqueue_cycle` and
--   `dequeue` as single accesses of several threads: Rings follows one of the rings with the
--   threads in it, Shapes and Counts what its accesses store and remove, Owned says which thread
--   has which index, Moves, Takes, Puts, Frees, Slots and Accesses what the accesses do to that, Runs what a run
--   does.
-- - Mock and Grind: `MockQueue` of src/lib.rs and the fuzz targets scq_grind.rs, const_grind.rs and
--   lscq_grind.rs of fuzz/fuzz_targets, on instructions that are given.
-- - Single: `SingleSize` of src/single.rs, alone (Single/Alone) and shared (Single/Runs).
-- - Unbounded: `UnboundedQueue` and `CountedUnboundedQueue` of src/lfstd.rs, a list of bounded
--   queues on a heap that is part of the state. The pointers of the crate `haphazard` are the
--   record `AtomicPtr`, which says what the source relies on. Unbounded/Segment says when a bounded
--   queue serves as a segment, Unbounded/Chain when the list of segments on the heap contains a
--   list of values, the other children follow the calls. Unbounded/Handles: the handles of that
--   file.
-- - Suite: the tests of src/scq.rs and src/lfstd.rs that fill a queue and empty it, at any size.
-- - Base: the names and lemmas that all share. `Exec` is how a call ends: with a value, by a panic,
--   by a read of memory that holds no value, or not within its fuel.
--
-- Bounds. But for Ring/Shared, Bounded/Shared and Single, a call is run by one thread at a time;
-- what the language leaves open in it, the spurious failures of `compare_exchange_weak`, is the
-- parameter `Cpu`. Each loop has fuel, and `IsFair` asks for 16 rounds in which no exchange fails
-- spuriously: `dequeue` needs 11 looks at an entry, the exchange and the rounds around them. The
-- counters wrap at 2 ^ 64; `IsYoung` asks for fewer than 2 ^ 61 tickets, as the cycle words hold
-- twice the ticket. Orders go up to 59. Without other threads, `enqueue` of an unbounded queue ends
-- in its first round and `dequeue` in its second, since only the first segment can be empty; `room`
-- counts the calls that leave the counters small.
--
-- The accesses of `SingleSize` interleave freely, one at a time; a relaxed load may read any value.
-- Those of Ring/Shared and Bounded/Shared do so too, and each load reads the last value stored.
--
-- Not modelled: debug assertions (the model is a release build), what several threads at once do to
-- the unbounded queues, weaker orders of memory, cache padding, back-off, the `Display` and `Error`
-- implementations, the loom variants, the random generator of the fuzz targets, benches and
-- examples.
pub mod Base
pub mod Word
pub mod Lfring
pub mod Ring
pub mod Alloc
pub mod Bounded
pub mod Mock
pub mod Grind
pub mod Single
pub mod Unbounded
pub mod Suite
