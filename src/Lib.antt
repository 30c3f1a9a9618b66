-- ===== src/Lib.antt =====
-- A verification library for the zillians common library.
--
-- What is modelled. The library's byte buffer, `BufferBase` of include/core/Buffer.h, the bit
-- tricks of include/utility/BitTrickUtil.h that it grows by, the pipe between two threads of
-- include/core/AtomicQueue.h, the bounded queue of any number of threads of
-- include/core/AtomicBoundedQueue.h, the dispatcher of include/threading that hands messages
-- from thread to thread over pipes, the allocator of include/core/FragmentFreeAllocator.h, an
-- array whose items know their index, and two state machines: the back-off of a polling thread
-- and transactions with rollback.
--
--   * Common: Boolean tests, lists over the native numbers, the results of code that may fail
--     (`Result`, with the errors `assertion` for a failed BOOST_ASSERT, `length_error` for the
--     exception of that name, `bad_access` for an access outside the block and `endless` for a loop
--     that has not ended after the rounds granted), the sums and differences of std::size_t
--     (`add_size`, `sub_size`, modulo 2^64), and objects at addresses (`Store`).
--   * BitTrick: `round_up_to_nearest_power` and `round_up_to_nearest_power_of_two`; Masks is on the
--     masks of AtomicBoundedQueue.
--   * Buffer: `Buffer` is the state of BufferBase: `mem` is the block behind mData, one number
--     below 256 for each byte, and the other fields are mReadPos, mWritePos, mReadPosMarked,
--     mWritePosMarked, mAllocatedSize, mOnDemand, mReadOnly and mOwner. The template parameter is
--     `Mode`. State holds the constructors and assignments, Positions what only reads or moves
--     positions, Block the copies in and out of the block, growth and the raw reads and writes,
--     Values the typed ones and probeSize. Contents has the abstraction `contents`, the bytes
--     held in order, and the invariant `IsValid`. The other modules hold the theorems: Copies,
--     Stores and Skips on the parts of an operation, Growth, Resize and Room on growing, Write,
--     Read, Queue on the raw operations, Ranges, Moves, Sharing, Construct and Overrun on the
--     rest of them, Wire, RoundTrip, Decode, Exchange and Measure on the typed ones.
--   * AtomicQueue: the queue of chunks in include/core/AtomicQueue.h, on a `Heap` of chunks with
--     addresses, in which an access to a chunk that is freed or NULL is `bad_access`. Slots and
--     Layout have the invariant: the chunks that hold the slots, in order. Push, Pop and Unpush
--     hold the theorems.
--   * AtomicPipe: the pipe over that queue; its fields are the pointers w, r, f and c. Spec is the
--     promised pipe, Relation how it is represented; Write, Unwrite, Flush and Reader hold a
--     theorem for each operation, and Refine that for their sequences.
--   * AtomicBoundedQueue: the ring of include/core/AtomicBoundedQueue.h. `System` is the queue with
--     its threads, a `Thread` is where a thread is inside push or pop, and `go` makes its next
--     access to what the threads share. Safe has the invariant, Frames what a step leaves of it,
--     Shared and Moves the steps, Delivery all sequences of steps.
--   * Dispatcher: Dispatcher, DispatcherThreadContext and DispatcherDestination of
--     include/threading, with `receive` for DispatcherThreadContext::read. Signals is
--     DispatcherThreadSignaler, whose 64 bits are a function. Mail is what is promised: the
--     messages from each thread to each, ready or held. Lane and Network relate the two; Open,
--     Send, Batch, Drain, Scan, Receive and Fetch hold a theorem for each operation, Refine that
--     for their sequences, and Wakeup the steps of a thread that waits.
--   * FragmentAllocator: include/core/FragmentFreeAllocator.h and its source file, the
--     allocator of parts of one pool. Lists has the blocks and allocate(), Joins deallocate()
--     and Sweeps the loops of the destructor and of FragmentFreeOperator. Segments and Taking
--     have what is promised: a list of segments of the pool, and Others what a call leaves of
--     it. Chain is how a store holds the blocks in their two lists; Pieces, Parts, Ends, Absent
--     and Steps are on the assignments to their links. Take, Merge, Absorb and Insert hold a
--     theorem for each way in which a block is taken or released, Searches and FirstFit the
--     searches, Giving, Release, Released and Refinement relate blocks and segments, and
--     Serving, Calls, Requests, RoundTrip and Destroy are on whole calls, Sequences on any
--     number of them, and Owners and Returned on blocks that are given back.
--   * AdaptiveWait: the back-off of include/threading/AdaptiveWait.h. `Config` holds the
--     template's parameters; Bounds and Progress hold the theorems.
--   * Transaction: include/core/Transaction.h. A `Routine` is an action with its rollback, either
--     of which may throw; `counter` is mProgramCounter and `result` the future in mResult.
--     Atomic, Completion and Next hold the theorems.
--   * InvertedArray: include/core/InvertedArray.h. `items` is mArrayItems, with an address for
--     each pointer, and `index_of` is mInvertedArrayIndex of the items. Indices has the
--     invariant, Erase and Swap the two operations that move items. erase(T*) does not compile if
--     it is used.
--   * Tests: the theorems at concrete inputs, and runs of the modelled code.
--
-- How the parts interact. A typed operation writes and reads its parts through the raw ones; a
-- raw write asks `make_room` first, which resizes a buffer that is on demand to the next power of
-- two and takes bytes from malloc and realloc. These two are the parameter `Allocator`, with the
-- documented behaviour `IsAllocator`: a block has the size asked for, realloc keeps what fits,
-- and neither returns NULL.
--
-- A pipe's write stores into the last slot of its queue and pushes; a read asks whether the first
-- slot is flushed and pops. The dispatcher sends by a write, a flush and a signal, and reads the
-- pipes of the sources whose signals are set. The addresses that malloc gives are the
-- parameter `malloc`, of which is asked that it never gives one that is in use. Each call on a
-- pipe or a dispatcher is one step, and each pipe's chunks are in a heap of its own.
--
-- Bounds. Sizes and counters stay below 2^31 where the source holds them in an int32. Loops run
-- over the number of elements, bytes or threads and need no fuel; those that follow the links
-- of an allocator's blocks are granted rounds, of which as many as there are blocks are enough.
-- The theorems ask for sizes up to 2^62 bytes, below which the next power of two and the sums
-- do not wrap; the steps of a bounded queue and its cells stay below 2^62 together, so that no
-- position wraps.
--
-- Not modelled. Values of std::map, std::wstring, boost::array and serializable classes,
-- buffers inside buffers, the stream operators and the pools of BufferT; two threads that use
-- one buffer; the state of a buffer after an exception; a transaction's task that is still
-- running when the next call comes. Assertions are on. Numbers are copied in the little-endian
-- order of the machine. Of pipes and dispatchers the destructors, a blocking read of a
-- destination and the interleaving of two threads inside one call are not modelled. Of the
-- allocator debug(), which prints, the lock and copies of a pointer are not modelled. Memory is
-- sequentially consistent. Not modelled either are the other parts of the library:
-- ScalablePoolAllocator, other queues and wrappers of boost.
pub mod Common
pub mod BitTrick
pub mod Buffer
pub mod AdaptiveWait
pub mod Transaction
pub mod InvertedArray
pub mod AtomicQueue
pub mod AtomicPipe
pub mod AtomicBoundedQueue
pub mod Dispatcher
pub mod FragmentAllocator
pub mod Tests
