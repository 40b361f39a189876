-- ===== src/Lib.antt =====
-- Network applications of the Enso evaluation, and models of the parts that carry their logic.
--
-- The parts and their files
--   Base          The shared names: Boolean tests on native numbers, C arrays as lists (Base/Lists),
--                 machine words that wrap (Base/Words), the laws of masks and packed fields (Base/Bits).
--   CircularLog   The item pool of the lossy store: mica2/src/mica/pool/circular_log.h and
--                 circular_log_impl.h. Defs has the state `Log` and every operation (`allocate`,
--                 `push_tail`, `pop_head`, `is_valid`, `get_item` as `read`, `write` and `item_size`,
--                 `lock`, `reset`); Bounds the invariant; Push its preservation; Integrity what a
--                 reader may rely on.
--   LTable        The hash table of mica2: mica2/src/mica/table/ltable.h and ltable_impl/. Its state is
--                 `Table` (State), its operations run in the monad `M` of State: Vec (packed words),
--                 Lock (lock.h), Item (item.h), Scan and Extra (bucket.h), Clean (cleanup_bucket), Set
--                 (set.h), Get (get.h, test.h, move_to_head.h), Del (del.h, increment.h),
--                 Init (`reset` of init.h). `Pool` is the interface to its pool, after pool.h and
--                 specialization.h; LogPool fills it with the circular log, as
--                 BasicLossyLTableConfig does. Chain, Seqlock, Steps, Read, Writer, Forget and
--                 Discipline hold proofs.
--   Maglev        The load balancer: maglev/src/maglev.hpp. Defs has `generate_permutations`, `populate`
--                 and the connection cache; Prime and Rows are about the permutations, Probe, Populate
--                 and Setup about the table, Cache about the cache, Lookup has `lookup`.
--   MinHeap       The heap of the heavy hitters: nitrosketch/minheap.cpp and minheap.h. Order and Count
--                 say what a heap is and what it holds; Down is about `heapify`, `buildMinHeap` and
--                 `deleteNode`, Up about `insertNode` and `find`.
--   SegregatedFit The pool of the lossless store: mica2/src/mica/pool/segregated_fit.h and
--                 segregated_fit_impl.h. Defs has the state `Fit`, the tags, the size classes and the
--                 free lists, Alloc has `allocate` and `release`; Classes is about tags and classes,
--                 Lists and Unlink are about the links of the free lists.
--   Queue         The bounded queues of mica2: mica2/src/mica/util/queue.h. Defs has `Queue` and
--                 `SingleThreadedQueue`; Ring says what a ring holds, Fifo is about `enqueue` and
--                 `dequeue`, Single about the queue for one thread.
--   Datagram      The request batches of mica2: mica2/src/mica/datagram/datagram_protocol.h, and the
--                 server's side of them in datagram_server_impl.h. Memory has the bytes of a packet, Defs
--                 the packet and `RequestBatchBuilder`, Reader `RequestBatchReader`. Parse has the
--                 `RequestAccessor` of the server and its requests, Respond its responses. Frame, Requests
--                 and Batch are about what a request depends on and what a sequence of appends leaves,
--                 Walk about the walk of a reader, Space about the room that is left, Ring, Window,
--                 Refuse and Server about the parsed requests. Answer is about requests that are written in
--                 place, Serve, Served and Reply about the retirement of the requests of a packet;
--                 Exchange puts the way from a client's requests to its answers together.
--   Processor     The processors of mica2: mica2/src/mica/processor/partitions.h with partitions_impl/,
--                 simple_processor.h and request_accessor.h. Interface has the interfaces to the tables
--                 and to the requests, and RequestArrayAccessor; Tables fills the first with LTable. Defs
--                 has `Partitions` with info.h and recent_key_hash.h, Dispatch the handling of one
--                 request, Pipeline the loop of process.h, Process both `process` functions. Stages and
--                 Order are about the pipeline, Keeps, Accept and Owners about the requests and the
--                 owners, Simple and Single compare the two processors.
--   Latency       The histogram of latencies: mica2/src/mica/util/latency.h, with `add_assign` for its
--                 `operator+=`. Observe says what a histogram is, Count is about `count`, Merge about
--                 sums of histograms.
--   Util          Rounding: mica2/src/mica/util/roundup.h.
-- The server parses packets into requests (Datagram), hands its accessor to a processor, which takes each
-- request to the table of its partition (Processor), and the table keeps the item in its pool.
-- The set, get and del of LTable call the pool for every item: they take a tag and an offset from a
-- bucket, read the item at the offset, and ask the pool whether the offset is still valid. The pool may
-- have dropped the item by then, which is why the table compares tags, hashes and keys, and why
-- `is_valid` matters.
--
-- How the code is modelled
--   Numbers are natural numbers with the wrap-around of uint32_t and uint64_t written out (`u32`,
--   `add64`, `sub64`). Memory is a function from the address of an aligned 8-byte word to the word, so
--   keys and stored values are lists of words; the code copies and compares them in multiples of 8
--   bytes, as its assertions ask. What `get` copies out is bytes, for any length that an item tells.
--   Arrays are lists. An operation that waits for a lock, or runs on, returns `none`. A pointer to a
--   bucket is its index in the array of buckets, the extra ones behind the main ones.
--   Loops that have no bound in the code take fuel: a chain of buckets is no longer than the number of
--   extra buckets and one, the loop of `push_tail` pops at least 8 bytes a time from at most `size`
--   bytes, and `populate` fills an entry at every step. Loops over a bucket or an array are structural.
--   Interleavings are modelled where versions are: Seqlock has what the threads do to the chain of a
--   bucket as a relation between tables, with locking and unlocking as single steps, and Discipline
--   is about `del` as one of its writers. All else runs as one thread.
--
--   The packet that the builder and the reader share is bytes at their offsets; the walk over its
--   requests takes fuel, and 24 bytes are gone with each round. The loop of `process` takes fuel for one
--   round per request and three gaps more. A processor waits for ever (`none`) where its table does, and
--   also `none` is a table pointer that was never set.
--
-- Parameters
--   The hash functions of DPDK (`jhash`, the bucket of a hash) and the hash of a key are arguments.
--   The pool of a table is the record `Pool`, the tables of a processor are the record `TableOps`, its
--   requests the record `RequestAccessor`. DPDK's byte order functions are the record `ByteOrder`; its
--   header structs are records of the fields that the code names. The clock is an argument.
--
-- Not modelled
--   Constructors that map memory and read the configuration, prefetching and printing, the network
--   stack, the client and the directory of mica2, the run loop of its server, the
--   rebalancing of partitions, the drivers that move packets, the log monitor (calls of Hyperscan), libraries that are copied into the repository, and the scripts.
pub mod Base
pub mod CircularLog
pub mod Datagram
pub mod LTable
pub mod Latency
pub mod Maglev
pub mod MinHeap
pub mod Processor
pub mod Queue
pub mod SegregatedFit
pub mod Util
