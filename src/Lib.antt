-- ===== src/Lib.antt =====
-- A model of entangle, a library for zero-copy communication between processes, and the theorems that
-- make it correct.
--
-- The program is four crates. crates/entangle-platform wraps the operating system: shared memory,
-- file locks, event notifications, signals. crates/entangle-lockfree holds the structures that processes
-- share: a ring with one producer and one consumer, and a free list of indices. crates/entangle-transport
-- builds on both: a segment of shared memory, cut into chunks that a pool allocator hands out as packed
-- pointer offsets, and a channel that is two rings, one for the offsets sent and one for those that come
-- back. crates/entangle has the nodes, the services and their ports: a publisher loans a chunk, sends its
-- offset to each subscriber, and reclaims what they return; a client and a server exchange requests and
-- responses over two channels and one segment; a notifier wakes a listener; a blackboard keeps one value
-- under a sequence lock; and a registry of files lets processes find each other's services.
--
-- Files and sources:
--   Platform/SharedMemory, Platform/Errors      crates/entangle-platform/src/shm.rs and error.rs
--   Platform/FileLock, ProcessMonitor, Signal   file_lock.rs, process_monitor.rs and signal.rs of the
--                                               same crate
--   Platform/EventNotification                  event.rs of the same crate, as it is built on Linux
--   Lockfree/SpscQueue, Lockfree/IndexSet       crates/entangle-lockfree/src/spsc_queue.rs, index_set.rs
--   Lockfree/AtomicBitSet, MpmcContainer        atomic_bitset.rs and mpmc_container.rs of the same crate
--   Lockfree/RelocatablePtr                     relocatable.rs of the same crate
--   Transport/PointerOffset, Contracts          crates/entangle-transport/src/contracts.rs
--   Transport/PoolAllocator, DataSegment        pool_alloc.rs and data_segment.rs of the same crate
--   Transport/Channel, SegmentManager           channel.rs and segment_mgr.rs of the same crate
--   Config, Errors, Qos, Node                   config.rs, error.rs, contracts.rs and node.rs of
--                                               crates/entangle/src
--   Port/Publisher, Port/Subscriber             port/publisher.rs, port/subscriber.rs and sample.rs there
--   Port/PubSub                                 both ports over one channel: who owns which chunk
--   Port/ReqRes                                 port/client.rs, port/server.rs, service/reqres.rs
--   Port/Event, Port/WaitSet                    port/notifier.rs, port/listener.rs, waitset.rs
--   Port/Blackboard                             service/blackboard.rs, port/writer.rs, port/reader.rs
--   Service                                     service/config.rs, registry.rs, lifecycle.rs, the names
--                                               of contracts.rs, and the builders of service/pubsub.rs,
--                                               event.rs, reqres.rs and blackboard.rs
-- Each operation of the sources is a function of the same name on a record of the same fields, except
-- that `open` is `open_existing`, that methods of samples and ports carry the port's name where two would
-- clash, and that `is_locked` of a path is `probe_locked`. A file named Tests holds runs and instances of
-- the theorems. Lockfree/Fifo is the abstract queue; Inv and Refine below a component are its invariant
-- and its agreement with an abstract view, as are Members below the bitset, a set of indices, and Slots
-- below the container, a map from slots to values; Threads below the ring and the index set interleaves their
-- operations.
--
-- State is passed explicitly. An operation that may panic returns an Option, `none` for the panic; the
-- errors are a Result. Numbers are natural numbers with the wrap-around of the machine's integers
-- written out. A word of shared memory is a byte function or a list of words; a request, a response or a
-- value is a list of bytes or words.
--
-- An operation of the bitset, the containers, the channel and the ports runs alone. The ring, the index
-- set and the sequence lock are modelled with their accesses interleaved as well, each seen by every
-- thread in the order in which it happens: weaker memory orders are not modelled. In the index set any
-- number of threads are at work, each releases what it acquired itself, and a compare-exchange may fail
-- spuriously. The answers of the operating system, of the file system and of the RON codec are arguments;
-- the calls that event notifications make are a record of functions with their documented laws.
--
-- Bounds: a ring of at most 2^63 words, an index set of at most 2^32 - 2 indices, segments below 2^48
-- bytes. The tag of the index set's head has 32 bits: the theorems on its threads hold while the head was
-- updated fewer than 2^32 times. The loop of `return_offset` makes as many tries as the other side
-- has turns, and one more, and is spinning when none succeeds; the first try is enough where every chunk
-- has one owner. The loop of `reclaim` gets one round more than the queue counts,
-- which is enough to empty it. The loops of `acquire` and `release` take the number of their spurious
-- failures, or go on for as many steps as there are.
--
-- Debug assertions are panics where they are kept: in the bitset, `release`, `resolve_ptr`, and on a
-- segment's header. `PointerOffset::new` masks its offset, and other accesses of shared memory are made, as
-- in a build without these assertions. Left out of the records are the fields of builders and ports for the
-- configuration and the type markers.
--
-- Not modelled: the blocking `receive` of a pending response, which repeats `try_receive` without an end;
-- pipes in place of eventfd(2); the pointers and the unmapping of shared memory; the derive macro, mocks,
-- benchmarks and examples, which carry no state.
pub mod Prelude
pub mod Platform
pub mod Lockfree
pub mod Transport
pub mod Config
pub mod Errors
pub mod Node
pub mod Qos
pub mod Port
pub mod Service
