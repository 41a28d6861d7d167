-- ===== src/Lib.antt =====
-- HiOM keeps the offset map of the Viper key-value store in two tiers. A write goes to the hot tier in
-- DRAM and to the commit buffer; flushers drain the buffer's lanes into the cold tier in persistent
-- memory; a checkpoint record says how far the cold tier is known to be complete.
--
-- The parts and their files:
--   include/viper/hiom/offset_codec.hpp: Codec. `encode` and `decode` turn the place of a record into
--     the 4-byte offset of the hot tier and back; Codec/Packing and Codec/RoundTrip are their proofs.
--     `KeyValueOffset` of include/viper/cceh.hpp is the 8-byte form, in Codec/Offset.
--   include/viper/hiom/checkpoint.hpp: Checkpoint. The file is a pointer and two slots; `write` is
--     composed of `stamp`, `target_slot`, `store_slot` and `flip`, so that Checkpoint/History can cut
--     it short before the pointer store.
--   include/viper/hiom/commit_buffer.hpp: CommitBuffer. `push` and `try_drain_lane`, the lanes of a
--     flusher and the draining loop of include/viper/hiom/hiom.hpp. CommitBuffer/Queue has what the
--     buffer relies on from the third-party queue. CommitBuffer/Race has the atomic steps of one lane,
--     and CommitBuffer/Starved what they can lead to.
--   include/viper/hiom/cold_tier.hpp: ColdTier. ColdTier/Layout has the data and the routing. An
--     operation on the table runs on one region, whose buckets are one list: the main buckets, a
--     bucket that is never used, and the overflow buckets. ColdTier/Slots and ColdTier/Buckets treat one
--     bucket, ColdTier/Chain a chain, ColdTier/Search and ColdTier/Placing the two searches,
--     ColdTier/Valid the shape of a region, ColdTier/Upsert, ColdTier/Extend and ColdTier/Effect the
--     writes, ColdTier/Table and ColdTier/Fresh the whole table, ColdTier/Bulk the batch of one bucket and
--     ColdTier/BulkUpsert a batch of the table. ColdTier/Refinement compares the table with a finite map
--     and ColdTier/Room says how much room a sequence of writes needs.
--   include/viper/hiom/hot_tier.hpp: HotTier, one bucket of packed slots with its metadata.
--     HotTier/Layout has the words, HotTier/States the 2-bit states in one of them, HotTier/Sweep and
--     HotTier/Eviction the SIEVE sweep, HotTier/Placement where an entry goes, HotTier/Pinning what
--     `upsert_pinned` does, HotTier/Transitions the change of a state, HotTier/Table the buckets,
--     HotTier/Valid their shape, HotTier/Found what a lookup finds.
--   include/viper/hiom/hiom.hpp, the ring of pending blocks: Pending. A call that returns, waits or aborts
--     is an outcome; Pending/Counts compares the ring with a count for each block, Pending/Earliest treats
--     the scan that bounds the checkpoint frontier, Pending/Clients the slots of the clients, which also bound it.
--   include/viper/hiom/hiom.hpp, the rest: Facade. Facade/Winner and Facade/Coalesce are the entries that
--     `apply_batch` keeps of a batch, Facade/Picked what each of them is, Facade/Order the sort before it.
--     Facade/Batch has `HiomState`, `apply_batch` and `try_write_checkpoint`; Facade/Retire and
--     Facade/Drives treat its last stages. Facade/Frontier, Facade/Protocol
--     and Facade/Covered relate the frontier of a checkpoint to the clients and flushers, Facade/Replay and Facade/Recovery are
--     `recover_tail_into_cold`, Facade/Reads and Facade/Answers are `get` and `get_batch`. Facade/Commit
--     has `push_commit` with the hashes and sequence numbers of its entries, Facade/Backed relates the
--     entries in the buffer to the ring of pending blocks. Facade/Flush is
--     `drain_to_empty_and_apply_locked`, Facade/Drained treats its flush of one lane, Facade/Rounds and
--     Facade/Emptied its rounds, and Facade/Kept what it leaves alone. Facade/Writes has `put` and `remove`
--     with their back-pressure, Facade/Pinned the tries of a put, Facade/Unread, Facade/Written and Facade/ReadBack
--     what a get finds after it. Facade/Whole puts Viper's put, HiOM's put and a get together.
--   include/viper/viper.hpp: Viper, for records of fixed size. Viper/Versions has the version of a page,
--     Viper/Pages a put on a page, Viper/Visits the walk over live records, Viper/Intents the registry of
--     lock intents and the repair of a stale lock. Viper/Client has a brand-new pool, a client's claim of a
--     block, its walk from page to page, `put` and `remove`, with Viper/Client/Start on the first client,
--     Viper/Client/Walk and Viper/Client/Moves on the walk,
--     Viper/Client/Stored and Viper/Client/Frees on one slot, Viper/Client/Live on a whole put and
--     Viper/Client/Removed on a remove. Viper/Client/Update is the update in place, which
--     Viper/Client/InPlace and Viper/Client/Updated treat.
-- Tests holds the theorems at concrete values.
--
-- The parts meet in Facade/Batch: a batch of the commit buffer's entries becomes writes of the cold tier,
-- changes of state in the hot tier, retires in the ring and, at the cadence, a checkpoint. The fingerprint
-- of a key, the key that a slot holds and the answer of Viper's read of an offset are arguments of the
-- definitions that use them; Facade/Whole gives the read of Viper's own pool for the last.
--
-- Words are natural numbers with the wrap-around written out. A writer of the cold tier holds its
-- region's lock, so that it runs alone; the fault points of `upsert` are those of the source's own fault
-- injection. The searches along a chain have as much fuel as the region has buckets, which is enough
-- since links rise; the draining loop of a lane takes more fuel than entries wait in it; the sweep makes
-- 32 steps as in the source; an upsert into the hot tier has the source's 16 tries, of which one operation
-- at a time needs one; a read has the source's 1,024 retries. The rounds of a flusher take more fuel
-- than entries wait; a put has the source's 32 tries after the first, and its wait for an empty buffer takes
-- the list of its pauses. A put of Viper's client takes the number of pages that it may try; two are enough.
--
-- Not modelled: files and their mapping, flush instructions other than the order of stores, the queue
-- itself, statistics, clocks and time limits, hash functions, and the priming in the constructor of HiOM. A
-- checkpoint reads the clients and the ring in one step. Left to later work: HiOM's update, the flusher
-- threads, Viper's resizing and reclamation of blocks and its pages of variable size, and the segments of
-- CCEH. The assertions of `ColdTier::upsert` on its offset and of `get_batch` on the number of its
-- keys are left out, so that these take any offset and any number of keys.
pub mod Prelude
pub mod Codec
pub mod Checkpoint
pub mod CommitBuffer
pub mod Facade
pub mod ColdTier
pub mod HotTier
pub mod Pending
pub mod Tests
pub mod Viper
