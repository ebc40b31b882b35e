-- ===== src/Lib.antt =====
-- VedDB core: the shared-memory rings, the arena allocator and what stands on them.
--
-- The program is a key-value and document server; the parts below are those of the crate
-- veddb-core that keep their own data structures. Paths are from the repository's root.
--
-- Ring/ models veddb-core/src/ring. Ring/Slot.antt is `Slot` of mod.rs, Ring/Spsc.antt is
-- `SpscRing` of spsc.rs, one function per method (`try_push`, `try_pop`, `len`, ...), and
-- Ring/Spsc/Threads.antt is the same code as the steps of a producer and of a consumer thread, each
-- access of a shared index or slot one step. Ring/Mpmc.antt is `MpmcRing` of mpmc.rs, one call at a
-- time. Ring/Queue.antt is the bounded queue that a ring promises to be. Not modelled: weak-memory
-- behaviour beyond what the acquire and release orderings of spsc.rs give, and contended calls of
-- the multi-producer ring.
--
-- Arena/ models veddb-core/src/arena.rs. Arena/Defs.antt has its functions; the mapped memory is a
-- function from addresses to bytes, the free-list nodes lie in it as the code lays them out, and a
-- compare-and-swap loop is its uncontended run.
--
-- Kv/ models veddb-core/src/kv. Kv/Hash.antt is the FNV-1a hash, Kv/Table.antt is `HashTable` of
-- hash_table.rs with one function per method. The table's entries are a list and its data lies in the
-- arena's memory, so an operation takes the arena and gives it back. The loop of `find_entry` has as
-- many turns as the table has entries, and its result `none`, like that of the operations, stands for
-- a loop that never returns.
--
-- Kv/Shard.antt is `KvShard` of shard.rs, each call under the shard's lock one step, and Kv/Store.antt
-- is `KvStore` of mod.rs, whose shards share one arena.
--
-- PubSub/ models veddb-core/src/pubsub/mod.rs: PubSub/Subscriber.antt is `Message` and `Subscriber`,
-- PubSub/System.antt is `Channel`, `PatternSubscription` and `PubSubSystem`. A subscriber is shared
-- by the channels and the system, so the channels hold its id and the system its state. The
-- regular-expression package is a parameter, the clock an argument.
--
-- Protocol/ models veddb-core/src/protocol.rs: Protocol/Codes.antt has the command and status bytes,
-- whose matches are lists of arms, and Protocol/Header.antt the two headers with the arithmetic of a
-- release build.
--
-- Rotation.antt models veddb-core/src/encryption/rotation_state.rs, Rotation/Keys.antt `KeyManager` of
-- key_manager.rs and Rotation/Scheduler.antt `KeyRotationScheduler` of key_rotation.rs. The record
-- `EncryptedStorage` of Rotation/Storage.antt stands for the trait of that name, any of whose calls may
-- fail, and the record `Platform` for the cipher, the source of random bytes and the success of each
-- call on the key file and on the file of the rotation's state.
--
-- Auth/ models veddb-core/src/auth: Auth/Operations.antt is `Operation` of rbac.rs and `Role` of
-- user.rs with their names, Auth/Rbac.antt is `RbacSystem` of rbac.rs, whose sets of operations are
-- lists and whose loops over access entries are recursion on them.
--
-- Document.antt models veddb-core/src/document.rs; a path is split at its dots, and the writer's walk
-- down to the parent of a field is a recursion that writes the changed object back on its way up.
--
-- Cache/ models veddb-core/src/cache: Cache/Lists.antt and Cache/Values.antt are the values of
-- data_structures.rs, Cache/Expiry.antt is `TtlManager` of ttl_manager.rs (the heap a list, its loop
-- with as many turns as entries), Cache/Eviction.antt is eviction.rs and Cache/Layer.antt is `CacheLayer`
-- of cache_layer.rs. What they take from the clock and from floating point is the record `Platform`.
--
-- Query/ models veddb-core/src/query: Query/Ast.antt is ast.rs, Query/Planner.antt the choice of an index
-- of planner.rs and index_selector.rs, Query/Filters.antt, Query/Values.antt and Query/Executor.antt
-- executor.rs. A query that fails answers `none`. What it takes from floating point, the hash maps' order and
-- the regular-expression package is the record `Engine`.
--
-- Index/ models veddb-core/src/index: Index/Keys.antt and Index/Tree.antt are btree.rs (the tree is the list of
-- its entries), Index/Manager.antt is manager.rs with the loop of builder.rs, and Index/Statistics.antt is
-- statistics.rs. The manager keeps its indexes by name; the executor calls it by the name that the planner
-- finds, and looks up the documents that it names.
--
-- Schema.antt models veddb-core/src/schema.rs: the fields of a schema in the order of their names.
--
-- Log.antt and Log/ model veddb-core/src/wal: Log.antt is entry.rs, Log/Reader.antt reader.rs, Log/Writer.antt
-- writer.rs and Log/Replay.antt replay.rs with the documents of storage/persistent.rs, as they are kept when
-- the third-party database is not built in. A reader's answers on a file are a list, which each caller walks
-- through; the loop has one turn more than the file has bytes, and each entry takes 8 bytes at least. The
-- JSON and checksum packages are the record `Codec`.
--
-- Not modelled: files, sockets, async tasks and ciphers; floating point beyond the record `Platform`; the
-- third-party database; the scores and costs of plans; the replication and the sessions.
--
-- Machine words are natural numbers with the reduction modulo 2^64 or 2^32 written out
-- (Prelude/Bytes.antt). A panic, a refusal or a missing value is `none`.
pub mod Prelude
pub mod Ring
pub mod Arena
pub mod Kv
pub mod PubSub
pub mod Protocol
pub mod Rotation
pub mod Auth
pub mod Document
pub mod Cache
pub mod Query
pub mod Schema
pub mod Log
pub mod Index
