-- ===== src/Lib.antt =====
-- A disk cache of Regions: cache2/src. Values are written as records into fixed-size Regions of a
-- file, in append order; the Regions rotate through free, active and sealed, and old ones are
-- reclaimed. A memory tier in front of it chooses victims by CLOCK or S3-FIFO.
--
-- Base, Bits, Checked and Outcome are shared: lists over the native numbers, masks and shifts, results
-- of functions that change nothing, and methods that change a state and may fail. A method of the
-- source that takes `&mut self` and returns a `Result` is a function from a state to an `Outcome`,
-- which holds the state also where the method fails. Where a panic is possible and nothing else can fail, the model returns an `Option`.
--
-- Manager models the Region manager, cache2/src/region/manager.rs. Manager.State has its data;
-- Append, Flush, Rotation and Reclaim its methods, in the order of a record's life: a reservation, a
-- staged span, a padded and submitted span, a completed one, the rotation of a full Region and its
-- reclaim. Valid is the invariant, Run any sequence of calls. The modules named after a method and
-- `Keeps` show that the method keeps the invariant. The manager's lock makes each call atomic, so
-- that threads are a sequence of calls. Recover models the manager from and to metadata, of which
-- FromMetadata has the recovered manager's invariant; Snapshot has its counts. Metadata asks for
-- whole records where the invariant asks for whole pages, which is why the whole pages are a hypothesis.
--
-- Metadata models cache2/src/region/recovery/metadata.rs: Data the records, Validate the checks, Rebind
-- the change of the count of append shards. The encoding of its pages is left out.
--
-- Index models the division of the index image into partitions, cache2/src/region/index/storage/mod.rs. A
-- count of partitions is at most 4096, so that its halving takes 12 rounds at most. Slot is the word of
-- a slot and Stats the counts of slots in the same file.
-- Lookup has the candidate slots of a hash and their search, cache2/src/region/index/mod.rs; it reads the
-- slots through a function, since the storage is not modelled.
--
-- Hashing models cache2/src/hashing.rs: Map the directory of prehashed keys, Circle the distances of its
-- probes, Probe its invariant, Insert, Compact and Remove its operations under it, Refine and Trace its view
-- as a finite map from fingerprints to values; Route the routing of hashes. The loops' counters
-- are the counts of the source's loops.
--
-- Packed models cache2/src/region/index/packed.rs: Location the word that holds a record's place,
-- SizeClass the byte that stands for its length.
--
-- Record models the records: Codec the fields of cache2/src/codec.rs, Header the header of
-- cache2/src/region/record/mod.rs, Encode the encoding of cache2/src/region/record/codec.rs, which
-- takes a reservation of the manager and makes a location of Packed. The checksum is a third
-- party's: it is a parameter, of which only the width is assumed, where it is needed.
--
-- Eviction models cache2/src/memory/eviction.rs: Slot the flag byte, Clock the CLOCK policy, Queue the
-- linked queues and Fifo the victim scan of S3-FIFO, Policy the state that holds one
-- of the two. A scan's fuel is the count of the source's own loop. A debug assertion that fails counts as
-- a panic here, as it is one where debug assertions are on. The ghost queue is left out.
--
-- Fill models cache2/src/io/fill_control.rs. Credit is the packed credit word and what one round of a loop
-- computes. Threads runs the loops of several threads, where each event is one atomic exchange, or the
-- load before the first one, so that an event list is an interleaving; a refill whose exchange of the time
-- fails changes nothing and is no event. Budget, Pace and Rate show what is granted. Pressure has the
-- pauses, the admission and the observations, as methods that take effect at once; Observed and
-- ObservedKeeps have their invariant, Held and Stopped the runs of these methods.
--
-- Numbers are natural; a wrap-around, a saturation or an overflow check of the source is written
-- out, and `usize` has 64 bits; allocations succeed. Debug assertions are
-- modelled in Eviction only. Not modelled: threads, files, system calls, the index's updates, the
-- encoding of recovery files, the cache's runtime and its configuration.
pub mod Base
pub mod Bits
pub mod Checked
pub mod Eviction
pub mod Fill
pub mod Hashing
pub mod Index
pub mod Manager
pub mod Metadata
pub mod Outcome
pub mod Packed
pub mod Record
