-- ===== src/Lib.antt =====
-- Drusdenx is an embedded full-text search engine. A writer turns documents into segments and logs its
-- operations; the controller of versions publishes snapshots, which are lists of segments with a set of
-- deleted documents; a reader parses a query, validates, plans and optimizes it, and matches the
-- documents of a snapshot against it. Inverted lists of document ids are stored in compressed blocks,
-- and are intersected and united.
--
-- Which file models which part, with paths from the root of the repository:
--
--   Compression/VByte, Delta, IntegerBlock: src/compression/vbyte.rs, delta.rs and the integer blocks of
--     compress.rs. A byte is a number below 256, and the output of an encoder is a list of bytes. The
--     encoder's loop recurs on the value; the decoders of lists have one round of fuel for each byte,
--     which is enough since each round consumes a byte.
--   Index/Posting, SkipList: src/index/posting.rs and src/index/skiplist.rs. A posting list holds its ids
--     and positions in integer blocks. `intersect` has one round of fuel for each document of the two
--     lists, which is enough since each round moves past one.
--   Simd: the sorted-array operations of src/simd/operation.rs, with the galloping in chunks of eight.
--   Storage: the records of src/storage/segment.rs and src/core/types.rs that other parts use, and the
--     bitmap of the roaring crate as an interface. Storage/MergePolicy: the tiered policy of
--     src/storage/merge_policy.rs.
--   Mvcc: src/mvcc/controller.rs. The map of versions is a list in the order of its keys. References to
--     snapshots from outside are an argument of the garbage collection. Threads has the two halves of the
--     creation of a snapshot as steps of their own, which other threads interleave.
--   Query/Ast, Validator, Parser, Planner, Optimizer, Matcher: src/query, and the part of
--     src/search/executor.rs that rewrites a query. A text is a list of code points; floating-point
--     numbers are a type parameter. The matcher's tests on the text of a field are an argument.
--   Transaction: src/core/transaction.rs. What a snapshot holds is an argument, since the storage layer
--     reads it from segment files.
--   Writer: the three phases of src/writer/session.rs, each a type of its own. The log is the list of its
--     operations, with its position in bytes and how many are synced.
--   Writer/Index: src/writer/index_writer.rs with the segment writer of src/storage/segment_writer.rs,
--     over that log and the controller of Mvcc. Contents says what a writer holds: the documents of the
--     files of its current segments, then those of the segment that it fills. Compact has
--     the rewriting of segments, and runs the merging thread at once. Writer/Batch: src/writer/batch.rs,
--     over the index writer.
--   Storage/Frame, Wal, Checkpoint: the log file of src/storage/wal.rs as its bytes, and its replay from
--     the checkpoints of src/storage/checkpoint.rs. The bincode crate is an interface. Reading has one
--     round of fuel more than the file has bytes, which is enough since each round reads four of them.
--     A log has whether its file was opened for reading, which `WAL::open` does not do.
--   Memory: the counter and the blocks of src/memory/pool.rs, and the pages of src/memory/swap.rs over
--     the lz4 crate as an interface.
--   Engine: src/core/engine.rs over the index writer, the log, transactions and the memory counter:
--     recovery from logs, and transactions from their start to the flush of their documents.
--   Index/Inverted: src/index/inverted.rs over Index/Posting and Simd. Its hash maps are lists with each
--     key once, and the norms and skip intervals, which come from square roots, are functions given as
--     arguments. Lists, Round, Build and Documents follow the postings of every term from one round of
--     the loop over a document's terms to a whole series of documents.
--   Search/Fuzzy: the edit distances of src/core/utils.rs and src/search/fuzzy.rs, a row at a time, and
--     the test of a candidate over the automaton as an argument.
--   Search/TopK: the collector of src/search/results.rs. Its heap is a list in the order of `pop`, and
--     scores are compared by an argument, which the theorems relate to the order of ranks.
--   Reader/Pool: the caches of src/reader/reader_pool.rs. The opening of a segment file is an argument,
--     and so is the current snapshot, which the controller of Mvcc gives.
--
-- A run that an index out of range stops is the outcome `panic` of Prelude/Results. Numbers are cut to
-- their width where the source does it.
--
-- Not modelled: the layout of segment files, the files of the inverted index and their caches, the
-- search of a reader, the index of prefixes, wildcard and fuzzy searches over the dictionary,
-- floating-point scores and the reports that are computed with them, text analysis, and the threads of
-- src/parallel. Locks are held for a whole operation there, or are the subject of Mvcc/Threads. That the
-- file system does what it is asked to is assumed, apart from the end of a file that a crash cut off.
pub mod Prelude
pub mod Compression
pub mod Index
pub mod Simd
pub mod Storage
pub mod Memory
pub mod Mvcc
pub mod Query
pub mod Transaction
pub mod Writer
pub mod Engine
pub mod Search
pub mod Reader
