-- ===== src/Lib.antt =====
-- Verification library of bittice, an embedded analytical store in Rust with bitmap indexes.
--
-- The program keeps each table as segments of rows. For every indexed field an exact index maps the
-- hash of a value to the rows that have it, a bitmap for each segment. The table engine inserts and
-- merges values into the index, purges the segments that compaction has dropped, and saves the index
-- at a checkpoint. A lookup consults the pending changes, a cache, and the snapshot file. A primary
-- index maps the hash of a key to its row, a write-ahead log records what is not in the files yet and
-- is replayed after a crash, and queries compute fields from expressions. A query over several tables
-- fetches the rows of each with the filters on it, and joins them by a hash index. Change data capture
-- mirrors the tables of a MySQL server; the server limits the concurrent joins and keeps responses.
--
-- Files, and the code that they are about:
-- - Prelude: tests on numbers, lists with native lengths, results of fallible functions, and
--   association lists, which stand for the hash maps of the source.
-- - Bytes: little-endian byte strings of fixed-width integers.
-- - Canonical: src/core/storage/canonical.rs and the hash of a value. The crates for Unicode
--   normalization and xxh3 are the record Text, with their documented behaviour in IsUnicode.
-- - Snapshot: src/core/storage/exact_index_v3. Format, Writer and Reader hold format.rs, writer.rs
--   and reader.rs, a function for each function there; a file is the list of its bytes. Layout,
--   Written, Decoded and Contents say what the writer produces and what the reader finds in it.
--   Sorted and Search are about the binary search, RoundTrip joins both halves, and Corrupt is about
--   files that the writer did not produce. The crate bincode is the record Bincode.
-- - ExactIndex: src/core/storage/exact_index.rs. The record ExactIndex is the struct. Delta holds the
--   crate lru as a record with its laws, and the entries of the delta. View says which
--   map an index stands for, Update is about insert and merge_segment, Purge about purge_segments,
--   and Save, Merge and Saved about save and the merged stream that it writes.
-- - PrimaryIndex: src/core/storage/primary_index.rs, and File for primary_index_io.rs. Keys is about the
--   map on keys, and Files about loading what was saved and the older versions of the file.
-- - Wal: src/core/storage/wal.rs. The record Wal is what the buffered writer holds and what is in the
--   file; Steps is the relation of its operations and of the writer emptying any part of its buffer,
--   Replay says what the bytes up to some cut give back, and Crash what any sequence of steps leaves.
-- - Bitmaps: the crate roaring as a record, with its laws.
-- - Dates: src/core/date_utils.rs. Filter: src/core/types.rs, the operators and the comparison of a
--   value with a filter; what the standard library knows of Unicode and floats is the record StdText.
--   Laws is about pairs of operators and their names.
-- - Segment: src/core/storage/segment.rs. The records Segment and SegmentWriter are the structs, with the
--   values of each column as the texts that its files hold. Rows is about append_record, Order about the
--   order of texts, Search about what a search finds, Skip about the ranges of columns by which it skips
--   a segment, Cached is the search by the files of bitmaps, with the cache of bitmaps that it changes, and
--   Files about it, and Cache about the cache of mapped files.
-- - Table: src/core/storage/table.rs. The record Table is the struct, without the caches, and with the
--   fields of the manifest that its operations read. Keys is about primary keys, Rows and Live about what a
--   new row changes, Tombstone and Flush about the steps of the operations, Changes, Updates, Removal and
--   Deletes about insert and delete, and Recovery is the replay of the log, and Rotation the sealing of the
--   active segment.
-- - Column: append_record and read_value_from_mmap of src/core/storage/segment.rs, on the two files of
--   one column. A text is a parameter with its bytes; Cells is the round trip.
-- - Expression: src/core/expression.rs. The expressions and evaluate; Tokens is the tokenizer and Parser
--   the parser; Value, Concat and Positions are about them. The machine's floats are the record Float.
-- - Query: src/core/join_query.rs. The types, the keys of a join and the filters on joined rows; Join is
--   the index of the fetched rows and the join, NestedLoop about it; Window is the early window and the
--   page, Pushdown the filters that the fetch gets, with Rejected and Kept about them, Needed the fields of
--   a tree of filters, Lookup the lookups of a join and their merging, with Coalesced about it and about
--   the searches of a segment for them; Fields reads fields and parameters and Resolve the joins of a saved
--   query, with Qualified and Connected about them. The rows that a fetch returns are a parameter.
-- - Cdc: src/core/cdc/mod.rs. Gtid is the sets of executed transactions and Merged about them, Quoting the
--   texts of SQL, with the lexer of the server as a parameter that has MySQL's documented laws, and Names
--   the names of tables and schemas in events, with Found about them.
-- - Runtime: shared state. Gate is src/core/join_concurrency.rs as a step relation, and Served about it;
--   ResponseCache is src/server/response_cache.rs, and Cached about it.
-- - Tests: small concrete crates, runs of the definitions, and the theorems at concrete inputs.
--
-- Integers: u64 and usize sums are written with their wrap-around where the code adds without a check,
-- and as options where it uses checked_add and checked_mul, for the release build on a 64-bit machine.
-- The binary search runs on fuel, the number of entries; a round shrinks its range, so that is enough;
-- without fuel it is a panic, and not a hash that was not found.
-- Replay runs on fuel, the length of the file; a round reads eight bytes or stops, so that is enough.
-- The parser of expressions runs on fuel, one more than the tokens; a call without fuel and a round that
-- is not expected are panics, which Expression.Positions excludes. Every other loop is structural
-- recursion on the items that it goes through.
--
-- A crate is lawful if it behaves as it documents: what was serialized is deserialized to the same value,
-- a cache returns only what was put into it, a bitmap holds the rows that were inserted. These records of
-- laws are hypotheses of the theorems, and the crates in Tests meet them.
--
-- A panic is a value of Result of its own, so that a theorem can exclude it. Log lines are left out; the
-- writer counts its warnings about unsorted input. Reads and writes of files do not fail in the model:
-- no error of the operating system is modelled, nor temporary files, directories and their creation.
--
-- A text is the list of its UTF-8 bytes, so that a text is compared, searched and cut by bytes, as in the
-- source; in Column it is a parameter with its bytes.
--
-- Not modelled: opening an exact index of an older version, len and segment_ids of the exact index,
-- loading segments and tables from their directories, update with its reconciliation and the
-- compaction of a table, its search over segments, queries over one table, the computed fields and the
-- aggregations of queries over several tables, the replication from the database server, and the server,
-- shell and configuration around them.
pub mod Prelude
pub mod Bytes
pub mod Canonical
pub mod Snapshot
pub mod ExactIndex
pub mod PrimaryIndex
pub mod Wal
pub mod Bitmaps
pub mod Cdc
pub mod Column
pub mod Dates
pub mod Expression
pub mod Filter
pub mod Query
pub mod Runtime
pub mod Segment
pub mod Table
pub mod Tests
