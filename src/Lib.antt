-- ===== src/Lib.antt =====
-- Verification of pocket-db, an embedded document database that keeps its data in one append-only
-- file.
--
-- The program's parts. A database file is a header and a sequence of operation records, each with an
-- identifier, a length, a payload and a CRC-32 (src/storage). A replay of the records at the start
-- rebuilds the collections and their indexes; a write appends a record and updates the indexes and
-- the cache; a query is compiled, planned with the indexes (src/indexes), and evaluated on the
-- candidates (src/search), whose documents come from the file or from the cache (src/api).
--
-- What models what.
-- Prelude: lists, results and maps over the native numbers; Prelude.Bits on bit operations,
--   Prelude.Maps on JavaScript's Map as a list of entries in the order of insertion.
-- Storage.Buffers, Storage.Constants: what is used of node's Buffer; storage/constants.ts.
-- Storage.U29: storage/u29.ts, writeU29 of storage/encoding/write-buffer.ts, storage/padding.ts.
-- Storage.Crc32, Storage.OperationRecord: storage/crc32.ts, storage/operation-record.ts.
-- Storage.Os: readExact and writeAll of storage/file-storage.ts, over a file system.
-- Storage.FileStorage: the class FileStorage of storage/file-storage.ts; its children Open (open),
--   Append (appendOperation, readOperationAtOffset), Replay (readOperations and the recovery of a
--   torn tail) and Bulk (readBulkRange).
-- Storage.Payloads, Storage.CollectionOperation, Storage.DocumentOperation,
--   Storage.IndexOperation, Storage.DocumentId: the files of storage with these names.
-- Api.DocumentCache: api/document-cache.ts.
-- Api.Actions, Api.Host: actions on a state that may throw, which keeps what was done before the
--   throw; what the classes of src/api are given.
-- Api.Cursor: api/cursor.ts; Reading is how a candidate becomes a document, Pages a call of next,
--   Collected the calls of toArray.
-- Api.Collection: api/collection.ts; its children Writes (inserts, replacements, transactions, drops),
--   Indexing (createIndex and the rebuilding of indexes), Queries (find, count, distinct, updates and
--   deletions), Logged (what a write leaves in the log) and Found (find with its plan and cursor).
-- Api.Database: api/database.ts; Replay (the replay as one of groups of operations), Interrupted
--   (a transaction without its commit), Refinement (insertOne and its replay), Batch (insertMany when
--   the encoder throws), Compaction (compact and the statistics; its children Totals (what the
--   statistics add up to), Kept (what a compaction leaves in the file) and Conflict (a field that had
--   indexes of two types)).
-- Search.Values, Search.Queries, Search.Evaluate, Search.Sort: search/types.ts,
--   search/evaluate-query.ts, search/sort.ts. Search.Compile, Search.Update:
--   search/compile-query.ts, search/update-document.ts.
-- Indexes.Buckets, Indexes.StringIndex, Indexes.NumberIndex, Indexes.PrimaryIndex: the indexes of
--   src/indexes; Buckets is what the string and the number index do alike. Indexes.Manager:
--   indexes/index-manager.ts, with Plan (the choice of an index) and Unique (unique indexes).
-- Tests: the theorems at concrete inputs.
--
-- How state is modelled. A mutable object is a record, and a method returns the new record with its
-- result. The bytes of the file are part of the state of FileStorage, and `on_disk` is what the last
-- fsync made durable. A throw is an `err` with the constructor of its message. The generator of
-- readOperations is a step function on its variables. Documents in the cache are values, so that
-- structuredClone is the identity. The collections of a database are objects in a list, to which the
-- maps by name and by identifier point, since dropping one changes both maps; a collection is handed
-- its storage with each call, and onDrop is what the database does after the drop. The database reads
-- the whole log before it applies the operations: applying one writes nothing to the file.
-- Array.prototype.sort is a stable insertion sort.
--
-- What is a parameter. `Os` says how many bytes each call of readSync and writeSync moves: at least
-- one and at most all of those asked for that are there. `Utf8` and `DocumentEncoder` stand for the
-- conversion of strings and of documents, and `Host` gathers them; the random bytes of new identifiers
-- are lists, and a clock is the argument of $currentDate; `Js` and `RegExps` stand for regular
-- expressions, localeCompare and JSON.stringify. Numbers of documents are named by their place in ascending order; the two zeros
-- share one.
--
-- Bounds and fuel. Numbers are natural numbers; a value that must fit 8, 29 or 32 bits is checked
-- where the source checks it. readExact and writeAll get as many rounds as bytes, since each round
-- moves one at least; `fill` gets two rounds, since the first reads all that is missing or all that
-- remains; readOperations gets one round for each byte and one more; the binary search of
-- insertSorted gets one round for each value. That this is enough is part of the theorems on these
-- functions, whose results are never `stuck`. A call of next that returns a document passes a
-- candidate, so toArray gets one call for each candidate and one more.
--
-- Not modelled: the file lock, close, and the binary encoders AMF3 and BSON. Nor the JSON encoder,
-- which only calls the language, the path in the statistics of a database, the statistics of a
-- collection's cache and indexes, which only read fields, type declarations, re-exports, and
-- benchmarks.
pub mod Prelude
pub mod Storage
pub mod Api
pub mod Search
pub mod Indexes
pub mod Tests
