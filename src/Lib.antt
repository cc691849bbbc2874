-- ===== src/Lib.antt =====
-- xdl: a model of the storage core of an embedded database, with proofs.
--
-- The program keeps rows of typed fields in pages, finds them through a primary index by id and
-- secondary indexes by field value, and makes changes durable with a write-ahead log. The files:
--
-- * Schema, Row (include/xdl/types.h): field types, schemas and rows.
-- * Bytes (namespace serialise of include/xdl/page.h): little-endian numbers.
-- * RowCodec (src/page.cpp): the size of a row (`row_byte_size`) and the switches of
--   `Page::append_row` and `Page::get_row` that write and read its fields.
-- * Page (include/xdl/page.h, src/page.cpp, `rebuild_row_offsets` of src/pager.cpp): the byte buffer
--   and the offsets. `Holds` is the abstract page: the list of its rows.
-- * SortedPairs, Index (include/xdl/index.h): `IndexManager`. `view` is the abstract index, a map
--   from ids to entries, and `IsValid` the invariant of the vector, the buffer, the hash set and
--   the ids of the pages.
-- * Keys, BpTree (src/bptree.cpp): the order-preserving keys, and `BPTree`, a sorted vector.
-- * WalFormat, Wal (src/wal.cpp): the record format with its checksum, and `WAL`. `Logs` is the
--   abstract log: the records that are durable, those in the file and those in the write buffer.
-- * SchemaCodec, Migrate (src/migrate.cpp): the schema block, and the migration of a row.
-- * Cache (src/cache.cpp): the page cache, with its eviction callback as a parameter.
-- * Storage (src/storage.cpp): `StorageEngine`, the file as the list of its bytes: the header, the
--   schema block and the blocks of the pages.
-- * Compression (src/compression.cpp): `CompressionEngine`. The functions of LZ4 are a parameter, the
--   record `Lz4`, of which nothing is assumed.
-- * Pager (src/pager.cpp): `Pager`, with the file and the primary index in its state. `IsServing` is
--   the abstract pager, a map from page ids to lists of rows, wherever the pages are kept. The proofs
--   about blocks in the file are in Pager/Blocks, those about eviction in Pager/Serves.
-- * Database (class DB of include/xdl/db.h, src/db.cpp): Database/Writes has the methods that change
--   rows and the lookups, Database/Scans those that read many rows, Database/Lifecycle opening,
--   closing and the replay of the log. `row_of` is the abstract database, a map from ids to rows.
-- * ScanFilter (struct ScanFilter of include/xdl/db.h, src/db.cpp): `matches` and `matches_raw`. The
--   comparisons of floats are parameters.
--
-- Tests holds runs at concrete inputs, Prelude the Boolean tests, lists, results, texts and
-- integers that the components share.
--
-- Every component is a pure function of its state. A call that throws returns `err` with the kind
-- of the exception; undefined behaviour, such as a read outside a buffer, is the value `fault`, so
-- a theorem that a call returns `ok` shows that it does not occur. Numbers are naturals and keep
-- the wrap-around of their C++ types; bytes are numbers, and floats are their bit patterns. Maps
-- and sets without an order (`unordered_map`, `unordered_set`) are lists used as maps and sets.
-- A method of the pager or of the database is a `Call` of Prelude/Calls, from a state to a state and a
-- result: what it changed before it threw stays changed.
-- The one function on fuel is `parse_loop`, the loop of `WAL::replay`: the fuel is the length of
-- the file, and every record takes at least one byte of it.
--
-- A block of LZ4 can be longer than its source, and so than its slot, and then overwrites the next page.
-- The write of one page (Pager/Blocks) is therefore for a page whose block fits its slot, `FitsSlot`,
-- with either type of compression; the proofs about the pager and the database are for files whose
-- pages are stored without compression, which `IsServing` and `IsDb` have as a condition. The definitions
-- have both types; the sizes that LZ4 gets are cut to the 32 bits of `int`.
--
-- The log has the limits of the code's 32-bit sizes: `write_record` of a record of 2^32 bytes or more is
-- a `fault`, since the buffer grows by the size that has wrapped around, and `replay` of 2^32 bytes of
-- records or more returns none. The theorems have the bounds as hypotheses. `Logs` is the state of a log
-- that was opened on a new or a whole file; behind a torn record, which `open` does not cut off,
-- nothing is read.
--
-- In the log, `disk` is the content of the file and `durable` its content at the last fsync; a
-- crash keeps some prefix of `disk` that is at least as long as `durable`. The calls of the
-- operating system are taken not to fail, and memory to suffice.
--
-- Not modelled: the bundled replacement of the LZ4 library, the memory-mapped file, and the
-- command-line tool, which is input and output. A method of DB holds its lock from its first to its
-- last step, so the locks and the sharing of pages between readers are left out, and so are the
-- statistics counters.
pub mod Prelude
pub mod Bytes
pub mod Schema
pub mod Row
pub mod RowCodec
pub mod Page
pub mod SortedPairs
pub mod Index
pub mod Keys
pub mod BpTree
pub mod WalFormat
pub mod Wal
pub mod SchemaCodec
pub mod Migrate
pub mod Cache
pub mod ScanFilter
pub mod Storage
pub mod Compression
pub mod Pager
pub mod Database
pub mod Tests
