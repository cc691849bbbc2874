-- ===== src/Storage.antt =====
-- src/storage.cpp and include/xdl/storage.h: the database file. `disk` is the content of the file,
-- or empty where there is none yet. The calls of the operating system are taken not to fail; a
-- read behind the end of the file is the error that `safe_pread` throws.
pub mod Ranges
pub mod Blocks
use xdl.Prelude.{
  ℕ, zero, suc, ◌+◌, ◌%◌, ◌^◌, Bool, true, false, ◌||◌, not, Option, none, some, List, [], ◌∷◌,
  ◌++◌, Result, ok, err, io_error, corruption, length, drop, ltb, ◌==◌, if◌then◌else◌, ◌>>=◌,
}
use xdl.Bytes.{write_le, write_u8, write_u32, read_le, read_u8, read_u32}
use xdl.WalFormat.{word, word_at}
use xdl.RowCodec.{page_size}
use xdl.Schema.{Schema}
use xdl.SchemaCodec.{serialise_schema, deserialise_schema}

-- The first `n` bytes, if there are as many.
unfoldable pub take_exactly : ℕ → List ℕ → Option (List ℕ)
take_exactly zero bytes = some []
take_exactly (suc n) [] = none
take_exactly (suc n) (b ∷ bytes) = elim (take_exactly n bytes) [
  | none ↦ none
  | some bs ↦ some (b ∷ bs)
]

unfoldable pub overwrite : List ℕ → List ℕ → List ℕ
overwrite [] disk = disk
overwrite (b ∷ bs) [] = b ∷ overwrite bs []
overwrite (b ∷ bs) (x ∷ disk) = b ∷ overwrite bs disk

-- The file with the bytes written at the offset; a gap in front of them is filled with zeros.
unfoldable pub write_at : ℕ → List ℕ → List ℕ → List ℕ
write_at zero bs disk = overwrite bs disk
write_at (suc offset) bs [] = 0 ∷ write_at offset bs []
write_at (suc offset) bs (x ∷ disk) = x ∷ write_at offset bs disk

-- The loop of `safe_pread`, which goes on until all bytes are there.
unfoldable pub safe_pread : List ℕ → ℕ → ℕ → Result (List ℕ)
safe_pread disk count offset = elim (take_exactly count (drop offset disk)) [
  | none ↦ err io_error
  | some bs ↦ ok bs
]

-- Without bytes the loop of `safe_pwrite` makes no round.
unfoldable pub safe_pwrite : List ℕ → List ℕ → ℕ → List ℕ
safe_pwrite disk bs offset = if length bs == 0 then disk else write_at offset bs disk

-- `pad` is the three reserved bytes, as a number.
pub record DbHeader : Type 0 where
  pub magic : ℕ
  pub version : ℕ
  pub page_size : ℕ
  pub page_count : ℕ
  pub compression : ℕ
  pub pad : ℕ

abbrev pub db_header_size : ℕ
db_header_size = 20

abbrev pub xdl_magic : ℕ
xdl_magic = 0x58444C31

unfoldable pub db_header_bytes : DbHeader → List ℕ
db_header_bytes h =
    write_u32 h.magic
    ++ (write_u32 h.version
        ++ (write_u32 h.page_size
            ++ (write_u32 h.page_count ++ (write_u8 h.compression ++ write_le 3 h.pad))))

unfoldable pub db_header_of : List ℕ → DbHeader
db_header_of bytes = record {
  magic = word_at 0 bytes;
  version = word_at 4 bytes;
  page_size = word_at 8 bytes;
  page_count = word_at 12 bytes;
  compression = word (read_le 1 (drop 16 bytes));
  pad = word (read_le 3 (drop 17 bytes));
}

pub record PageHeader : Type 0 where
  pub page_id : ℕ
  pub compressed_size : ℕ
  pub uncompressed_size : ℕ
  pub row_count : ℕ
  pub compression_type : ℕ
  pub pad : ℕ

abbrev pub page_header_size : ℕ
page_header_size = 20

unfoldable pub page_header_bytes : PageHeader → List ℕ
page_header_bytes h =
    write_u32 h.page_id
    ++ (write_u32 h.compressed_size
        ++ (write_u32 h.uncompressed_size
            ++ (write_u32 h.row_count ++ (write_u8 h.compression_type ++ write_le 3 h.pad))))

unfoldable pub page_header_of : List ℕ → PageHeader
page_header_of bytes = record {
  page_id = word_at 0 bytes;
  compressed_size = word_at 4 bytes;
  uncompressed_size = word_at 8 bytes;
  row_count = word_at 12 bytes;
  compression_type = word (read_le 1 (drop 16 bytes));
  pad = word (read_le 3 (drop 17 bytes));
}

pub record Storage : Type 0 where
  pub exists : Bool
  pub is_open : Bool
  pub disk : List ℕ
  pub compression : ℕ

unfoldable pub read_db_header : Storage → Result DbHeader
read_db_header s = do
  bytes ← safe_pread s.disk db_header_size 0
  let hdr = db_header_of bytes
  if hdr.magic == xdl_magic then ok hdr else err corruption

unfoldable pub write_db_header : Storage → DbHeader → Storage
write_db_header s hdr = record s { disk = safe_pwrite s.disk (db_header_bytes hdr) 0 }

abbrev pub fresh_header : ℕ → DbHeader
fresh_header compression = record {
  magic = xdl_magic;
  version = 1;
  page_size = page_size;
  page_count = 0;
  compression = compression;
  pad = 0;
}

unfoldable pub open_storage : Storage → Storage
open_storage s =
    if s.is_open
    then s
    else if s.exists
    then record s { is_open = true }
    else record (write_db_header (record s { exists = true; disk = [] })
        (fresh_header s.compression)) { is_open = true }

unfoldable pub close_storage : Storage → Storage
close_storage s = record s { is_open = false }

unfoldable pub read_page_raw : Storage → ℕ → Result (PageHeader × List ℕ)
read_page_raw s offset = do
  bytes ← safe_pread s.disk page_header_size offset
  let header = page_header_of bytes
  blob ← safe_pread s.disk header.compressed_size (offset + page_header_size)
  ok (header, blob)

unfoldable pub append_page_raw : Storage → PageHeader → List ℕ → Storage × ℕ
append_page_raw s header blob =
    let offset = length s.disk in
    (
      record s {
        disk =
            safe_pwrite (safe_pwrite s.disk (page_header_bytes header) offset) blob
              (offset + page_header_size);
      },
      offset,
    )

unfoldable pub overwrite_page_raw : Storage → ℕ → PageHeader → List ℕ → Storage
overwrite_page_raw s offset header blob = record s {
  disk = safe_pwrite s.disk (page_header_bytes header ++ blob) offset;
}

abbrev pub file_size : Storage → ℕ
file_size s = length s.disk

unfoldable pub write_schema : Storage → Schema → Storage
write_schema s schema =
    let bytes = serialise_schema schema in
    let disk = safe_pwrite s.disk (write_u32 (length bytes % 2 ^ 32)) db_header_size in
    record s { disk = safe_pwrite disk bytes (db_header_size + 4) }

unfoldable pub read_schema : Storage → Result Schema
read_schema s = do
  bytes ← safe_pread s.disk 4 db_header_size
  let len = word_at 0 bytes
  if (len == 0) || ltb 65536 len
      then err corruption
      else do block ← safe_pread s.disk len (db_header_size + 4); deserialise_schema block

abbrev schema_end : Option (List ℕ) → ℕ
schema_end none = db_header_size
schema_end (some bytes) =
    if ltb 65536 (word_at 0 bytes) then db_header_size else db_header_size + 4 + word_at 0 bytes

unfoldable pub data_start_offset : Storage → ℕ
data_start_offset s = schema_end (take_exactly 4 (drop db_header_size s.disk))
