-- ===== src/Wal.antt =====
-- src/wal.cpp and include/xdl/wal.h: the write-ahead log. `disk` is the content of the log file,
-- `durable` its content at the last fsync. The calls of the operating system are taken not to fail.
pub mod Logged
pub mod Fresh
pub mod Recovery
pub mod Sync
use xdl.Prelude.{
  ℕ, zero, suc, ◌+◌, ◌-◌, ◌*◌, ◌%◌, ◌^◌, Bool, true, false, List, [], ◌∷◌, ◌++◌, Result, ok, err,
  fault, io_error, length, drop, replicate, ltb, leb, ◌==◌, if◌then◌else◌,
}
use xdl.Bytes.{write_u32, write_u64}
use xdl.RowCodec.{page_size}
use xdl.WalFormat.{
  RecordType, insert, commit, checkpoint, delete, WalRecord, compute_crc, encode_record,
  parse_record, parse_loop,
}

pub record Wal : Type 0 where
  pub is_open : Bool
  pub disk : List ℕ
  pub durable : List ℕ
  pub write_buf : List ℕ
  pub buf_dirty : Bool
  pub current_offset : ℕ

abbrev pub wal_header_size : ℕ
wal_header_size = 32

abbrev pub wal_buffer_size : ℕ
wal_buffer_size = 256 * 1024

-- magic(8) + version(4) + page_size(4) + checksum of the first 12 bytes(4) + pad(12).
unfoldable pub wal_header : List ℕ
unfolding compute_crc write_u64 write_u32
wal_header =
    let front = write_u64 0x57414C31 ++ write_u32 1 in
    front ++ (write_u32 page_size ++ (write_u32 (compute_crc front) ++ replicate 12 0))

-- `xdl_fsync`.
abbrev pub fsync : Wal → Wal
fsync w = record w { durable = w.disk }

-- The branch of `open()` on the size of the file: an empty one gets the header.
unfoldable pub open_file : Wal → Wal
unfolding wal_header
open_file w =
    if length w.disk == 0
    then fsync (record w { disk = wal_header; current_offset = wal_header_size; is_open = true })
    else record w { current_offset = length w.disk; is_open = true }

unfoldable pub open_wal : Wal → Wal
unfolding open_file
open_wal w = if w.is_open then w else open_file w

-- The cast of the buffer's size to 32 bits loses nothing: what `write_record` leaves in the buffer
-- is at most `wal_buffer_size` bytes or a single record, which is shorter than 2^32 bytes.
unfoldable pub flush_write_buffer : Wal → Wal
flush_write_buffer w = if length w.write_buf == 0 then w else record w {
  disk = w.disk ++ w.write_buf;
  current_offset = w.current_offset + length w.write_buf;
  write_buf = [];
  buf_dirty = true;
}

unfoldable pub fsync_if_dirty : Wal → Wal
fsync_if_dirty w = if w.buf_dirty then record (fsync w) { buf_dirty = false } else w

unfoldable pub ensure_buffer_space : Wal → ℕ → Wal
unfolding flush_write_buffer
ensure_buffer_space w needed =
    if ltb wal_buffer_size (length w.write_buf + needed) then flush_write_buffer w else w

-- `record_size`, from the length of the payload; both sums are of 32 bits.
unfoldable pub record_size : ℕ → ℕ
record_size payload_len = (4 + (17 + payload_len) % 2 ^ 32) % 2 ^ 32

-- The record goes to the buffer; the result is its offset in the file. The buffer grows by
-- `record_size` bytes, and a `memcpy` of more bytes than that is a fault.
unfoldable pub write_record : Wal → WalRecord → Result (Wal × ℕ)
unfolding record_size
write_record w r =
    if w.is_open
    then (let w' = ensure_buffer_space w (record_size (length r.row_data)) in
        if ltb (record_size (length r.row_data)) (length (encode_record r))
        then fault
        else ok (
          record w' { write_buf = w'.write_buf ++ encode_record r },
          w'.current_offset + length w'.write_buf,
        ))
    else err io_error

unfoldable pub sync : Wal → Wal
sync w = if w.is_open then fsync_if_dirty (flush_write_buffer w) else w

abbrev sync_if : Bool → Result (Wal × ℕ) → Result (Wal × ℕ)
sync_if true (ok (w, offset)) = ok (sync w, offset)
sync_if _ r = r

-- `log_insert`; `log_insert_direct` has the same body.
unfoldable pub log_insert : Wal → ℕ → ℕ → ℕ → List ℕ → Bool → Result (Wal × ℕ)
unfolding write_record sync
log_insert w row_id page_id row_slot row_data sync_now = sync_if sync_now (
    write_record w (record {
      type = insert;
      row_id = row_id;
      page_id = page_id;
      row_slot = row_slot;
      row_data = row_data;
    }))

-- A record without a payload.
abbrev pub marker : RecordType → ℕ → ℕ → ℕ → WalRecord
marker type row_id page_id row_slot = record {
  type = type;
  row_id = row_id;
  page_id = page_id;
  row_slot = row_slot;
  row_data = [];
}

unfoldable pub log_delete : Wal → ℕ → ℕ → ℕ → Bool → Result (Wal × ℕ)
unfolding write_record sync
log_delete w row_id page_id row_slot sync_now =
    sync_if sync_now (write_record w (marker delete row_id page_id row_slot))

unfoldable pub log_commit : Wal → Result (Wal × ℕ)
unfolding write_record
log_commit w = write_record w (marker commit 0 0 0)

abbrev flush_and_fsync : Result (Wal × ℕ) → Result (Wal × ℕ)
flush_and_fsync (ok (w, offset)) = ok (fsync_if_dirty (flush_write_buffer w), offset)
flush_and_fsync r = r

unfoldable pub log_checkpoint : Wal → Result (Wal × ℕ)
unfolding write_record flush_write_buffer fsync_if_dirty
log_checkpoint w = flush_and_fsync (write_record w (marker checkpoint 0 0 0))

unfoldable pub close : Wal → Wal
close w = if w.is_open then record (flush_write_buffer w) { is_open = false } else w

-- A removed file is an empty one to the `open` that follows.
unfoldable pub clear : Wal → Wal
unfolding close open_wal
clear w = open_wal (record (close w) { disk = []; durable = [] })

-- The read loop asks for the bytes that are left as a number of 32 bits: from 2^32 bytes on, a round
-- comes that asks for none, and nothing is returned.
unfoldable pub replay : Wal → Result (Wal × List WalRecord)
replay w =
    if w.is_open
    then (let w' = fsync_if_dirty (flush_write_buffer w) in
        if ltb (length w'.disk) wal_header_size
        then ok (w', [])
        else if leb (2 ^ 32) (length w'.disk - wal_header_size)
        then ok (w', [])
        else ok (w', parse_loop (length w'.disk) (drop wal_header_size w'.disk)))
    else err io_error
