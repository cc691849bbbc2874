-- ===== src/Wal/Fresh.antt =====
-- A log that was created or cleared.
use xdl.Prelude.{◌≡◌, refl, true, false, List, [], append-nil}
use xdl.WalFormat.{WalRecord}
use xdl.WalFormat.Logs.{encode_all}
use xdl.Wal.{Wal, wal_header, wal_header_size, fsync, open_wal, close, clear}
use xdl.Wal.Logged.{Logs, flush_write_buffer-Logs}
use xdl.Wal.Sync.{length-wal_header}

-- `open` of an empty file writes the header, and the log holds no record.
pub open_wal-Logs :
    (w : Wal) → w.is_open ≡ false → w.disk ≡ [] → w.write_buf ≡ [] → Logs (open_wal w) []
open_wal-Logs w closed nothing no_buffer = rw opens (record {
  opened = refl;
  fit = tt;
  safe = [];
  unsynced = [];
  buffered = [];
  split = refl;
  on_disk = unfold encode_all in rw append-nil;
  in_buffer = unfold encode_all in no_buffer;
  offset = rw length-wal_header;
  durable = unfold encode_all in rw append-nil;
  clean = λ h. refl;
})
  where
    opens :
        open_wal w
        ≡ fsync (record w { disk = wal_header; current_offset = wal_header_size; is_open = true })
    opens = unfold open_wal in simp closed (simp nothing)

-- `clear` empties any open log: it holds no record, and is open again.
pub clear-Logs : (w : Wal) (rs : List WalRecord) → Logs w rs → Logs (clear w) []
clear-Logs w rs l =
    unfold clear in open_wal-Logs (record (close w) { disk = []; durable = [] }) closes refl flushed
  where
    closes : (close w).is_open ≡ false
    closes = unfold close in simp l.opened

    flushed : (close w).write_buf ≡ []
    flushed = unfold close in simp l.opened (flush_write_buffer-Logs l).1
