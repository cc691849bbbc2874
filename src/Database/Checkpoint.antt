-- ===== src/Database/Checkpoint.antt =====
-- A checkpoint moves everything from the cache to the file and empties the log.
use xdl.Prelude.{ℕ, ◌<◌, ◌≡◌, ◌∙◌, List, [], ok}
use xdl.Row.{Row}
use xdl.Storage.{DbHeader, read_db_header}
use xdl.Storage.Blocks.{DbHeaderFits}
use xdl.Compression.{Lz4}
use xdl.WalFormat.{WalRecord}
use xdl.Wal.{clear}
use xdl.Wal.Logged.{Logs}
use xdl.Wal.Fresh.{clear-Logs}
use xdl.Pager.Blocks.{IsOnDisk}
use xdl.Pager.FlushAll.{flush_all-IsOnDisk}
use xdl.Database.{Db}
use xdl.Database.Lifecycle.{checkpoint}
use xdl.Database.Map.{IsDb, while_open}

module _ (z : Lz4) (db : Db) (pages : ℕ → List Row) (k : IsDb z db pages) where
  -- In a well-formed open database whose pages are stored without compression, over a file that has a
  -- header whose fields fit their widths, and with a well-formed log, `checkpoint` returns; then every
  -- page is in the file with the rows that it stands for, the header has the number of pages, and the
  -- log is open and empty.
  pub checkpoint_lem :
      (hdr : DbHeader) (rs : List WalRecord)
      → Logs db.wal rs
      → read_db_header db.pager.storage ≡ ok hdr
      → DbHeaderFits (record hdr { page_count = db.pager.next_page_id })
      → (db' : Db) × (checkpoint z db ≡ (db', ok tt))
        × (read_db_header db'.pager.storage
            ≡ ok (record hdr { page_count = db.pager.next_page_id }))
        × ((id : ℕ)
            → id < db.pager.next_page_id
            → IsOnDisk z db.schema db'.pager.storage db'.pager.page_offsets id (pages id))
        × Logs db'.wal []
  unfolding checkpoint
  checkpoint_lem hdr rs logs read fits =
      let (g, flushed, next, header, on_disk) =
        flush_all-IsOnDisk z db.schema pages db.pager hdr k.serving read fits in
      (
        record db { pager = g; wal = clear db.wal },
        while_open _ db k.opened ∙ rw flushed,
        header,
        on_disk,
        clear-Logs db.wal rs logs,
      )
