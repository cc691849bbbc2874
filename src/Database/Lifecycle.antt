-- ===== src/Database/Lifecycle.antt =====
-- The methods of DB that open, close and checkpoint, and the replay of the log.
use xdl.Prelude.{
  ℕ, ◌+◌, ◌-◌, ◌^◌, Bool, true, false, ◌&&◌, Option, none, some, List, [], ◌∷◌, Result, ok, err,
  fault, Error, invalid_argument, out_of_range, bad_variant_access, migration_error, corruption,
  length, ltb, ◌==◌, not, if◌then◌else◌,
}
use xdl.Prelude.Calls.{Call, return, lift, ◌>>=◌, ◌>>◌}
use xdl.Schema.{Schema}
use xdl.Page.{Page, append_row, erase_row, get_row}
use xdl.SortedPairs.{IndexEntry}
use xdl.Index.{empty_index, insert, find, remove, size}
use xdl.BpTree.{insert as tree_insert}
use xdl.Compression.{Lz4}
use xdl.Cache.{cache_size}
use xdl.Storage.{
  Storage, DbHeader, db_header_size, open_storage, close_storage, read_db_header, read_schema,
  write_schema, file_size,
}
use xdl.WalFormat.{RecordType, WalRecord}
use xdl.Wal.{Wal, open_wal, close, clear, replay}
use xdl.Pager.{new_pager, get_page, page_offset, flush_all}
use xdl.Pager.Recover.{recover}
use xdl.Database.{
  Db, schemas_match, state, on_pager, change_page, change_index, index_changed, change_trees,
  is_open_or_throw, slot_of, get_or_create_writable_page, repair_slots_after_erase,
}

-- Is the exception an XDLError?
abbrev is_xdl_error : Error → Bool
is_xdl_error invalid_argument = false
is_xdl_error out_of_range = false
is_xdl_error bad_variant_access = false
is_xdl_error _ = true

-- The schema block, if there is one that can be read.
abbrev schema_or_none : Result Schema → Result (Option Schema)
schema_or_none (ok schema) = ok (some schema)
schema_or_none (err e) = if is_xdl_error e then ok none else err e
schema_or_none fault = fault

unfoldable pub stored_schema : Storage → Result (Option Schema)
stored_schema s =
    if ltb (db_header_size + 4) (file_size s) then schema_or_none (read_schema s) else ok none

-- The objects for the file and for the log, which `open` makes anew over what is on the disk.
abbrev pub storage_object : ℕ → Storage → Storage
storage_object compression s = record {
  exists = s.exists;
  is_open = false;
  disk = s.disk;
  compression = compression;
}

abbrev pub wal_object : Wal → Wal
wal_object w = record {
  is_open = false;
  disk = w.disk;
  durable = w.durable;
  write_buf = [];
  buf_dirty = false;
  current_offset = 0;
}

abbrev set_storage : Storage → Call Db (Unit {0})
set_storage storage db = (record db { pager = record db.pager { storage = storage } }, ok tt)

-- Until the other objects are made, those of an earlier `open` refer to the storage that is gone.
abbrev new_storage : Storage → Call Db (Unit {0})
new_storage storage db =
    (record db { built = false; pager = record db.pager { storage = storage } }, ok tt)

-- `storage_->close(); storage_.reset(); throw`.
abbrev abandon : Error → Call Db (Unit {0})
abandon e db = (
  record db { built = false; pager = record db.pager { storage = close_storage db.pager.storage } },
  err e,
)

abbrev adopt : Schema → Call Db (Unit {0})
adopt schema db = (record db { schema = schema }, ok tt)

-- The schema that the database works with from now on.
unfoldable pub settle_schema : DbHeader → Option Schema → Call Db (Unit {0})
settle_schema dbhdr (some stored) = do
  db ← state
  if db.schema_explicit && not (schemas_match stored db.schema)
      then abandon migration_error
      else adopt stored
settle_schema dbhdr none = do
  db ← state
  if ltb 0 dbhdr.page_count
      then abandon corruption
      else set_storage (write_schema db.pager.storage db.schema)

abbrev build : Call Db (Unit {0})
build db = (
  record db {
    built = true;
    pager = new_pager db.pager.storage empty_index db.cache_cap;
    wal = open_wal (wal_object db.wal);
  },
  ok tt,
)

abbrev replayed : Db → Result (Wal × List WalRecord) → Db × Result (List WalRecord)
replayed db (ok (wal, records)) = (record db { wal = wal }, ok records)
replayed db (err e) = (db, err e)
replayed db fault = (db, fault)

-- `catch (...)`.
abbrev pub catch_all : Db × Result (Unit {0}) → Db × Result (Unit {0})
catch_all (db, err e) = (db, ok tt)
catch_all (db, r) = (db, r)

-- The page that `replay_wal` reads a logged row from; its id is INVALID_PAGE_ID.
abbrev pub tmp_page : List ℕ → Page
tmp_page row_data = record {
  id = 2 ^ 32 - 1;
  bytes = row_data;
  row_count = 1;
  dirty = false;
  row_offsets = if length row_data == 0 then [] else 0 ∷ [];
}

module _ (z : Lz4) where
  unfoldable pub replay_insert : WalRecord → Call Db (Unit {0})
  replay_insert rec = do
    db ← state
    row ← lift (get_row (tmp_page rec.row_data) 0 db.schema)
    page ← get_or_create_writable_page z row
    let slot = page.row_count
    page' ← lift (append_row page row db.schema)
    change_page page'
    λ d. index_changed d (
        insert d.pager.index row.id (record {
          page_id = page.id;
          page_offset = page_offset d.pager page.id;
          row_slot = slot;
        }))
    change_trees tree_insert row

  abbrev erase_found : Page → Option ℕ → Call Db (Unit {0})
  erase_found page none = return tt
  erase_found page (some slot) = do
    page' ← lift (erase_row page slot)
    change_page (record page' { dirty = true })

  unfoldable pub replay_delete : WalRecord → IndexEntry → Call Db (Unit {0})
  replay_delete rec entry = do
    page ← on_pager (get_page z entry.page_id)
    found ← lift (slot_of page entry rec.row_id)
    erase_found page found
    change_index (λ m. (remove m rec.row_id).0)
    repair_slots_after_erase z entry.page_id

  -- A record that is not an insert or a delete is a marker.
  abbrev replay_typed : Db → RecordType → WalRecord → Option IndexEntry → Db × Result (Unit {0})
  replay_typed db RecordType.insert rec none = catch_all (replay_insert rec db)
  replay_typed db RecordType.delete rec (some entry) = catch_all (replay_delete rec entry db)
  replay_typed db _ rec _ = (db, ok tt)

  unfoldable pub replay_record : WalRecord → Call Db (Unit {0})
  replay_record rec db = replay_typed db rec.type rec (find db.pager.index rec.row_id)

  unfoldable pub replay_each : List WalRecord → Call Db (Unit {0})
  replay_each [] = return tt
  replay_each (rec ∷ records) = do replay_record rec; replay_each records

  unfoldable pub replay_wal : Call Db (Unit {0})
  replay_wal = do records ← λ db. replayed db (replay db.wal); replay_each records

  abbrev set_open : Call Db (Unit {0})
  set_open db = (record db { is_open = true }, ok tt)

  unfoldable pub open_db : Call Db (Unit {0})
  open_db = do
    db ← state
    if db.is_open then return tt else do
      new_storage (open_storage (storage_object db.compression db.pager.storage))
      opened ← state
      dbhdr ← lift (read_db_header opened.pager.storage)
      stored ← lift (stored_schema opened.pager.storage)
      settle_schema dbhdr stored
      build
      ready ← state
      on_pager (recover z ready.schema)
      replay_wal
      set_open

  unfoldable pub checkpoint : Call Db (Unit {0})
  checkpoint = do
    is_open_or_throw
    on_pager (flush_all z)
    λ db. (record db { wal = clear db.wal }, ok tt)

  abbrev shut : Call Db (Unit {0})
  shut db = (
    record db {
      wal = close (clear db.wal);
      pager = record db.pager { storage = close_storage db.pager.storage };
      indexes = [];
      is_open = false;
    },
    ok tt,
  )

  unfoldable pub close_db : Call Db (Unit {0})
  close_db = do db ← state; if db.is_open then (do on_pager (flush_all z); shut) else return tt

pub record Stats : Type 0 where
  pub row_count : ℕ
  pub page_count : ℕ
  pub cache_size : ℕ
  pub cache_capacity : ℕ
  pub file_size_bytes : ℕ
  pub schema_version : ℕ
  pub wal_active : Bool
  pub secondary_index_count : ℕ

abbrev no_stats : Stats
no_stats = record {
  row_count = 0;
  page_count = 0;
  cache_size = 0;
  cache_capacity = 0;
  file_size_bytes = 0;
  schema_version = 0;
  wal_active = false;
  secondary_index_count = 0;
}

unfoldable pub stats : Db → Stats
stats db = if not db.is_open then no_stats else record {
  row_count = size db.pager.index;
  page_count = db.pager.next_page_id;
  cache_size = cache_size db.pager.cache;
  cache_capacity = db.cache_cap;
  file_size_bytes = file_size db.pager.storage;
  schema_version = db.schema.version;
  wal_active = db.wal.is_open;
  secondary_index_count = length db.indexes;
}
