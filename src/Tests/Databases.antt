-- ===== src/Tests/Databases.antt =====
-- A database of one field over a new file, and a session with it.
use xdl.Prelude.{
  ℕ, ◌≡◌, ◌↔◌, sym, refl, ap, true, false, Option, none, some, [], ◌∷◌, ok, err, not_found, Error,
  All, ◌⊎◌, arith,
}
use mathlib.Core.Path.{subst}
use xdl.Schema.{Schema}
use xdl.Row.{FieldValue, Row}
use xdl.RowCodec.{row_byte_size}
use xdl.RowCodec.RoundTrip.{RowFits}
use xdl.SortedPairs.{IndexEntry}
use xdl.Index.{empty_index, contains, find}
use xdl.Index.Valid.{empty_index-IsValid}
use xdl.Wal.{Wal}
use xdl.Pager.{new_pager}
use xdl.Pager.Fresh.{new_pager-IsServing}
use xdl.Database.{Db, schemas_match}
use xdl.Database.Writes.{insert_unlocked, insert_batch, erase_batch, get}
use xdl.Database.Map.{IsDb, row_of, get-row_of}
use xdl.Database.Inserts.{IsInserted, insert_unlocked-IsInserted}
use xdl.Database.Batches.{IsNew, IsKnown, Distinct, insert_batch-validates, erase_batch-validates}
use xdl.Database.Schemas.{schemas_match_iff}
use xdl.Index.Valid.{IsValid}
use xdl.Storage.{read_db_header}
use xdl.Wal.{open_wal}
use xdl.Wal.Logged.{Logs}
use xdl.Wal.Fresh.{open_wal-Logs}
use xdl.Pager.Blocks.{IsOnDisk}
use xdl.Database.Lifecycle.{checkpoint}
use xdl.Database.Checkpoint.{checkpoint_lem}
use xdl.Database.InsertBatch.{IsBatch, insert_batch-IsBatch}
use xdl.Prelude.{◌∙◌, ◌<◌}
use xdl.Tests.Files.{
  stored, age, file, file-IsFormatted, no_rows, one_page, one_page_rows, one_page-IsServing,
  one_page_file, one_page_index, file_header, file_header_read,
}

abbrev log : Wal
log = record {
  is_open = true;
  disk = [];
  durable = [];
  write_buf = [];
  buf_dirty = false;
  current_offset = 0;
}

abbrev aged : ℕ → ℕ → Row
aged id n = record { id = id; fields = FieldValue.uint32 n ∷ [] }

abbrev db : Db
db = record {
  schema = age;
  schema_explicit = true;
  compression = 0;
  cache_cap = 1;
  built = true;
  pager = new_pager file empty_index 1;
  wal = log;
  indexes = [];
  is_open = true;
}

nothing_found : (id : ℕ) → find empty_index id ≡ none
unfolding find contains
nothing_found id = refl

db-IsDb : IsDb stored db no_rows
db-IsDb = record {
  opened = refl;
  serving = new_pager-IsServing stored age file empty_index 1 no_rows file-IsFormatted refl;
  index_valid = empty_index-IsValid;
  log_open = refl;
  placed = λ id e found. absurd (cc (found, nothing_found id));
}

aged-RowFits : RowFits age (aged 7 30)
aged-RowFits = record { small = omega arith; id_fits = omega arith; fields_fit = (omega arith, tt) }

aged_size : row_byte_size (aged 7 30) age ≡ ok 12
unfolding row_byte_size
aged_size = refl

not_there : row_of empty_index no_rows 7 ≡ none
not_there = ap (λ (o : Option IndexEntry). elim o [ none ↦ none | some e ↦ none ]) (nothing_found 7)

insert_unlocked-IsInserted_example :
    IsInserted stored db no_rows db-IsDb (aged 7 30) (insert_unlocked stored (aged 7 30) true db)
insert_unlocked-IsInserted_example =
    insert_unlocked-IsInserted stored db no_rows db-IsDb (aged 7 30) 12 true aged-RowFits aged_size
      (omega arith) (omega arith) refl not_there

abbrev after_insert : Db
after_insert = (insert_unlocked stored (aged 7 30) true db).0

inserted :
    IsInserted stored db no_rows db-IsDb (aged 7 30) (insert_unlocked stored (aged 7 30) true db)
inserted =
    insert_unlocked-IsInserted stored db no_rows db-IsDb (aged 7 30) 12 true aged-RowFits aged_size
      (omega arith) (omega arith) refl not_there

after_insert-IsDb : IsDb stored after_insert inserted.rows
after_insert-IsDb =
    subst (λ d. IsDb stored d inserted.rows) (sym (ap (λ r. r.0) inserted.result)) inserted.is_db

get-row_of_example :
    (db' : Db) × (get stored 7 after_insert ≡ (
      db',
      elim (row_of after_insert.pager.index inserted.rows 7) [
        | none ↦ err not_found
        | some r ↦ ok r
      ],
    ))
    × IsDb stored db' inserted.rows
    × (db'.pager.index ≡ after_insert.pager.index)
get-row_of_example = get-row_of stored after_insert inserted.rows after_insert-IsDb 7

insert_batch-validates_example :
    ((e : Error) × (insert_batch stored (aged 7 30 ∷ aged 7 31 ∷ []) db ≡ (db, err e)))
    ⊎ (All (IsNew db) (aged 7 30 ∷ aged 7 31 ∷ []) × Distinct (7 ∷ 7 ∷ []))
insert_batch-validates_example = insert_batch-validates stored db refl (aged 7 30) (aged 7 31 ∷ [])

erase_batch-validates_example :
    ((e : Error) × (erase_batch stored (7 ∷ 8 ∷ []) db ≡ (db, err e)))
    ⊎ (All (IsKnown db) (7 ∷ 8 ∷ []) × Distinct (7 ∷ 8 ∷ []))
erase_batch-validates_example = erase_batch-validates stored db refl 7 (8 ∷ [])

abbrev newer : Schema
newer = record age { version = 2 }

schemas_match_iff_example : (schemas_match age newer ≡ true) ↔ (age.fields ≡ newer.fields)
schemas_match_iff_example = schemas_match_iff age newer

later_size : row_byte_size (aged 8 31) age ≡ ok 12
unfolding row_byte_size
later_size = refl

later-RowFits : RowFits age (aged 8 31)
later-RowFits = record {
  small = omega arith;
  id_fits = omega arith;
  fields_fit = (omega arith, tt);
}

later_not_there : row_of empty_index no_rows 8 ≡ none
later_not_there =
    ap (λ (o : Option IndexEntry). elim o [ none ↦ none | some e ↦ none ]) (nothing_found 8)

two_ids : Distinct (7 ∷ 8 ∷ [])
unfolding contains
two_ids = (refl, (refl, tt))

insert_batch-IsBatch_example :
    IsBatch stored db no_rows
      (aged 7 30 ∷ aged 8 31 ∷ [])
      2
      (insert_batch stored (aged 7 30 ∷ aged 8 31 ∷ []) db)
insert_batch-IsBatch_example =
    insert_batch-IsBatch stored db no_rows (aged 7 30) (aged 8 31 ∷ []) db-IsDb
      (
        record { fits = aged-RowFits; need = 12; sized = aged_size; small = omega arith },
        (record { fits = later-RowFits; need = 12; sized = later_size; small = omega arith }, tt),
      )
      two_ids (not_there, (later_not_there, tt)) refl (omega arith)

abbrev no_log : Wal
no_log = record {
  is_open = false;
  disk = [];
  durable = [];
  write_buf = [];
  buf_dirty = false;
  current_offset = 0;
}

-- The database with one page, which is dirty.
abbrev paged : Db
paged = record db { pager = one_page; wal = open_wal no_log }

no_log-Logs : Logs (open_wal no_log) []
no_log-Logs = open_wal-Logs no_log refl refl refl

paged-IsDb : IsDb stored paged one_page_rows
paged-IsDb = record {
  opened = refl;
  serving = one_page-IsServing.0;
  index_valid = subst IsValid (sym one_page_index) empty_index-IsValid;
  log_open = no_log-Logs.opened;
  placed = λ id e found. absurd (cc (found, ap (λ m. find m id) one_page_index, nothing_found id));
}

checkpoint_lem_example :
    (db' : Db) × (checkpoint stored paged ≡ (db', ok tt))
    × (read_db_header db'.pager.storage
        ≡ ok (record file_header { page_count = one_page.next_page_id }))
    × ((id : ℕ)
        → id < one_page.next_page_id
        → IsOnDisk stored age db'.pager.storage db'.pager.page_offsets id (one_page_rows id))
    × Logs db'.wal []
checkpoint_lem_example =
    checkpoint_lem stored paged one_page_rows paged-IsDb file_header [] no_log-Logs
      (ap read_db_header one_page_file ∙ file_header_read)
      (record {
        magic_is = refl;
        version_fits = omega arith;
        page_size_fits = omega arith;
        page_count_fits = one_page-IsServing.0.few;
        compression_fits = omega arith;
        pad_fits = omega arith;
      })
