-- ===== src/Database/Writes.antt =====
-- The methods of DB that insert, erase and update rows, and the point lookups.
use xdl.Prelude.{
  ℕ, suc, Bool, true, false, Option, none, some, List, [], ◌∷◌, Result, ok, err, fault, xdl_error,
  not_found, duplicate_key, length, ltb, ◌==◌, not, if◌then◌else◌, ◌>>=◌ as bind,
}
use xdl.Prelude.Calls.{Call, return, lift, ◌>>=◌, ◌>>◌}
use xdl.Row.{Row}
use xdl.RowCodec.{page_size, serialised_row_size, read_bytes}
use xdl.Page.{append_row, erase_row, get_row, row_data_ptr, row_data_len}
use xdl.SortedPairs.{IndexEntry}
use xdl.Index.{contains, insert, find, remove}
use xdl.BpTree.{insert as tree_insert, erase as tree_erase}
use xdl.Compression.{Lz4}
use xdl.Wal.{log_insert, log_delete}
use xdl.Pager.{page_offset, get_page}
use xdl.Database.{
  Db, state, throw, on_pager, change_page, change_index, index_changed, logged, sync_wal,
  is_open_or_throw, change_trees, slot_of, get_or_create_writable_page, repair_slots_after_erase,
}

-- `row.fields.size() != schema_.fields.size()`.
abbrev pub count_differs : Db → Row → Bool
count_differs db row = not (length row.fields == length db.schema.fields)

abbrev pub is_in_index : Db → ℕ → Bool
is_in_index db id = elim (find db.pager.index id) [ none ↦ false | some _ ↦ true ]

-- The size of the row is computed, and must not exceed a page.
unfoldable pub check_size : Db → Row → Result (Unit {0})
check_size db row =
    bind (serialised_row_size row db.schema)
      (λ need. if ltb page_size need then err xdl_error else ok tt)

-- The validation loops of the batches; `seen` are the ids before.
unfoldable pub check_inserts : Db → List ℕ → List Row → Result (Unit {0})
check_inserts db seen [] = ok tt
check_inserts db seen (row ∷ rows) =
    let rest = check_inserts db (row.id ∷ seen) rows in
    if count_differs db row
    then err xdl_error
    else if is_in_index db row.id
    then err duplicate_key
    else if contains row.id seen
    then err duplicate_key
    else bind (check_size db row) (λ unit. rest)

unfoldable pub check_erases : Db → List ℕ → List ℕ → Result (Unit {0})
check_erases db seen [] = ok tt
check_erases db seen (id ∷ ids) =
    let rest = check_erases db (id ∷ seen) ids in
    if contains id seen
    then err duplicate_key
    else if is_in_index db id
    then rest
    else err not_found

unfoldable pub check_updates : Db → List ℕ → List Row → Result (Unit {0})
check_updates db seen [] = ok tt
check_updates db seen (row ∷ rows) =
    let rest = check_updates db (row.id ∷ seen) rows in
    if count_differs db row
    then err xdl_error
    else if contains row.id seen
    then err duplicate_key
    else if is_in_index db row.id
    then bind (check_size db row) (λ unit. rest)
    else err not_found

module _ (z : Lz4) where
  unfoldable pub insert_unlocked : Row → Bool → Call Db (Unit {0})
  insert_unlocked row sync_now = do
    db ← state
    if count_differs db row
        then throw xdl_error
        else if is_in_index db row.id
        then throw duplicate_key
        else do
          page ← get_or_create_writable_page z row
          let slot = page.row_count
          page' ← lift (append_row page row db.schema)
          change_page page'
          row_ptr ← lift (row_data_ptr page' slot)
          row_len ← lift (row_data_len page' slot)
          row_data ← lift (read_bytes row_len row_ptr)
          λ d. logged d (log_insert d.wal row.id page.id slot row_data sync_now)
          λ d. index_changed d (
              insert d.pager.index row.id (record {
                page_id = page.id;
                page_offset = page_offset d.pager page.id;
                row_slot = slot;
              }))
          change_trees tree_insert row

  abbrev pub found_row : Db → Option IndexEntry → ℕ → Call Db Bool
  found_row db none id = return false
  found_row db (some entry) id = do
    page ← on_pager (get_page z entry.page_id)
    found ← lift (slot_of page entry id)
    elim found [
      | none ↦ return false
      | some slot ↦ (do
        old ← lift (get_row page slot db.schema)
        λ d. logged d (log_delete d.wal id entry.page_id slot false)
        page' ← lift (erase_row page slot)
        change_page page'
        change_index (λ m. (remove m id).0)
        repair_slots_after_erase z entry.page_id
        change_trees tree_erase old
        return true)
    ]

  unfoldable pub erase_unlocked : ℕ → Call Db Bool
  erase_unlocked id db = found_row db (find db.pager.index id) id db

  unfoldable pub insert_row : Row → Call Db (Unit {0})
  insert_row row = do is_open_or_throw; insert_unlocked row true

  unfoldable pub insert_each : List Row → Call Db (Unit {0})
  insert_each [] = return tt
  insert_each (row ∷ rows) = do insert_unlocked row false; insert_each rows

  unfoldable pub insert_batch : List Row → Call Db ℕ
  insert_batch rows = do
    is_open_or_throw
    if length rows == 0 then return 0 else do
      db ← state
      lift (check_inserts db [] rows)
      insert_each rows
      sync_wal
      return (length rows)

  unfoldable pub erase : ℕ → Call Db (Unit {0})
  erase id = do
    is_open_or_throw
    erased ← erase_unlocked id
    if erased then sync_wal else throw not_found

  -- How many of the ids were erased.
  unfoldable pub erase_each : ℕ → List ℕ → Call Db ℕ
  erase_each deleted [] = return deleted
  erase_each deleted (id ∷ ids) = do
    erased ← erase_unlocked id
    erase_each (if erased then suc deleted else deleted) ids

  unfoldable pub erase_batch : List ℕ → Call Db ℕ
  erase_batch ids = do
    is_open_or_throw
    if length ids == 0 then return 0 else do
      db ← state
      lift (check_erases db [] ids)
      deleted ← erase_each 0 ids
      sync_wal
      return deleted

  unfoldable pub update : Row → Call Db (Unit {0})
  update row = do
    is_open_or_throw
    db ← state
    if not (is_in_index db row.id)
        then throw not_found
        else if count_differs db row
        then throw xdl_error
        else do
          lift (check_size db row)
          erased ← erase_unlocked row.id
          if not erased then throw not_found else do insert_unlocked row false; sync_wal

  unfoldable pub update_each : List Row → Call Db (Unit {0})
  update_each [] = return tt
  update_each (row ∷ rows) = do
    erased ← erase_unlocked row.id
    insert_unlocked row false
    update_each rows

  unfoldable pub update_batch : List Row → Call Db ℕ
  update_batch rows = do
    is_open_or_throw
    if length rows == 0 then return 0 else do
      db ← state
      lift (check_updates db [] rows)
      update_each rows
      sync_wal
      return (length rows)

  abbrev row_at : Db → Option IndexEntry → Call Db Row
  row_at db none = throw not_found
  row_at db (some entry) = do
    page ← on_pager (get_page z entry.page_id)
    lift (get_row page entry.row_slot db.schema)

  unfoldable pub get_unlocked : ℕ → Call Db Row
  get_unlocked id db = row_at db (find db.pager.index id) db

  unfoldable pub get : ℕ → Call Db Row
  get id = do is_open_or_throw; get_unlocked id

  -- `catch (const NotFoundError&)`.
  abbrev pub or_absent : Db × Result Row → Db × Result (Option Row)
  or_absent (db, ok row) = (db, ok (some row))
  or_absent (db, err not_found) = (db, ok none)
  or_absent (db, err e) = (db, err e)
  or_absent (db, fault) = (db, fault)

  -- The row in `out`, or no row and the result `false`.
  unfoldable pub try_get : ℕ → Call Db (Option Row)
  try_get id = do is_open_or_throw; λ db. or_absent (get_unlocked id db)
