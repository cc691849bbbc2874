-- ===== src/Database.antt =====
-- class DB of include/xdl/db.h and src/db.cpp: the state, and what the other methods are made of. The
-- methods hold a lock of their own for their whole length, so a call is a step from state to state.
pub mod Writes
pub mod Scans
pub mod Lifecycle
pub mod Map
pub mod Writable
pub mod Inserts
pub mod Batches
pub mod InsertBatch
pub mod Checkpoint
pub mod Schemas
use xdl.Prelude.{
  ℕ, zero, suc, ◌+◌, ◌-◌, Bool, true, false, ◌&&◌, Option, none, some, List, [], ◌∷◌, Result, ok,
  err, fault, Error, xdl_error, not_found, duplicate_key, defined, length, leb, ltb, ◌==◌, not,
  if◌then◌else◌, bytes_eq, get_elem?, ◌>>=◌ as bind,
}
use xdl.Prelude.Calls.{Call, after_call, return, lift, ◌>>=◌, ◌>>◌}
use xdl.Schema.{FieldType, FieldDef, Schema, field_index, validate}
use xdl.Row.{FieldValue, Row}
use xdl.RowCodec.{page_size, serialised_row_size}
use xdl.Page.{Page, has_capacity, row_id_at, find_row}
use xdl.SortedPairs.{IndexEntry}
use xdl.Index.{IndexManager, empty_index, ids_for_page, update_slot}
use xdl.BpTree.{BpTree}
use xdl.Storage.{Storage}
use xdl.Compression.{Lz4}
use xdl.Wal.{Wal, sync}
use xdl.Pager.{Pager, new_pager, get_page, new_page, set_page}

-- `built` is whether `open` has made the components, which the null pointers of the constructor stand
-- for before; the file and the primary index are in the pager's state. `indexes` is the map of the
-- secondary indexes, whose order of iteration is not specified.
pub record Db : Type 0 where
  pub schema : Schema
  pub schema_explicit : Bool
  pub compression : ℕ
  pub cache_cap : ℕ
  pub built : Bool
  pub pager : Pager
  pub wal : Wal
  pub indexes : List (List ℕ × BpTree)
  pub is_open : Bool

abbrev pub same_type : FieldType → FieldType → Bool
same_type FieldType.uint32 FieldType.uint32 = true
same_type FieldType.string FieldType.string = true
same_type FieldType.float32 FieldType.float32 = true
same_type FieldType.bool FieldType.bool = true
same_type FieldType.int64 FieldType.int64 = true
same_type (FieldType.unknown a) (FieldType.unknown b) = a == b
same_type _ _ = false

-- The loop of `schemas_match`; the lengths are compared before it.
unfoldable pub fields_match : List FieldDef → List FieldDef → Bool
fields_match [] [] = true
fields_match (a ∷ as') (b ∷ bs) =
    bytes_eq a.name b.name && (same_type a.type b.type && fields_match as' bs)
fields_match _ _ = false

unfoldable pub schemas_match : Schema → Schema → Bool
unfolding fields_match
schemas_match a b = fields_match a.fields b.fields

-- "age" and "name".
abbrev pub default_fields : List FieldDef
default_fields =
    record { name = 97 ∷ 103 ∷ 101 ∷ []; type = FieldType.uint32 }
    ∷ record { name = 110 ∷ 97 ∷ 109 ∷ 101 ∷ []; type = FieldType.string }
    ∷ []

-- The constructor; the files are those that stand under the paths.
unfoldable pub new_db : Storage → Wal → Schema → ℕ → ℕ → Result Db
new_db storage wal schema compression cache_cap =
    let explicit = not (length schema.fields == 0) in
    let used = if explicit then schema else record schema { fields = default_fields } in
    bind (validate used) (λ unit. ok (record {
      schema = used;
      schema_explicit = explicit;
      compression = compression;
      cache_cap = cache_cap;
      built = false;
      pager = new_pager storage empty_index cache_cap;
      wal = wal;
      indexes = [];
      is_open = false;
    }))

abbrev pub state : {S : Type 0} → Call S S
state s = (s, ok s)

abbrev pub throw : {S A : Type 0} → Error → Call S A
throw e s = (s, err e)

abbrev pub with_pager : {A : Type 0} → Db → Pager × Result A → Db × Result A
with_pager db (pager, r) = (record db { pager = pager }, r)

-- A call of a method of the pager.
abbrev pub on_pager : {A : Type 0} → Call Pager A → Call Db A
on_pager call db = with_pager db (call db.pager)

-- A change of the page that a reference into the cache points to.
abbrev pub change_page : Page → Call Db (Unit {0})
change_page page db = (record db { pager = set_page db.pager page }, ok tt)

abbrev pub change_index : (IndexManager → IndexManager) → Call Db (Unit {0})
change_index f db = (record db { pager = record db.pager { index = f db.pager.index } }, ok tt)

abbrev pub index_changed : Db → IndexManager × Result (Unit {0}) → Db × Result (Unit {0})
index_changed db (index, r) = (record db { pager = record db.pager { index = index } }, r)

abbrev pub logged : Db → Result (Wal × ℕ) → Db × Result (Unit {0})
logged db (ok (wal, offset)) = (record db { wal = wal }, ok tt)
logged db (err e) = (db, err e)
logged db fault = (db, fault)

abbrev pub sync_wal : Call Db (Unit {0})
sync_wal db = (record db { wal = sync db.wal }, ok tt)

abbrev pub is_open_or_throw : Call Db (Unit {0})
is_open_or_throw db = if db.is_open then (db, ok tt) else (db, err xdl_error)

-- The change of the tree of one field: `row.fields[fi]` and `schema_.fields[fi]`.
unfoldable pub tree_change :
    (BpTree → FieldValue → FieldType → ℕ → Result BpTree)
    → Schema
    → Row
    → ℕ
    → BpTree
    → Result BpTree
tree_change f schema row fi tree =
    bind (defined (get_elem? row.fields fi))
      (λ v. bind (defined (get_elem? schema.fields fi)) (λ d. f tree v d.type row.id))

abbrev Trees : Type 0
Trees = List (List ℕ × BpTree)

abbrev behind : List ℕ × BpTree → Trees × Result (Unit {0}) → Trees × Result (Unit {0})
behind first (rest, r) = (first ∷ rest, r)

abbrev changed_first :
    List ℕ → BpTree → Trees → Trees × Result (Unit {0}) → Result BpTree → Trees × Result (Unit {0})
changed_first name tree rest later (ok tree') = behind (name, tree') later
changed_first name tree rest later (err e) = ((name, tree) ∷ rest, err e)
changed_first name tree rest later fault = ((name, tree) ∷ rest, fault)

-- The loop over `indexes_` that an insert and an erase end with.
unfoldable pub update_trees :
    (BpTree → FieldValue → FieldType → ℕ → Result BpTree)
    → Schema
    → Row
    → Trees
    → Trees × Result (Unit {0})
update_trees f schema row [] = ([], ok tt)
update_trees f schema row ((name, tree) ∷ rest) =
    let later = update_trees f schema row rest in
    elim (field_index schema name) [
      | none ↦ behind (name, tree) later
      | some fi ↦ changed_first name tree rest later (tree_change f schema row fi tree)
    ]

abbrev trees_changed : Db → Trees × Result (Unit {0}) → Db × Result (Unit {0})
trees_changed db (trees, r) = (record db { indexes = trees }, r)

unfoldable pub change_trees :
    (BpTree → FieldValue → FieldType → ℕ → Result BpTree) → Row → Call Db (Unit {0})
change_trees f row db = trees_changed db (update_trees f db.schema row db.indexes)

-- The slot of the row, as the index has it or else as the page is searched; `none` is -1.
unfoldable pub slot_of : Page → IndexEntry → ℕ → Result (Option ℕ)
slot_of page entry id =
    if ltb entry.row_slot page.row_count
    then bind (row_id_at page entry.row_slot)
        (λ found. if found == id then ok (some entry.row_slot) else find_row page id)
    else find_row page id

unfoldable pub repair_each : Page → List ℕ → Call Db (Unit {0})
repair_each page [] = return tt
repair_each page (id ∷ ids) = do
  found ← lift (find_row page id)
  change_index (λ m. elim found [ none ↦ m | some slot ↦ update_slot m id slot ])
  repair_each page ids

module _ (z : Lz4) where
  unfoldable pub get_or_create_writable_page : Row → Call Db Page
  get_or_create_writable_page row = do
    db ← state
    need ← lift (serialised_row_size row db.schema)
    if ltb page_size need then throw xdl_error else do
      let count = db.pager.next_page_id
      if count == 0 then on_pager (new_page z) else do
        last ← on_pager (get_page z (count - 1))
        if has_capacity last && leb (length last.bytes + need) page_size
            then return last
            else on_pager (new_page z)

  unfoldable pub repair_slots_after_erase : ℕ → Call Db (Unit {0})
  repair_slots_after_erase page_id = do
    db ← state
    elim (ids_for_page db.pager.index page_id) [
      | none ↦ return tt
      | some ids ↦ (do page ← on_pager (get_page z page_id); repair_each page ids)
    ]
