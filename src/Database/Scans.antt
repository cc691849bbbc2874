-- ===== src/Database/Scans.antt =====
-- The methods of DB that read many rows, and the secondary indexes. A visitor acts on a state of its
-- own and may throw. The comparisons of floats in a filter are parameters on their bit patterns.
use Prim.Native.Nat.{Ordering}
use xdl.Prelude.{
  ℕ, zero, suc, Bool, true, false, ◌||◌, ◌&&◌, Option, none, some, List, [], ◌∷◌, ◌++◌, Result, ok,
  err, fault, xdl_error, defined, length, replicate, ◌==◌, not, if◌then◌else◌, bytes_eq, get_elem?,
  ◌>>=◌ as bind,
}
use xdl.Prelude.Calls.{Call, return, lift, ◌>>=◌, ◌>>◌}
use xdl.Schema.{FieldType, Schema, field_index}
use xdl.Row.{FieldValue, Row}
use xdl.Page.{Page, get_row, row_data_ptr}
use xdl.Index.{IndexManager, find}
use xdl.Keys.{bptree_key_compare, bptree_key_encode_vec}
use xdl.BpTree.{BpTree, Entry, empty_tree, is_lt, is_eq, is_gt, insert, range_scan}
use xdl.ScanFilter.{Constraint, matches_raw}
use xdl.Compression.{Lz4}
use xdl.Pager.{get_page}
use xdl.Database.{Db, state, throw, on_pager, is_open_or_throw}

abbrev pub find_tree : List ℕ → List (List ℕ × BpTree) → Option BpTree
find_tree name [] = none
find_tree name ((n, tree) ∷ rest) = if bytes_eq n name then some tree else find_tree name rest

unfoldable pub erase_tree : List ℕ → List (List ℕ × BpTree) → List (List ℕ × BpTree)
erase_tree name [] = []
erase_tree name ((n, tree) ∷ rest) =
    let others = erase_tree name rest in if bytes_eq n name then rest else (n, tree) ∷ others

unfoldable pub has_index : Db → List ℕ → Bool
has_index db name = elim (find_tree name db.indexes) [ none ↦ false | some _ ↦ true ]

unfoldable pub drop_index : List ℕ → Db → Db
unfolding erase_tree
drop_index name db = record db { indexes = erase_tree name db.indexes }

-- Reads through the pointers that `open` has not set yet.
abbrev pub is_built : Call Db (Unit {0})
is_built db = if db.built then (db, ok tt) else (db, fault)

abbrev beside : {V A : Type 0} → V → Db × Result A → (Db × V) × Result A
beside v (db, r) = ((db, v), r)

-- A call of the database beside a visitor's state, and the other way around.
abbrev pub on_db : {V A : Type 0} → Call Db A → Call (Db × V) A
on_db call (db, v) = beside v (call db)

abbrev with_visitor : {V A : Type 0} → Db → V × Result A → (Db × V) × Result A
with_visitor db (v, r) = ((db, v), r)

abbrev pub on_visitor : {V A : Type 0} → Call V A → Call (Db × V) A
on_visitor call (db, v) = with_visitor db (call v)

abbrev pub push_row : Row → Call (List Row) (Unit {0})
push_row row rows = (rows ++ row ∷ [], ok tt)

-- Does a comparison with the bound exclude the value? `out` is the order that lies outside.
abbrev outside : (Ordering → Bool) → Bool → Ordering → Bool
outside out inclusive c = out c || (is_eq c && not inclusive)

unfoldable pub compare_field_values : FieldValue → FieldValue → FieldType → Result Ordering
compare_field_values a b type =
    bind (bptree_key_encode_vec a type)
      (λ ka. bind (bptree_key_encode_vec b type) (λ kb. ok (bptree_key_compare ka kb)))

abbrev bound_excludes :
    (Ordering → Bool) → Option FieldValue → Bool → FieldType → FieldValue → Result Bool
bound_excludes out none inclusive type v = ok false
bound_excludes out (some b) inclusive type v =
    bind (compare_field_values v b type) (λ c. ok (outside out inclusive c))

-- The visitor of `index_range_scan` where there is no index.
unfoldable pub range_visitor :
    ℕ
    → FieldType
    → Option FieldValue
    → Bool
    → Option FieldValue
    → Bool
    → Row
    → Call (List Row) (Unit {0})
range_visitor fi type lo lo_inclusive hi hi_inclusive row = do
  v ← lift (defined (get_elem? row.fields fi))
  below ← lift (bound_excludes is_lt lo lo_inclusive type v)
  if below then return tt else do
    above ← lift (bound_excludes is_gt hi hi_inclusive type v)
    if above then return tt else push_row row

-- Where the rows of the entries stand, in order: page and slot.
unfoldable pub locations : IndexManager → List ℕ → List (ℕ × ℕ)
locations m [] = []
locations m (id ∷ ids) =
    let rest = locations m ids in
    elim (find m id) [ none ↦ rest | some e ↦ (e.page_id, e.row_slot) ∷ rest ]

unfoldable pub all_locations : IndexManager → List Entry → List (ℕ × ℕ)
all_locations m [] = []
all_locations m (e ∷ es) = locations m e.ids ++ all_locations m es

-- `by_page[page].emplace_back(i, slot)`.
unfoldable pub at_location : ℕ → ℕ × ℕ → List (ℕ × List (ℕ × ℕ)) → List (ℕ × List (ℕ × ℕ))
at_location page item [] = (page, item ∷ []) ∷ []
at_location page item ((p, items) ∷ rest) =
    if p == page then (p, items ++ item ∷ []) ∷ rest else (p, items) ∷ at_location page item rest

unfoldable pub by_page : ℕ → List (ℕ × ℕ) → List (ℕ × List (ℕ × ℕ)) → List (ℕ × List (ℕ × ℕ))
by_page i [] groups = groups
by_page i ((page, slot) ∷ locs) groups = by_page (suc i) locs (at_location page (i, slot) groups)

unfoldable pub set_row : ℕ → Row → List Row → List Row
set_row i row [] = []
set_row zero row (r ∷ rows) = row ∷ rows
set_row (suc i) row (r ∷ rows) = r ∷ set_row i row rows

unfoldable pub read_items : Schema → Page → List (ℕ × ℕ) → List Row → Result (List Row)
read_items schema page [] results = ok results
read_items schema page ((i, slot) ∷ items) results =
    bind (get_row page slot schema) (λ row. read_items schema page items (set_row i row results))

abbrev pub empty_row : Row
empty_row = record { id = 0; fields = [] }

module _ (z : Lz4) where
  -- The rows of a page from `slot` on, with `n` to go.
  unfoldable pub index_slots : Schema → ℕ → Page → ℕ → ℕ → BpTree → Result BpTree
  index_slots schema fi page slot zero tree = ok tree
  index_slots schema fi page slot (suc n) tree = bind (get_row page slot schema) (λ row.
      bind (defined (get_elem? row.fields fi)) (λ v.
        bind (defined (get_elem? schema.fields fi))
          (λ d. bind (insert tree v d.type row.id) (index_slots schema fi page (suc slot) n))))

  -- The pages from `pid` on, with `n` to go.
  unfoldable pub index_pages : ℕ → ℕ → ℕ → BpTree → Call Db BpTree
  index_pages fi pid zero tree = return tree
  index_pages fi pid (suc n) tree = do
    page ← on_pager (get_page z pid)
    db ← state
    tree' ← lift (index_slots db.schema fi page 0 page.row_count tree)
    index_pages fi (suc pid) n tree'

  abbrev add_tree : List ℕ → BpTree → Call Db (Unit {0})
  add_tree name tree db = (record db { indexes = db.indexes ++ (name, tree) ∷ [] }, ok tt)

  unfoldable pub create_index : List ℕ → Call Db (Unit {0})
  create_index name = do
    db ← state
    elim (field_index db.schema name) [
      | none ↦ throw xdl_error
      | some fi ↦ if has_index db name then return tt else do
        is_built
        tree ← index_pages fi 0 db.pager.next_page_id empty_tree
        add_tree name tree
    ]

  unfoldable pub read_groups : List (ℕ × List (ℕ × ℕ)) → List Row → Call Db (List Row)
  read_groups [] results = return results
  read_groups ((pid, items) ∷ groups) results = do
    page ← on_pager (get_page z pid)
    db ← state
    results' ← lift (read_items db.schema page items results)
    read_groups groups results'

  module _ (float_ne float_lt : ℕ → ℕ → Bool) where
    -- The rows of a page from `slot` on, with `n` to go.
    unfoldable pub scan_slots :
        {V : Type 0}
        → (Row → Call V (Unit {0}))
        → List Constraint
        → Schema
        → Page
        → ℕ
        → ℕ
        → Call V (Unit {0})
    scan_slots visitor filter schema page slot zero = return tt
    scan_slots visitor filter schema page slot (suc n) = do
      let rest = scan_slots visitor filter schema page (suc slot) n
      src ← lift (row_data_ptr page slot)
      matching ← lift (matches_raw float_ne float_lt filter src schema)
      if not matching then rest else do row ← lift (get_row page slot schema); visitor row; rest

    -- The pages from `pid` on, with `n` to go.
    unfoldable pub scan_pages :
        {V : Type 0}
        → (Row → Call V (Unit {0}))
        → List Constraint
        → ℕ
        → ℕ
        → Call (Db × V) (Unit {0})
    scan_pages visitor filter pid zero = return tt
    scan_pages visitor filter pid (suc n) = do
      page ← on_db (on_pager (get_page z pid))
      db ← on_db state
      on_visitor (scan_slots visitor filter db.schema page 0 page.row_count)
      scan_pages visitor filter (suc pid) n

    unfoldable pub scan_unlocked :
        {V : Type 0} → (Row → Call V (Unit {0})) → List Constraint → Call (Db × V) (Unit {0})
    scan_unlocked visitor filter = do
      on_db is_built
      db ← on_db state
      scan_pages visitor filter 0 db.pager.next_page_id

    unfoldable pub scan :
        {V : Type 0} → (Row → Call V (Unit {0})) → List Constraint → Call (Db × V) (Unit {0})
    scan visitor filter = do on_db is_open_or_throw; scan_unlocked visitor filter

    abbrev collected : (Db × List Row) × Result (Unit {0}) → Db × Result (List Row)
    collected ((db, rows), ok unit) = (db, ok rows)
    collected ((db, rows), err e) = (db, err e)
    collected ((db, rows), fault) = (db, fault)

    unfoldable pub scan_all : List Constraint → Call Db (List Row)
    scan_all filter db = collected (scan push_row filter (db, []))

    unfoldable pub index_range_scan :
        List ℕ → Option FieldValue → Bool → Option FieldValue → Bool → Call Db (List Row)
    index_range_scan field lo lo_inclusive hi hi_inclusive = do
      db ← state
      elim (field_index db.schema field) [
        | none ↦ throw xdl_error
        | some fi ↦ (do
          d ← lift (defined (get_elem? db.schema.fields fi))
          elim (find_tree field db.indexes) [
            | none ↦ λ s.
                collected (
                  scan_unlocked (range_visitor fi d.type lo lo_inclusive hi hi_inclusive) []
                    (s, []))
            | some tree ↦ (do
              entries ← lift (range_scan tree lo d.type lo_inclusive hi d.type hi_inclusive)
              let locs = all_locations db.pager.index entries
              read_groups (by_page 0 locs []) (replicate (length locs) empty_row))
          ])
      ]
