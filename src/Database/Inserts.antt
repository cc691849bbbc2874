-- ===== src/Database/Inserts.antt =====
-- `insert` on the map that a database stands for.
use xdl.Prelude.{
  ℕ, ◌+◌, ◌^◌, ◌≤◌, ◌<◌, ◌≡◌, ◌∙◌, sym, refl, ap, inl, inr, Bool, true, false, Option, none, some,
  List, [], ◌∷◌, ◌++◌, Result, ok, err, duplicate_key, length, ◌==◌, get_elem?,
  get_elem?-append_length, if◌then◌else◌, Bool-cases, Option-cases, arith,
}
use mathlib.Core.Path.{subst}
use xdl.Row.{Row}
use xdl.RowCodec.{page_size, row_byte_size, read_bytes}
use xdl.RowCodec.RoundTrip.{RowFits}
use xdl.Page.{Page, append_row, row_data_ptr, row_data_len}
use xdl.Page.Holds.{Holds, length-images}
use xdl.Page.Refinement.{append_row-Holds}
use xdl.Page.RowData.{row_data-Holds}
use xdl.SortedPairs.{IndexEntry}
use xdl.Index.{find, insert}
use xdl.Index.Insert.{Inserts, insert_lem}
use xdl.Index.Valid.{IsValid}
use xdl.Cache.{find_page}
use xdl.Compression.{Lz4}
use xdl.Wal.{Wal, log_insert}
use xdl.Pager.{Pager, set_page, page_offset}
use xdl.Pager.Reads.{IsServing}
use xdl.Pager.Writes.{with_rows, set_page-IsServing, reindexed_IsServing}
use xdl.Database.{Db, get_or_create_writable_page, change_trees, update_trees}
use xdl.Database.Writes.{is_in_index, insert_unlocked}
use xdl.Database.Map.{IsDb, row_of, row_at_entry}
use xdl.Database.Writable.{IsWritable, writable, log_insert-open, same_count, get_elem?-append}

set_page-index : (g : Pager) (p : Page) → (set_page g p).index ≡ g.index
unfolding set_page
set_page-index g p = refl

set_page-next : (g : Pager) (p : Page) → (set_page g p).next_page_id ≡ g.next_page_id
unfolding set_page
set_page-next g p = refl

module _ (z : Lz4) (db : Db) (pages : ℕ → List Row) (k : IsDb z db pages) where
  pub absent_id : (id : ℕ) → row_of db.pager.index pages id ≡ none → find db.pager.index id ≡ none
  absent_id id h = elim (Option-cases (find db.pager.index id)) [
    | inl absent ↦ absent
    | inr (e, found) ↦
        (let (low, r, there) = k.placed id e found in
          absurd (cc (ap (row_at_entry pages) found, h, there)))
  ]

  -- What an insertion has made of the database and of its map.
  pub record IsInserted (row : Row) (r : Db × Result (Unit {0})) : Type 0 where
    pub after : Db
    pub rows : ℕ → List Row
    pub result : r ≡ (after, ok tt)
    pub is_db : IsDb z after rows
    pub same_schema : after.schema ≡ db.schema
    pub plain : after.indexes ≡ []
    pub at_most_one : after.pager.next_page_id ≤ db.pager.next_page_id + 1
    pub finds :
        (j : ℕ)
        → row_of after.pager.index rows j
          ≡ (if row.id == j then some row else row_of db.pager.index pages j)

  module _ (row : Row) (n : ℕ)
      (w : IsWritable z db pages k n (get_or_create_writable_page z row db)) (p : Page)
      (holds : Holds db.schema p (w.rows w.page.id ++ row ∷ [])) (named : p.id ≡ w.page.id)
      (dirty : p.dirty ≡ true) (new : row_of db.pager.index pages row.id ≡ none) where
    g : Pager
    g = set_page w.pager p

    rows_after : ℕ → List Row
    rows_after = with_rows p.id (w.rows w.page.id ++ row ∷ []) w.rows

    entry : IndexEntry
    unfolding g
    entry = record {
      page_id = w.page.id;
      page_offset = page_offset g w.page.id;
      row_slot = w.page.row_count;
    }

    in_slot : get_elem? (w.rows w.page.id ++ row ∷ []) w.page.row_count ≡ some row
    in_slot =
        let count : w.page.row_count ≡ length (w.rows w.page.id) =
          w.holds.count
          ∙ sym (length-images db.schema (w.rows w.page.id) w.holds.chunks w.holds.images) in
        rw count (get_elem?-append_length (w.rows w.page.id) row [])

    index_g : g.index ≡ db.pager.index
    unfolding g
    index_g = set_page-index w.pager p ∙ w.same_index

    next_g : g.next_page_id ≡ w.pager.next_page_id
    unfolding g
    next_g = set_page-next w.pager p

    indexing : Inserts g.index row.id entry (insert g.index row.id entry)
    indexing = insert_lem g.index row.id entry (subst IsValid (sym index_g) k.index_valid)

    none_before : find g.index row.id ≡ none
    none_before = ap (λ m. find m row.id) index_g ∙ absent_id row.id new

    indexed : insert g.index row.id entry ≡ ((insert g.index row.id entry).0, ok tt)
    indexed =
        ap (λ r. ((insert g.index row.id entry).0, r))
          (indexing.result
            ∙ ap (λ (o : Option IndexEntry). elim o [ none ↦ ok tt | some _ ↦ err duplicate_key ])
                none_before)

    found_after :
        (j : ℕ)
        → find (insert g.index row.id entry).0 j
          ≡ (if row.id == j then some entry else find db.pager.index j)
    found_after j =
        indexing.finds j
        ∙ (ap
              (λ (o : Option IndexEntry).
                if row.id == j then some (elim o [ none ↦ entry | some x ↦ x ]) else find g.index j)
              none_before
            ∙ ap (λ m. if row.id == j then some entry else find m j) index_g)

    g-IsServing : IsServing z db.schema g rows_after
    unfolding g rows_after
    g-IsServing =
        (set_page-IsServing z db.schema w.pager w.rows w.serving p w.page
          (w.rows w.page.id ++ row ∷ [])
          (subst (λ i. find_page i w.pager.cache.lru ≡ some w.page) (sym named) w.cached) dirty
          holds).0

    -- A row of the database before is still where it was.
    kept_row :
        (e : IndexEntry) (r : Row)
        → e.page_id < db.pager.next_page_id
        → get_elem? (pages e.page_id) e.row_slot ≡ some r
        → get_elem? (rows_after e.page_id) e.row_slot ≡ some r
    unfolding rows_after
    kept_row e r low there = elim (Bool-cases (e.page_id == p.id)) [
      | inl same ↦
          let here : e.page_id ≡ w.page.id = ground (arith, named) in
          rw same (
            get_elem?-append (w.rows w.page.id) (row ∷ []) e.row_slot
              (ap (λ i. get_elem? (w.rows i) e.row_slot) (sym here) ∙ before))
      | inr differ ↦ rw differ before
    ]
      where
        before : get_elem? (w.rows e.page_id) e.row_slot ≡ some r
        before = ap (λ l. get_elem? l e.row_slot) (w.same_rows e.page_id low) ∙ there

    own_row : get_elem? (rows_after w.page.id) w.page.row_count ≡ some row
    unfolding rows_after
    own_row =
        let same : (w.page.id == p.id) ≡ true = ground (arith, named) in
        ap
          (λ (b : Bool).
            get_elem? (if b then w.rows w.page.id ++ row ∷ [] else w.rows w.page.id)
              w.page.row_count)
          same
        ∙ in_slot

    module _ (log : Wal) (log_open : log.is_open ≡ true) where
      after : Db
      unfolding g entry
      after = record db {
        pager = record g { index = (insert g.index row.id entry).0 };
        wal = log;
        indexes = [];
      }

      placed_after :
          (j : ℕ) (e : IndexEntry)
          → find after.pager.index j ≡ some e
          → (e.page_id < after.pager.next_page_id)
            × (r : Row) × (get_elem? (rows_after e.page_id) e.row_slot ≡ some r)
      unfolding after
      placed_after j e found = elim (Bool-cases (row.id == j)) [
        | inl own ↦
            let there : find (insert g.index row.id entry).0 j ≡ some entry =
              found_after j
              ∙ ap (λ (b : Bool). if b then some entry else find db.pager.index j) own in
            let same : entry ≡ e = cc in
            subst
              (λ e.
                (e.page_id < g.next_page_id)
                × (r : Row) × (get_elem? (rows_after e.page_id) e.row_slot ≡ some r))
              same (omega (arith, next_g, w.below), row, own_row)
        | inr other ↦
            let there : find db.pager.index j ≡ some e =
              sym (ap (λ (b : Bool). if b then some entry else find db.pager.index j) other)
              ∙ (sym (found_after j) ∙ found) in
            let (low, r, here) = k.placed j e there in
            (omega (arith, next_g, w.grows), r, kept_row e r low here)
      ]

      after_IsDb : IsDb z after rows_after
      unfolding after
      after_IsDb = record {
        opened = k.opened;
        serving =
            reindexed_IsServing z db.schema g rows_after g-IsServing
              (insert g.index row.id entry).0;
        index_valid = indexing.valid;
        log_open = log_open;
        placed = placed_after;
      }

      finds_after :
          (j : ℕ)
          → row_of after.pager.index rows_after j
            ≡ (if row.id == j then some row else row_of db.pager.index pages j)
      unfolding after entry
      finds_after j =
          ap (row_at_entry rows_after) (found_after j) ∙ elim (Bool-cases (row.id == j)) [
            | inl own ↦ rw own own_row
            | inr other ↦ rw other (elim (Option-cases (find db.pager.index j)) [
              | inl absent ↦ rw absent
              | inr (e, found) ↦
                  let (low, r, here) = k.placed j e found in
                  rw found (kept_row e r low here ∙ sym here)
            ])
          ]

      -- The calls that `insert_unlocked` makes once it has its page.
      result_after :
          {offset : ℕ} (now : Bool) (ptr : List ℕ) (bs : List ℕ)
          → length row.fields ≡ length db.schema.fields
          → db.indexes ≡ []
          → append_row w.page row db.schema ≡ ok p
          → row_data_ptr p w.page.row_count ≡ ok ptr
          → row_data_len p w.page.row_count ≡ ok (length bs)
          → read_bytes (length bs) ptr ≡ ok bs
          → log_insert db.wal row.id w.page.id w.page.row_count bs now ≡ ok (log, offset)
          → insert_unlocked z row now db ≡ (after, ok tt)
      unfolding insert_unlocked change_trees update_trees after g entry
      result_after now ptr bs count plain appended ptr_is len_is read logs =
          let even : (length row.fields == length db.schema.fields) ≡ true =
            ground (arith, count) in
          let free : is_in_index db row.id ≡ false =
            ap (λ (o : Option IndexEntry). elim o [ none ↦ false | some _ ↦ true ])
              (absent_id row.id new) in
          rw (even, free, w.result, appended, ptr_is, len_is, read, logs, indexed, plain)

  -- In a well-formed open database whose pages are stored without compression, which has no secondary
  -- index and whose page ids do not wrap around, a row that fits the schema and a page, under an id that
  -- is not in use, is inserted: `insert_unlocked` returns, the id stands for the row from then on and
  -- every other id for what it stood for before.
  pub insert_unlocked-IsInserted :
      (row : Row) (n : ℕ) (now : Bool)
      → RowFits db.schema row
      → row_byte_size row db.schema ≡ ok n
      → n ≤ page_size
      → db.pager.next_page_id + 1 < 2 ^ 32
      → db.indexes ≡ []
      → row_of db.pager.index pages row.id ≡ none
      → IsInserted row (insert_unlocked z row now db)
  insert_unlocked-IsInserted row n now fits sized small few plain new =
      let w = writable z db pages k row n sized small few in
      let (p, appended, holds, named, size, dirty) =
        append_row-Holds db.schema w.page (w.rows w.page.id) row w.holds fits sized w.room in
      let slot = in_slot row n w p holds named dirty new in
      let (ptr, bs, ptr_is, len_is, read, image) =
        row_data-Holds db.schema p (w.rows w.page.id ++ row ∷ []) w.page.row_count row holds slot in
      let (log, offset, logs, log_open) =
        log_insert-open db.wal row.id w.page.id w.page.row_count bs now k.log_open
          (omega (arith, image.high)) in
      record {
        after = after row n w p holds named dirty new log log_open;
        rows = rows_after row n w p holds named dirty new;
        result =
            result_after row n w p holds named dirty new log log_open now ptr bs
              (same_count db.schema.fields row.fields fits.fields_fit) plain appended ptr_is len_is
              read logs;
        is_db = after_IsDb row n w p holds named dirty new log log_open;
        same_schema = unfold after in refl;
        plain = unfold after in refl;
        at_most_one =
            unfold after in omega (arith, w.at_most_one, next_g row n w p holds named dirty new);
        finds = finds_after row n w p holds named dirty new log log_open;
      }
