-- ===== src/Database/InsertBatch.antt =====
-- A batch that is accepted is inserted.
use xdl.Prelude.{
  ℕ, suc, ◌+◌, ◌^◌, ◌≤◌, ◌<◌, ◌≡◌, ◌∙◌, sym, refl, ap, inl, inr, Bool, true, false, Option, none,
  some, List, [], ◌∷◌, Result, ok, All, length, ◌==◌, if◌then◌else◌, le→ltb_false, Bool-cases,
  arith,
}
use mathlib.Core.Path.{subst, fun_ext}
use xdl.Prelude.Calls.{after_call}
use xdl.Schema.{Schema}
use xdl.Row.{Row}
use xdl.RowCodec.{page_size, row_byte_size, serialised_row_size}
use xdl.RowCodec.RoundTrip.{RowFits}
use xdl.SortedPairs.{IndexEntry}
use xdl.Index.{contains}
use xdl.Compression.{Lz4}
use xdl.Wal.{sync}
use xdl.Database.{Db}
use xdl.Database.Writes.{is_in_index, check_size, check_inserts, insert_each, insert_batch}
use xdl.Database.Map.{IsDb, row_of, while_open}
use xdl.Database.Writable.{same_count, sync-open}
use xdl.Database.Inserts.{insert_unlocked-IsInserted, absent_id}
use xdl.Database.Batches.{Distinct, row_ids}

-- The row fits the schema and a page.
pub record IsInsertable (s : Schema) (row : Row) : Type 0 where
  pub fits : RowFits s row
  pub need : ℕ
  pub sized : row_byte_size row s ≡ ok need
  pub small : need ≤ page_size

-- The map with the rows put in, one after the other.
abbrev pub with_inserted : List Row → (ℕ → Option Row) → ℕ → Option Row
with_inserted [] f = f
with_inserted (r ∷ rows) f = with_inserted rows (λ j. if r.id == j then some r else f j)

contains-skip : (j x : ℕ) (xs : List ℕ) → (x == j) ≡ false → contains j (x ∷ xs) ≡ contains j xs
unfolding contains
contains-skip j x xs other = rw other

contains_nothing : (j : ℕ) → contains j [] ≡ false
unfolding contains
contains_nothing j = refl

new-All :
    (m f : ℕ → Option Row) (row : Row) (rows : List Row)
    → ((j : ℕ) → m j ≡ (if row.id == j then some row else f j))
    → contains row.id (row_ids rows) ≡ false
    → All (λ r. f r.id ≡ none) rows
    → All (λ r. m r.id ≡ none) rows
unfolding contains
new-All m f row [] e new h = tt
new-All m f row (r ∷ rows) e new h =
    (ground (arith, e r.id, h.0), new-All m f row rows e (ground arith) h.1)

module _ (z : Lz4) where
  -- The rows were inserted.
  pub record IsBatch (db : Db) (pages : ℕ → List Row) (rows : List Row) {A : Type 0} (a : A)
      (r : Db × Result A) : Type 0 where
    pub after : Db
    pub pages_after : ℕ → List Row
    pub result : r ≡ (after, ok a)
    pub is_db : IsDb z after pages_after
    pub finds :
        (j : ℕ)
        → row_of after.pager.index pages_after j
          ≡ with_inserted rows (row_of db.pager.index pages) j

  insert_each-IsBatch :
      (rows : List Row) (db : Db) (pages : ℕ → List Row)
      → IsDb z db pages
      → All (IsInsertable db.schema) rows
      → Distinct (row_ids rows)
      → All (λ r. row_of db.pager.index pages r.id ≡ none) rows
      → db.indexes ≡ []
      → db.pager.next_page_id + length rows < 2 ^ 32
      → IsBatch db pages rows tt (insert_each z rows db)
  unfolding insert_each
  insert_each-IsBatch [] db pages k fit distinct new plain few = record {
    after = db;
    pages_after = pages;
    result = refl;
    is_db = k;
    finds = λ j. refl;
  }
  insert_each-IsBatch (row ∷ rows) db pages k fit distinct new plain few =
      let i =
        insert_unlocked-IsInserted z db pages k row fit.0.need false fit.0.fits fit.0.sized
          fit.0.small (omega arith) plain new.0 in
      let later =
        insert_each-IsBatch rows i.after i.rows i.is_db
          (subst (λ s. All (IsInsertable s) rows) (sym i.same_schema) fit.1) distinct.1
          (new-All (row_of i.after.pager.index i.rows) (row_of db.pager.index pages) row rows
            i.finds distinct.0 new.1)
          i.plain (omega (arith, i.at_most_one)) in
      record {
        after = later.after;
        pages_after = later.pages_after;
        result = ap (λ r. after_call r (λ u. insert_each z rows)) i.result ∙ later.result;
        is_db = later.is_db;
        finds = λ j. later.finds j ∙ ap (λ f. with_inserted rows f j) (fun_ext i.finds);
      }

  -- The validation accepts such a batch.
  accepts :
      (db : Db) (pages : ℕ → List Row)
      → IsDb z db pages
      → (seen : List ℕ) (rows : List Row) → All (IsInsertable db.schema) rows
      → Distinct (row_ids rows)
      → All (λ r. row_of db.pager.index pages r.id ≡ none) rows
      → ((j : ℕ) → contains j seen ≡ true → contains j (row_ids rows) ≡ false)
      → check_inserts db seen rows ≡ ok tt
  unfolding check_inserts check_size serialised_row_size
  accepts db pages k seen [] fit distinct new apart = refl
  accepts db pages k seen (row ∷ rows) fit distinct new apart =
      let count : (length row.fields == length db.schema.fields) ≡ true =
        (let e = same_count db.schema.fields row.fields fit.0.fits.fields_fit in ground arith) in
      let free : is_in_index db row.id ≡ false =
        ap {B = Bool} (λ (o : Option IndexEntry). elim o [ none ↦ false | some _ ↦ true ])
          (absent_id z db pages k row.id new.0) in
      rw (count, free, unseen, fit.0.sized, le→ltb_false page_size fit.0.need fit.0.small)
        (accepts db pages k (row.id ∷ seen) rows fit.1 distinct.1 new.1 later)
    where
      unseen : contains row.id seen ≡ false
      unseen = elim (Bool-cases (contains row.id seen)) [
        | inl old ↦ (let no = apart row.id old in unfold contains in ground arith)
        | inr fresh ↦ fresh
      ]

      later : (j : ℕ) → contains j (row.id ∷ seen) ≡ true → contains j (row_ids rows) ≡ false
      later j old = elim (Bool-cases (row.id == j)) [
        | inl same ↦
            let e : row.id ≡ j = ground arith in
            subst (λ i. contains i (row_ids rows) ≡ false) e distinct.0
        | inr other ↦
            sym (contains-skip j row.id (row_ids rows) other)
            ∙ apart j (sym (contains-skip j row.id seen other) ∙ old)
      ]

  -- In a well-formed open database whose pages are stored without compression, which has no secondary
  -- index and whose page ids do not wrap around, `insert_batch` of at least one row, where the rows fit
  -- the schema and a page and have ids that differ and are not in use, inserts them all and returns how
  -- many they are: afterwards the database stands for the map with the rows put in.
  pub insert_batch-IsBatch :
      (db : Db) (pages : ℕ → List Row) (row : Row) (rows : List Row)
      → IsDb z db pages
      → All (IsInsertable db.schema) (row ∷ rows)
      → Distinct (row_ids (row ∷ rows))
      → All (λ r. row_of db.pager.index pages r.id ≡ none) (row ∷ rows)
      → db.indexes ≡ []
      → db.pager.next_page_id + suc (length rows) < 2 ^ 32
      → IsBatch db pages (row ∷ rows) (suc (length rows)) (insert_batch z (row ∷ rows) db)
  unfolding insert_batch
  insert_batch-IsBatch db pages row rows k fit distinct new plain few =
      let b = insert_each-IsBatch (row ∷ rows) db pages k fit distinct new plain few in
      let some_rows : (length (row ∷ rows) == 0) ≡ false = ground arith in
      let checked =
        accepts db pages k [] (row ∷ rows) fit distinct new
          (λ j old. absurd (cc (old, contains_nothing j))) in
      record {
        after = record b.after { wal = sync b.after.wal };
        pages_after = b.pages_after;
        result = while_open _ db k.opened ∙ rw (some_rows, checked, b.result);
        is_db = record {
          opened = b.is_db.opened;
          serving = b.is_db.serving;
          index_valid = b.is_db.index_valid;
          log_open = sync-open b.after.wal ∙ b.is_db.log_open;
          placed = b.is_db.placed;
        };
        finds = b.finds;
      }
