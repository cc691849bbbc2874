-- ===== src/Database/Map.antt =====
-- The map from ids to rows that a database stands for, and the point lookups in it.
use xdl.Prelude.{
  ℕ, ◌<◌, ◌≡◌, ◌∙◌, refl, ap, inl, inr, Bool, true, Option, none, some, List, ok, err, xdl_error,
  not_found, get_elem?, if◌then◌else◌, Option-cases,
}
use xdl.Prelude.Calls.{Call, after_call, ◌>>◌}
use xdl.Row.{Row}
use xdl.Page.Refinement.{get_row-Holds}
use xdl.SortedPairs.{IndexEntry}
use xdl.Index.{IndexManager, find}
use xdl.Index.Valid.{IsValid}
use xdl.Compression.{Lz4}
use xdl.Pager.{Pager}
use xdl.Pager.Reads.{IsServing, get_page-IsServing}
use xdl.Database.{Db, is_open_or_throw}
use xdl.Database.Writes.{get_unlocked, get, or_absent, try_get}

-- The row that an index entry stands for.
abbrev pub row_at_entry : (ℕ → List Row) → Option IndexEntry → Option Row
row_at_entry pages none = none
row_at_entry pages (some e) = get_elem? (pages e.page_id) e.row_slot

abbrev pub row_of : IndexManager → (ℕ → List Row) → ℕ → Option Row
row_of m pages id = row_at_entry pages (find m id)

-- What follows the test for an open database.
pub while_open :
    {A : Type 0} (call : Call Db A) (db : Db)
    → db.is_open ≡ true
    → (is_open_or_throw >> call) db ≡ call db
while_open call db h =
    ap
      (λ (b : Bool).
        after_call (if b then (db, ok tt) else (db, err xdl_error)) (λ (u : Unit {0}). call))
      h

module _ (z : Lz4) where
  caught :
      (db : Db) (o : Option Row)
      → or_absent z (db, elim o [ none ↦ err not_found | some r ↦ ok r ]) ≡ (db, ok o)
  caught db none = refl
  caught db (some r) = refl

  -- The well-formed open database, whose pages are stored without compression and stand for lists of
  -- rows: each index entry leads to a row.
  pub record IsDb (db : Db) (pages : ℕ → List Row) : Type 0 where
    pub opened : db.is_open ≡ true
    pub serving : IsServing z db.schema db.pager pages
    pub index_valid : IsValid db.pager.index
    pub log_open : db.wal.is_open ≡ true
    pub placed :
        (id : ℕ) (e : IndexEntry)
        → find db.pager.index id ≡ some e
        → (e.page_id < db.pager.next_page_id)
          × (r : Row) × (get_elem? (pages e.page_id) e.row_slot ≡ some r)

  module _ (db : Db) (pages : ℕ → List Row) (k : IsDb db pages) where
    -- Another pager of the same index that serves the same pages.
    pub repaged_IsDb :
        (g : Pager)
        → IsServing z db.schema g pages
        → g.index ≡ db.pager.index
        → g.next_page_id ≡ db.pager.next_page_id
        → IsDb (record db { pager = g }) pages
    repaged_IsDb g serving same_index same_next = record {
      opened = k.opened;
      serving = serving;
      index_valid = rw same_index k.index_valid;
      log_open = k.log_open;
      placed = λ id e found. rw same_next (k.placed id e (rw (← same_index) found));
    }

    found_or_absent :
        (id : ℕ)
        → (db' : Db) × (get_unlocked z id db
            ≡ (db', elim (row_of db.pager.index pages id) [ none ↦ err not_found | some r ↦ ok r ]))
          × IsDb db' pages
          × (db'.pager.index ≡ db.pager.index)
    unfolding get_unlocked
    found_or_absent id = elim (Option-cases (find db.pager.index id)) [
      | inl absent ↦ (db, rw absent, k, refl)
      | inr (e, found) ↦
          let (low, r, there) = k.placed id e found in
          let (g, p, got, holds, named, cached, same_next, same_index, serving) =
            get_page-IsServing z db.schema db.pager pages k.serving e.page_id low in
          (
            record db { pager = g },
            rw (found, got, get_row-Holds db.schema p (pages e.page_id) e.row_slot holds, there),
            repaged_IsDb g serving same_index same_next,
            same_index,
          )
    ]

    -- In a well-formed open database whose pages are stored without compression, `get` returns the row
    -- that the id stands for, or throws that there is none, even if a page has to be read from the file
    -- and another one evicted; the database then stands for the same map.
    pub get-row_of :
        (id : ℕ)
        → (db' : Db) × (get z id db
            ≡ (db', elim (row_of db.pager.index pages id) [ none ↦ err not_found | some r ↦ ok r ]))
          × IsDb db' pages
          × (db'.pager.index ≡ db.pager.index)
    unfolding get
    get-row_of id =
        let (db', got, k', same) = found_or_absent id in
        (db', while_open (get_unlocked z id) db k.opened ∙ got, k', same)

    -- `try_get` returns the row, or that there is none, and does not throw.
    pub try_get-row_of :
        (id : ℕ)
        → (db' : Db) × (try_get z id db ≡ (db', ok (row_of db.pager.index pages id)))
          × IsDb db' pages
          × (db'.pager.index ≡ db.pager.index)
    unfolding try_get
    try_get-row_of id =
        let (db', got, k', same) = found_or_absent id in
        (
          db',
          while_open (λ d. or_absent z (get_unlocked z id d)) db k.opened
              ∙ (ap (or_absent z) got ∙ caught db' (row_of db.pager.index pages id)),
          k',
          same,
        )
