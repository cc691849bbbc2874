-- ===== src/Database/Writable.antt =====
-- The page that `insert` appends a row to, and the log that takes its record.
use xdl.Prelude.{
  ℕ, zero, suc, ◌+◌, ◌-◌, ◌^◌, ◌≤◌, ◌<◌, ◌≡◌, ◌∙◌, sym, refl, ap, inl, inr, Bool, true, false, ◌&&◌,
  some, List, [], ◌∷◌, ◌++◌, Result, ok, length, leb, ◌==◌, get_elem?, if◌then◌else◌, le→ltb_false,
  Bool-cases, arith,
}
use mathlib.Core.Path.{subst}
use xdl.Prelude.Calls.{return}
use xdl.Schema.{FieldDef, Schema}
use xdl.Row.{FieldValue, Row}
use xdl.RowCodec.{page_size, row_byte_size, serialised_row_size}
use xdl.RowCodec.RoundTrip.{FieldsFit}
use xdl.Page.{Page, has_capacity}
use xdl.Page.Holds.{Holds, Images, concat}
use xdl.Compression.{Lz4}
use xdl.WalFormat.{RecordType, WalRecord, encode_record}
use xdl.Wal.{
  Wal, flush_write_buffer, fsync_if_dirty, ensure_buffer_space, record_size, write_record, sync,
  log_insert,
}
use xdl.Wal.Sync.{record_size-enough}
use xdl.Pager.{Pager, new_page}
use xdl.Pager.Reads.{IsServing, get_page-IsServing}
use xdl.Pager.Writes.{with_rows, new_page-IsServing}
use xdl.Cache.{find_page}
use xdl.Database.{Db, with_pager, on_pager, get_or_create_writable_page}
use xdl.Database.Map.{IsDb}

flush_write_buffer-open : (w : Wal) → (flush_write_buffer w).is_open ≡ w.is_open
unfolding flush_write_buffer
flush_write_buffer-open w = ground arith

pub sync-open : (w : Wal) → (sync w).is_open ≡ w.is_open
unfolding sync fsync_if_dirty
sync-open w = ground (arith, flush_write_buffer-open w)

ensure_buffer_space-open : (w : Wal) (n : ℕ) → (ensure_buffer_space w n).is_open ≡ w.is_open
unfolding ensure_buffer_space
ensure_buffer_space-open w n = ground (arith, flush_write_buffer-open w)

recorded : Wal → WalRecord → Wal
recorded w r =
    let w' = ensure_buffer_space w (record_size (length r.row_data)) in
    record w' { write_buf = w'.write_buf ++ encode_record r }

place : Wal → WalRecord → ℕ
place w r =
    let w' = ensure_buffer_space w (record_size (length r.row_data)) in
    w'.current_offset + length w'.write_buf

write_record-recorded :
    (w : Wal) (r : WalRecord)
    → w.is_open ≡ true
    → 21 + length r.row_data < 2 ^ 32
    → write_record w r ≡ ok (recorded w r, place w r)
unfolding write_record recorded place
write_record-recorded w r h short = rw (h, record_size-enough r short)

recorded-open : (w : Wal) (r : WalRecord) → w.is_open ≡ true → (recorded w r).is_open ≡ true
unfolding recorded
recorded-open w r h = ensure_buffer_space-open w (record_size (length r.row_data)) ∙ h

-- A log that is open takes a record of fewer than 2^32 bytes and stays open.
pub log_insert-open :
    (w : Wal) (id page slot : ℕ) (bytes : List ℕ) (now : Bool)
    → w.is_open ≡ true
    → 21 + length bytes < 2 ^ 32
    → (w' : Wal) × (offset : ℕ) × (log_insert w id page slot bytes now ≡ ok (w', offset))
      × (w'.is_open ≡ true)
unfolding log_insert
log_insert-open w id page slot bytes now h short = by_sync now
  where
    rec : WalRecord
    rec = record {
      type = RecordType.insert;
      row_id = id;
      page_id = page;
      row_slot = slot;
      row_data = bytes;
    }

    by_sync :
        (now : Bool)
        → (w' : Wal) × (offset : ℕ) × (log_insert w id page slot bytes now ≡ ok (w', offset))
          × (w'.is_open ≡ true)
    by_sync true = (
      sync (recorded w rec),
      place w rec,
      rw (write_record-recorded w rec h short),
      sync-open (recorded w rec) ∙ recorded-open w rec h,
    )
    by_sync false = (
      recorded w rec,
      place w rec,
      rw (write_record-recorded w rec h short),
      recorded-open w rec h,
    )

pub same_count :
    (ds : List FieldDef) (vs : List FieldValue) → FieldsFit ds vs → length vs ≡ length ds
same_count [] [] h = refl
same_count (d ∷ ds) (v ∷ vs) h = ap suc (same_count ds vs h.1)
same_count [] (v ∷ vs) h = absurd h
same_count (d ∷ ds) [] h = absurd h

no_rows : (s : Schema) (chunks : List (List ℕ)) → Images s [] chunks → concat chunks ≡ []
unfolding concat
no_rows s [] h = refl
no_rows s (b ∷ bs) h = absurd h

pub get_elem?-append :
    {A : Type 0} (xs ys : List A) (i : ℕ) {x : A}
    → get_elem? xs i ≡ some x
    → get_elem? (xs ++ ys) i ≡ some x
get_elem?-append [] ys i h = cc
get_elem?-append (x ∷ xs) ys zero h = h
get_elem?-append (x ∷ xs) ys (suc i) h = get_elem?-append xs ys i h

module _ (z : Lz4) (db : Db) (pages : ℕ → List Row) (k : IsDb z db pages) where
  -- The page that `get_or_create_writable_page` has found or made for a row of `n` bytes.
  pub record IsWritable (n : ℕ) (r : Db × Result Page) : Type 0 where
    pub pager : Pager
    pub page : Page
    pub rows : ℕ → List Row
    pub result : r ≡ (record db { pager = pager }, ok page)
    pub serving : IsServing z db.schema pager rows
    pub cached : find_page page.id pager.cache.lru ≡ some page
    pub holds : Holds db.schema page (rows page.id)
    pub room : length page.bytes + n ≤ page_size
    pub below : page.id < pager.next_page_id
    pub same_index : pager.index ≡ db.pager.index
    pub grows : db.pager.next_page_id ≤ pager.next_page_id
    pub at_most_one : pager.next_page_id ≤ db.pager.next_page_id + 1
    pub same_rows : (j : ℕ) → j < db.pager.next_page_id → rows j ≡ pages j

  new_IsWritable :
      (n : ℕ)
      → n ≤ page_size
      → (g0 g : Pager) → IsServing z db.schema g pages
      → g.index ≡ db.pager.index
      → g.next_page_id ≡ db.pager.next_page_id
      → g.next_page_id + 1 < 2 ^ 32
      → IsWritable n (with_pager (record db { pager = g0 }) (new_page z g))
  new_IsWritable n fits g0 g serving same_index same_next few =
      let (g', p, made, holds, named, marked, cached, next, index, serving') =
        new_page-IsServing z db.schema g pages serving few in
      record {
        pager = g';
        page = p;
        rows = with_rows g.next_page_id [] pages;
        result = rw made;
        serving = serving';
        cached = subst (λ i. find_page i g'.cache.lru ≡ some p) (sym named) cached;
        holds = subst (Holds db.schema p) (ground (arith, named)) holds;
        room =
            omega
              (arith, fits, ap length (holds.packed ∙ no_rows db.schema holds.chunks holds.images));
        below = omega (arith, named, next);
        same_index = index ∙ same_index;
        grows = omega (arith, next, same_next);
        at_most_one = omega (arith, next, same_next);
        same_rows = λ j low. ground (arith, same_next);
      }

  last_or_new :
      (n : ℕ)
      → n ≤ page_size
      → db.pager.next_page_id + 1 < 2 ^ 32
      → (g : Pager) (p : Page) → 0 < db.pager.next_page_id
      → Holds db.schema p (pages (db.pager.next_page_id - 1))
      → p.id ≡ db.pager.next_page_id - 1
      → find_page (db.pager.next_page_id - 1) g.cache.lru ≡ some p
      → g.next_page_id ≡ db.pager.next_page_id
      → g.index ≡ db.pager.index
      → IsServing z db.schema g pages
      → IsWritable n (
          (if has_capacity p && leb (length p.bytes + n) page_size
              then return p
              else on_pager (new_page z))
            (record db { pager = g }))
  last_or_new n fits few g p pos holds named cached same_next same_index serving =
      elim (Bool-cases (has_capacity p && leb (length p.bytes + n) page_size)) [
        | inl full ↦ rw full (record {
          pager = g;
          page = p;
          rows = pages;
          result = refl;
          serving = serving;
          cached = subst (λ i. find_page i g.cache.lru ≡ some p) (sym named) cached;
          holds = subst (λ i. Holds db.schema p (pages i)) (sym named) holds;
          room = ground arith;
          below = omega (arith, named, same_next, pos);
          same_index = same_index;
          grows = omega (arith, same_next);
          at_most_one = omega (arith, same_next);
          same_rows = λ j low. refl;
        })
        | inr no_room ↦
            rw no_room (
              new_IsWritable n fits g g serving same_index same_next
                (omega (arith, same_next, few)))
      ]

  -- A row that fits a page gets one, whether it is the last one or a new one.
  pub writable :
      (row : Row) (n : ℕ)
      → row_byte_size row db.schema ≡ ok n
      → n ≤ page_size
      → db.pager.next_page_id + 1 < 2 ^ 32
      → IsWritable n (get_or_create_writable_page z row db)
  unfolding get_or_create_writable_page serialised_row_size
  writable row n sized fits few = elim (Bool-cases (db.pager.next_page_id == 0)) [
    | inl empty ↦
        rw (sized, le→ltb_false page_size n fits, empty)
          (new_IsWritable n fits db.pager db.pager k.serving refl refl few)
    | inr some_page ↦
        let (g, p, got, holds, named, cached, same_next, same_index, serving) =
          get_page-IsServing z db.schema db.pager pages k.serving (db.pager.next_page_id - 1)
            (ground arith) in
        rw (sized, le→ltb_false page_size n fits, some_page, got)
          (last_or_new n fits few g p (ground arith) holds named cached same_next same_index
            serving)
  ]
