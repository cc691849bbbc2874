-- ===== src/Pager/FlushAll.antt =====
-- `flush_all`: afterwards every page is in the file.
use xdl.Prelude.{
  ℕ, ◌+◌, ◌≤◌, ◌<◌, ◌≡◌, ◌∙◌, sym, refl, ap, ◌≢◌, inl, inr, Bool, true, false, Option, some, List,
  [], ◌∷◌, ok, All, leb, ◌==◌, if◌then◌else◌, bind-eq-ok, Bool-cases, Option-cases, arith,
}
use mathlib.Core.Path.{subst}
use xdl.Prelude.Calls.{after_call}
use xdl.Schema.{Schema}
use xdl.Row.{Row}
use xdl.Page.{Page}
use xdl.Storage.{
  Storage, DbHeader, PageHeader, safe_pread, db_header_bytes, read_db_header, write_db_header,
  read_page_raw, page_header_of, data_start_offset,
}
use xdl.Storage.Ranges.{safe_pread_apart}
use xdl.Storage.Blocks.{DbHeaderFits, length-db_header, read_db_header-write_db_header}
use xdl.Compression.{Lz4}
use xdl.Cache.{find_page}
use xdl.Pager.{
  Pager, page_file_offset, flush_each, flush_all, dirty_ids, insert_id, sort_ids, counted,
}
use xdl.Pager.Blocks.{IsFormatted, IsOnDisk, data_start}
use xdl.Pager.Reads.{IsServing}
use xdl.Pager.Flush.{IsFlushed, flush_found-IsFlushed}

All-insert_id : (P : ℕ → Type 0) (x : ℕ) (xs : List ℕ) → All P (insert_id x xs) → P x × All P xs
unfolding insert_id
All-insert_id P x [] h = h
All-insert_id P x (y ∷ ys) h = split (leb x y) h (All-insert_id P x ys)
  where
    split :
        (c : Bool)
        → All P (if c then x ∷ y ∷ ys else y ∷ insert_id x ys)
        → (All P (insert_id x ys) → P x × All P ys)
        → P x × (P y × All P ys)
    split true h ih = h
    split false h ih = let (here, rest) = ih h.1 in (here, (h.0, rest))

All-sort_ids : (P : ℕ → Type 0) (xs : List ℕ) → All P (sort_ids xs) → All P xs
unfolding sort_ids
All-sort_ids P [] h = tt
All-sort_ids P (x ∷ xs) h =
    let (here, rest) = All-insert_id P x (sort_ids xs) h in (here, All-sort_ids P xs rest)

behind_if :
    (P : ℕ → Type 0) (c : Bool) (x : ℕ) (xs : List ℕ) → All P (if c then x ∷ xs else xs) → All P xs
behind_if P true x xs h = h.1
behind_if P false x xs h = h

head_if :
    (P : ℕ → Type 0) (c : Bool) (x : ℕ) (xs : List ℕ)
    → c ≡ true
    → All P (if c then x ∷ xs else xs)
    → P x
head_if P true x xs e h = h.0
head_if P false x xs e h = absurd cc

-- A dirty page is among the dirty ones.
dirty_listed :
    (j : ℕ) (p : Page) (ps : List Page)
    → find_page j ps ≡ some p
    → p.dirty ≡ true
    → All (λ i. j ≢ i) (dirty_ids ps)
    → ⊥
unfolding find_page dirty_ids
dirty_listed j p [] found dirty h = cc
dirty_listed j p (q ∷ ps) found dirty h = elim (Bool-cases (q.id == j)) [
  | inl same ↦
      let is_p : q ≡ p = ground arith in
      let e : j ≡ q.id = ground arith in
      head_if (λ i. j ≢ i) q.dirty q.id (dirty_ids ps) (ap (λ x. x.dirty) is_p ∙ dirty) h e
  | inr differ ↦
      let later : find_page j ps ≡ some p = ground arith in
      dirty_listed j p ps later dirty (behind_if (λ i. j ≢ i) q.dirty q.id (dirty_ids ps) h)
]

module _ (s : Storage) (hdr : DbHeader) where
  kept_behind :
      (n start : ℕ) {xs : List ℕ}
      → 20 ≤ start
      → safe_pread s.disk n start ≡ ok xs
      → safe_pread (write_db_header s hdr).disk n start ≡ ok xs
  unfolding write_db_header
  kept_behind n start h read =
      safe_pread_apart s.disk (db_header_bytes hdr) 0 n start
        (inr (omega (arith, length-db_header hdr))) read

  header_IsFormatted : IsFormatted s → IsFormatted (write_db_header s hdr)
  header_IsFormatted f = record {
    size_word = f.size_word;
    there = kept_behind 4 20 (omega arith) f.there;
    bounded = f.bounded;
  }

  header_start : IsFormatted s → data_start_offset (write_db_header s hdr) ≡ data_start_offset s
  header_start f =
      data_start (write_db_header s hdr) f.size_word (kept_behind 4 20 (omega arith) f.there)
        f.bounded
      ∙ sym (data_start s f.size_word f.there f.bounded)

  header_block :
      (offset : ℕ) {r : PageHeader × List ℕ}
      → 20 ≤ offset
      → read_page_raw s offset ≡ ok r
      → read_page_raw (write_db_header s hdr) offset ≡ ok r
  unfolding read_page_raw
  header_block offset h read =
      let (bytes, front, after) = bind-eq-ok (safe_pread s.disk 20 offset) _ read in
      let (blob, back, pair) =
        bind-eq-ok (safe_pread s.disk (page_header_of bytes).compressed_size (offset + 20)) _
          after in
      rw
        (
          kept_behind 20 offset h front,
          kept_behind (page_header_of bytes).compressed_size (offset + 20) (omega arith) back,
        )
        pair

  module _ (z : Lz4) (schema : Schema) (f : IsFormatted s) where
    header_IsOnDisk :
        (offsets : ℕ → Option ℕ) (id : ℕ) (rows : List Row)
        → IsOnDisk z schema s offsets id rows
        → IsOnDisk z schema (write_db_header s hdr) offsets id rows
    header_IsOnDisk offsets id rows d = record {
      placed = rw (header_start f) d.placed;
      header = d.header;
      blob = d.blob;
      read = rw (header_start f) (
          header_block (page_file_offset (data_start_offset s) id)
            (unfold page_file_offset in omega (arith, data_start s f.size_word f.there f.bounded))
            d.read);
      fits = d.fits;
      page = d.page;
      named = d.named;
      clean = d.clean;
      counted = d.counted;
      unpacked = d.unpacked;
      holds = d.holds;
    }

module _ (z : Lz4) (schema : Schema) (pages : ℕ → List Row) where
  flush_each-IsFlushed :
      (ids : List ℕ) (g : Pager)
      → IsServing z schema g pages
      → IsFlushed z schema pages g ids (flush_each z ids g)
  unfolding flush_each
  flush_each-IsFlushed [] g k = record {
    after = g;
    result = refl;
    serving = k;
    same_next = refl;
    header = λ hdr read. read;
    cleaned = λ j dirty. (tt, dirty);
  }
  flush_each-IsFlushed (id ∷ ids) g k =
      let first = flush_found-IsFlushed z schema pages g k id false in
      let more = flush_each-IsFlushed ids first.after first.serving in
      record {
        after = more.after;
        result = ap (λ r. after_call r (λ u. flush_each z ids)) first.result ∙ more.result;
        serving = more.serving;
        same_next = more.same_next ∙ first.same_next;
        header = λ hdr read. more.header hdr (first.header hdr read);
        cleaned = λ j dirty.
            let (later, before) = more.cleaned j dirty in
            let (here, first_dirty) = first.cleaned j before in ((here.0, later), first_dirty);
      }

  -- In a well-formed pager whose pages are stored without compression, over a file that has a header
  -- whose fields fit their widths, `flush_all` returns; then every page below `next_page_id` is in the
  -- file with the rows that it stands for, and the header has the number of pages.
  pub flush_all-IsOnDisk :
      (g : Pager) (hdr : DbHeader)
      → IsServing z schema g pages
      → read_db_header g.storage ≡ ok hdr
      → DbHeaderFits (record hdr { page_count = g.next_page_id })
      → (g' : Pager) × (flush_all z g ≡ (g', ok tt))
        × (g'.next_page_id ≡ g.next_page_id)
        × (read_db_header g'.storage ≡ ok (record hdr { page_count = g.next_page_id }))
        × ((id : ℕ)
            → id < g.next_page_id
            → IsOnDisk z schema g'.storage g'.page_offsets id (pages id))
  unfolding flush_all
  flush_all-IsOnDisk g hdr k read fits =
      let f = flush_each-IsFlushed (sort_ids (dirty_ids g.cache.lru)) g k in
      let new : DbHeader = record hdr { page_count = f.after.next_page_id } in
      let s = write_db_header f.after.storage new in
      (
        record f.after { storage = s },
        ap (λ r. after_call r (λ u g'. counted z g' (read_db_header g'.storage))) f.result
            ∙ ap (counted z f.after) (f.header hdr read),
        f.same_next,
        subst
            (λ n.
              read_db_header (write_db_header f.after.storage (record hdr { page_count = n }))
              ≡ ok (record hdr { page_count = g.next_page_id }))
            (sym f.same_next)
            (read_db_header-write_db_header f.after.storage
              (record hdr { page_count = g.next_page_id }) fits),
        λ id low.
            header_IsOnDisk f.after.storage new z schema f.serving.pool.formatted
              f.after.page_offsets id (pages id) (in_file f id (omega (arith, f.same_next))),
      )
    where
      in_file :
          (f : IsFlushed z schema pages g
            (sort_ids (dirty_ids g.cache.lru))
            (flush_each z (sort_ids (dirty_ids g.cache.lru)) g))
          (id : ℕ)
          → id < f.after.next_page_id
          → IsOnDisk z schema f.after.storage f.after.page_offsets id (pages id)
      in_file f id low = elim (Option-cases (find_page id f.after.cache.lru)) [
        | inl gone ↦ f.serving.stored id low gone
        | inr (p, found) ↦ elim (f.serving.pool.held id p found).1 [
          | inl dirty ↦
              let (listed, (q, before, was_dirty)) = f.cleaned id (p, found, dirty) in
              absurd (
                dirty_listed id q g.cache.lru before was_dirty
                  (All-sort_ids (λ i. id ≢ i) (dirty_ids g.cache.lru) listed))
          | inr d ↦ d
        ]
      ]
