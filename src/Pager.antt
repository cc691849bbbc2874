-- ===== src/Pager.antt =====
-- src/pager.cpp: the pager, which serves pages from the cache and the file. LZ4 is a parameter. The
-- file and the primary index, which the pager only refers to, are in its state. A reference into
-- the cache is the page's id, and `set_page` is what a caller does through it. File offsets stay far
-- below 2 ^ 64, since a page id is less than 2 ^ 32.
pub mod Recover
pub mod Blocks
pub mod Serves
pub mod Reads
pub mod Writes
pub mod Fresh
pub mod Flush
pub mod FlushAll
use xdl.Prelude.{
  ℕ, zero, suc, ◌+◌, ◌-◌, ◌*◌, ◌%◌, ◌^◌, Bool, true, false, ◌||◌, Option, none, some, List, [], ◌∷◌,
  Result, ok, err, fault, not_found, duplicate_key, length, leb, ltb, ◌==◌, not, if◌then◌else◌,
  ◌>>=◌,
}
use xdl.Prelude.Calls.{Call, after_call}
use xdl.Schema.{Schema}
use xdl.Row.{Row}
use xdl.RowCodec.{page_size}
use xdl.Page.{Page, rebuild_row_offsets, get_row}
use xdl.SortedPairs.{IndexEntry}
use xdl.Index.{IndexManager, insert, update_offsets_for_page, prepare}
use xdl.Storage.{
  Storage, DbHeader, PageHeader, page_header_size, read_db_header, write_db_header, read_page_raw,
  overwrite_page_raw, data_start_offset, file_size,
}
use xdl.Compression.{Lz4, compress, decompress}
use xdl.Cache.{PageCache, new_cache, get, put_shared}

abbrev pub page_slot_size : ℕ
page_slot_size = page_header_size + page_size

unfoldable pub page_file_offset : ℕ → ℕ → ℕ
page_file_offset data_start page_id = data_start + page_id * page_slot_size

-- UINT64_MAX.
abbrev pub no_offset : ℕ
no_offset = 2 ^ 64 - 1

pub record Pager : Type 0 where
  pub storage : Storage
  pub index : IndexManager
  pub cache : PageCache
  pub next_page_id : ℕ
  pub page_offsets : ℕ → Option ℕ

abbrev pub new_pager : Storage → IndexManager → ℕ → Pager
new_pager storage index cache_capacity = record {
  storage = storage;
  index = index;
  cache = new_cache cache_capacity;
  next_page_id = 0;
  page_offsets = λ id. none;
}

abbrev pub set_offset : ℕ → ℕ → (ℕ → Option ℕ) → ℕ → Option ℕ
set_offset page_id offset offsets id = if page_id == id then some offset else offsets id

unfoldable pub page_offset : Pager → ℕ → ℕ
page_offset g page_id = elim (g.page_offsets page_id) [ none ↦ no_offset | some offset ↦ offset ]

-- The write through a reference into the cache, in the model's state: the page of the same id in the
-- list is replaced. No function of the code does this; callers of `set_page` are those that assign to
-- fields of the page.
unfoldable pub replace_page : Page → List Page → List Page
replace_page page [] = []
replace_page page (p ∷ ps) =
    let rest = replace_page page ps in if p.id == page.id then page ∷ ps else p ∷ rest

unfoldable pub set_page : Pager → Page → Pager
set_page g page = record g { cache = record g.cache { lru = replace_page page g.cache.lru } }

unfoldable pub dirty_ids : List Page → List ℕ
dirty_ids [] = []
dirty_ids (p ∷ ps) = if p.dirty then p.id ∷ dirty_ids ps else dirty_ids ps

unfoldable pub insert_id : ℕ → List ℕ → List ℕ
insert_id id [] = id ∷ []
insert_id id (x ∷ xs) = if leb id x then id ∷ x ∷ xs else x ∷ insert_id id xs

unfoldable pub sort_ids : List ℕ → List ℕ
sort_ids [] = []
sort_ids (id ∷ ids) = insert_id id (sort_ids ids)

module _ (z : Lz4) where
  abbrev pub written_header : ℕ → Page → List ℕ → PageHeader
  written_header type page blob = record {
    page_id = page.id;
    compressed_size = length blob % 2 ^ 32;
    uncompressed_size = length page.bytes % 2 ^ 32;
    row_count = page.row_count;
    compression_type = type;
    pad = 0;
  }

  unfoldable pub write_page_to_disk : Pager → Page → Result (Pager × ℕ)
  write_page_to_disk g page = do
    blob ← compress z g.storage.compression page.bytes
    let offset = page_file_offset (data_start_offset g.storage) page.id
    ok (
      record g {
        storage =
            overwrite_page_raw g.storage offset (written_header g.storage.compression page blob)
              blob;
        page_offsets = set_offset page.id offset g.page_offsets;
      },
      offset,
    )

  abbrev page_of : ℕ → PageHeader → List ℕ → Page
  page_of id hdr bytes = record {
    id = id;
    bytes = bytes;
    row_count = hdr.row_count;
    dirty = false;
    row_offsets = [];
  }

  abbrev load_at : Storage → ℕ → Option ℕ → Result Page
  load_at storage page_id none = err not_found
  load_at storage page_id (some offset) = do
    (hdr, blob) ← read_page_raw storage offset
    bytes ← decompress z hdr.compression_type blob hdr.uncompressed_size
    rebuild_row_offsets (page_of page_id hdr bytes)

  unfoldable pub load_from_disk : Pager → ℕ → Result Page
  load_from_disk g page_id = load_at g.storage page_id (g.page_offsets page_id)

  -- The callback that the constructor hands to the cache. Once it has thrown, the call that made
  -- the cache evict is over.
  unfoldable pub on_cache_evict : Result Pager → Page → Result Pager
  on_cache_evict r page =
      r >>= λ g. if page.dirty then (do (g', offset) ← write_page_to_disk g page; ok g') else ok g

  -- A throw in `put_shared` comes from the callback, before the cache has changed anything.
  abbrev placed : Pager → (Result Pager × PageCache) × Page → Pager × Result Page
  placed g ((ok g', cache), page) = (record g' { cache = cache }, ok page)
  placed g ((err e, cache), page) = (g, err e)
  placed g ((fault, cache), page) = (g, fault)

  unfoldable pub put_page : Page → Call Pager Page
  put_page page g = placed g (put_shared (some on_cache_evict) (ok g) g.cache page)

  abbrev found_or_loaded : Pager → ℕ → Option Page × PageCache → Pager × Result Page
  found_or_loaded g page_id (some page, cache) = (record g { cache = cache }, ok page)
  found_or_loaded g page_id (none, cache) = after_call (g, load_from_disk g page_id) put_page

  -- `get_page` and `get_mutable_page` differ in what the caller may do with the page.
  unfoldable pub get_page : ℕ → Call Pager Page
  get_page page_id g = found_or_loaded g page_id (get g.cache page_id)

  unfoldable pub new_page : Call Pager Page
  new_page g =
      put_page
        (record { id = g.next_page_id; bytes = []; row_count = 0; dirty = true; row_offsets = [] })
        (record g { next_page_id = (g.next_page_id + 1) % 2 ^ 32 })

  abbrev marked : Pager → Option Page × PageCache → Pager
  marked g (none, cache) = g
  marked g (some page, cache) = set_page (record g { cache = cache }) (record page { dirty = true })

  unfoldable pub mark_dirty : Pager → ℕ → Pager
  mark_dirty g page_id = marked g (get g.cache page_id)

  -- What both flushes do once the page is written: `always` is whether the index is told of an
  -- offset that it knows.
  abbrev pub flushed : Bool → Pager → Page → Result (Pager × ℕ) → Pager × Result (Unit {0})
  flushed always g page (ok (g', offset)) = (
    set_page
        (if always || not (offset == page_offset g page.id)
          then record g' { index = update_offsets_for_page g'.index page.id offset }
          else g')
        (record page { dirty = false }),
    ok tt,
  )
  flushed always g page (err e) = (g, err e)
  flushed always g page fault = (g, fault)

  abbrev pub flush_found : Bool → Pager → Option Page × PageCache → Pager × Result (Unit {0})
  flush_found always g (none, cache) = (g, ok tt)
  flush_found always g (some page, cache) =
      let g' = record g { cache = cache } in
      if page.dirty then flushed always g' page (write_page_to_disk g' page) else (g', ok tt)

  unfoldable pub flush_page : ℕ → Call Pager (Unit {0})
  flush_page page_id g = flush_found true g (get g.cache page_id)

  unfoldable pub flush_each : List ℕ → Call Pager (Unit {0})
  flush_each [] g = (g, ok tt)
  flush_each (id ∷ ids) g =
      after_call (flush_found false g (get g.cache id)) (λ unit. flush_each ids)

  abbrev pub counted : Pager → Result DbHeader → Pager × Result (Unit {0})
  counted g (ok hdr) = (
    record g { storage = write_db_header g.storage (record hdr { page_count = g.next_page_id }) },
    ok tt,
  )
  counted g (err e) = (g, err e)
  counted g fault = (g, fault)

  unfoldable pub flush_all : Call Pager (Unit {0})
  flush_all g =
      after_call (flush_each (sort_ids (dirty_ids g.cache.lru)) g)
        (λ unit g'. counted g' (read_db_header g'.storage))
