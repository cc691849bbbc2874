-- ===== src/Pager/Blocks.antt =====
-- What `write_page_to_disk` leaves in the file.
use xdl.Prelude.{
  ℕ, ◌+◌, ◌*◌, ◌%◌, ◌^◌, ◌≤◌, ◌<◌, ◌≡◌, ◌∙◌, sym, refl, ap, ◌≢◌, inl, inr, ◌⊎◌, false, Option, some,
  List, [], ◌++◌, ok, length, ltb, le→ltb_false, ltb→lt, Bool-cases, arith,
}
use xdl.Prelude.{bind-eq-ok}
use xdl.Schema.{Schema}
use xdl.Row.{Row}
use xdl.RowCodec.{page_size}
use xdl.Page.{Page}
use xdl.Page.Holds.{Holds, chunks_bound}
use xdl.Page.Erase.{rebuild_row_offsets-Holds}
use xdl.WalFormat.{word_at}
use xdl.Storage.{
  Storage, DbHeader, read_db_header, PageHeader, page_header_bytes, read_page_raw,
  overwrite_page_raw, data_start_offset, safe_pread,
}
use xdl.Storage.Ranges.{safe_pread_apart, taken_of_read}
use xdl.Storage.Blocks.{PageHeaderFits, read_page_raw-overwrite_page_raw, read_page_raw_apart}
use xdl.Compression.{Lz4, no_compression, compress, decompress}
use xdl.Pager.{
  Pager, page_file_offset, page_slot_size, set_offset, written_header, write_page_to_disk,
  load_from_disk,
}

-- The file has a schema block, so that the pages start behind it.
pub record IsFormatted (s : Storage) : Type 0 where
  pub size_word : List ℕ
  pub there : safe_pread s.disk 4 20 ≡ ok size_word
  pub bounded : word_at 0 size_word ≤ 65536

-- The block of these bytes is no longer than its slot, and is decompressed to them. LZ4 documents the
-- second, but not the first: the block of bytes that it does not shrink is longer than they are.
pub record FitsSlot (z : Lz4) (type : ℕ) (bytes : List ℕ) : Type 0 where
  pub is_byte : type < 256
  pub blob : List ℕ
  pub made : compress z type bytes ≡ ok blob
  pub fits : length blob ≤ page_size
  pub back : decompress z type blob (length bytes) ≡ ok bytes

-- A page that is not compressed fits its slot.
pub no_compression-FitsSlot :
    (z : Lz4) (type : ℕ) (bytes : List ℕ)
    → type ≡ no_compression
    → length bytes ≤ page_size
    → FitsSlot z type bytes
unfolding compress decompress
no_compression-FitsSlot z type bytes plain h =
    rw plain
      (record { is_byte = omega arith; blob = bytes; made = refl; fits = h; back = ground arith })

pub data_start :
    (s : Storage) (w : List ℕ)
    → safe_pread s.disk 4 20 ≡ ok w
    → word_at 0 w ≤ 65536
    → data_start_offset s ≡ 24 + word_at 0 w
unfolding data_start_offset
data_start s w there small =
    rw (taken_of_read s.disk 4 20 w there, le→ltb_false 65536 (word_at 0 w) small)

module _ (s : Storage) (f : IsFormatted s) (offset : ℕ) (h : PageHeader) (blob : List ℕ)
    (behind : data_start_offset s ≤ offset) where
  kept : safe_pread (overwrite_page_raw s offset h blob).disk 4 20 ≡ ok f.size_word
  unfolding overwrite_page_raw
  kept =
      safe_pread_apart s.disk (page_header_bytes h ++ blob) offset 4 20
        (inl (omega (arith, data_start s f.size_word f.there f.bounded))) f.there

  -- A write behind the schema block leaves it, and so where the pages start.
  pub overwrite-IsFormatted : IsFormatted (overwrite_page_raw s offset h blob)
  overwrite-IsFormatted = record { size_word = f.size_word; there = kept; bounded = f.bounded }

  -- Nor does it change the database header.
  pub overwrite-header :
      (hdr : DbHeader)
      → read_db_header s ≡ ok hdr
      → read_db_header (overwrite_page_raw s offset h blob) ≡ ok hdr
  unfolding read_db_header overwrite_page_raw
  overwrite-header hdr read =
      let (bytes, front, after) = bind-eq-ok (safe_pread s.disk 20 0) _ read in
      rw
        (safe_pread_apart s.disk (page_header_bytes h ++ blob) offset 20 0
          (inl (omega (arith, data_start s f.size_word f.there f.bounded))) front)
        after

  pub overwrite-data_start :
      data_start_offset (overwrite_page_raw s offset h blob) ≡ data_start_offset s
  overwrite-data_start =
      data_start (overwrite_page_raw s offset h blob) f.size_word kept f.bounded
      ∙ sym (data_start s f.size_word f.there f.bounded)

slots_apart :
    (start a b k l : ℕ)
    → a ≢ b
    → k ≤ page_size
    → l ≤ page_size
    → (start + a * page_slot_size + 20 + k ≤ start + b * page_slot_size)
      ⊎ (start + b * page_slot_size + 20 + l ≤ start + a * page_slot_size)
slots_apart start a b k l differ hk hl = elim (Bool-cases (ltb a b)) [
  | inl before ↦ inl (let lt : a < b = ltb→lt a b before in omega arith)
  | inr behind ↦ inr (let gt : b < a = ground arith in omega arith)
]

module _ (z : Lz4) (schema : Schema) where
  -- The block of the page in the file decodes to a clean page that holds the rows.
  pub record IsOnDisk (storage : Storage) (offsets : ℕ → Option ℕ) (id : ℕ) (rows : List Row)
      : Type 0 where
    pub placed : offsets id ≡ some (page_file_offset (data_start_offset storage) id)
    pub header : PageHeader
    pub blob : List ℕ
    pub read :
        read_page_raw storage (page_file_offset (data_start_offset storage) id) ≡ ok (header, blob)
    pub fits : length blob ≤ page_size
    pub page : Page
    pub named : page.id ≡ id
    pub clean : page.dirty ≡ false
    pub counted : header.row_count ≡ page.row_count
    pub unpacked :
        decompress z header.compression_type blob header.uncompressed_size ≡ ok page.bytes
    pub holds : Holds schema page rows

  -- Such a page is loaded.
  pub load_from_disk-IsOnDisk :
      (g : Pager) (id : ℕ) (rows : List Row) (d : IsOnDisk g.storage g.page_offsets id rows)
      → load_from_disk z g id ≡ ok d.page
  unfolding load_from_disk
  load_from_disk-IsOnDisk g id rows d =
      rw (d.placed, d.read, d.unpacked, ← d.named, d.counted, ← d.clean)
        (rebuild_row_offsets-Holds schema d.page rows [] d.holds)

  module _ (g : Pager) (p : Page) (rows : List Row) (f : IsFormatted g.storage)
      (c : FitsSlot z g.storage.compression p.bytes) (h : Holds schema p rows)
      (small : p.id < 2 ^ 32) where
    blob : List ℕ
    blob = c.blob

    offset : ℕ
    offset = page_file_offset (data_start_offset g.storage) p.id

    after : Pager
    unfolding blob offset
    after = record g {
      storage =
          overwrite_page_raw g.storage offset (written_header z g.storage.compression p blob) blob;
      page_offsets = set_offset p.id offset g.page_offsets;
    }

    blob_fits : length blob ≤ page_size
    unfolding blob
    blob_fits = c.fits

    blob_of : compress z g.storage.compression p.bytes ≡ ok blob
    unfolding blob
    blob_of = c.made

    length_kept : length p.bytes % 2 ^ 32 ≡ length p.bytes
    length_kept = omega (arith, h.within)

    unpacked_blob : decompress z g.storage.compression blob (length p.bytes % 2 ^ 32) ≡ ok p.bytes
    unfolding blob
    unpacked_blob = rw length_kept c.back

    header_fits : PageHeaderFits (written_header z g.storage.compression p blob)
    header_fits = record {
      page_id_fits = small;
      compressed_size_fits = omega arith;
      uncompressed_size_fits = omega arith;
      row_count_fits = omega (
        arith,
        h.count,
        chunks_bound schema rows h.chunks h.images,
        ap length h.packed,
        h.within,
      );
      compression_type_fits = c.is_byte;
      pad_fits = omega arith;
    }

    behind : data_start_offset g.storage ≤ offset
    unfolding offset page_file_offset
    behind = omega arith

    same_start : data_start_offset after.storage ≡ data_start_offset g.storage
    unfolding after
    same_start =
        overwrite-data_start g.storage f offset (written_header z g.storage.compression p blob) blob
          behind

    -- The page itself is in the file.
    own : IsOnDisk after.storage after.page_offsets p.id rows
    unfolding after
    own = record {
      placed = rw same_start (ground arith);
      header = written_header z g.storage.compression p blob;
      blob = blob;
      read = rw same_start (
          read_page_raw-overwrite_page_raw g.storage offset
            (written_header z g.storage.compression p blob) blob header_fits
            (omega (arith, blob_fits)));
      fits = blob_fits;
      page = record p { dirty = false };
      named = refl;
      clean = refl;
      counted = refl;
      unpacked = unpacked_blob;
      holds = record {
        chunks = h.chunks;
        images = h.images;
        packed = h.packed;
        offsets = h.offsets;
        count = h.count;
        within = h.within;
      };
    }

    -- The other pages in the file stay as they are, since each has its own slot.
    other :
        (id : ℕ) (rows' : List Row)
        → id ≢ p.id
        → IsOnDisk g.storage g.page_offsets id rows'
        → IsOnDisk after.storage after.page_offsets id rows'
    unfolding after offset page_file_offset
    other id rows' differ d = record {
      placed = rw same_start (ground (arith, differ, d.placed));
      header = d.header;
      blob = d.blob;
      read = rw same_start (
          read_page_raw_apart g.storage offset (page_file_offset (data_start_offset g.storage) id)
            (written_header z g.storage.compression p blob) d.header blob d.blob
            (slots_apart (data_start_offset g.storage) id p.id (length d.blob) (length blob) differ
              d.fits blob_fits)
            d.read);
      fits = d.fits;
      page = d.page;
      named = d.named;
      clean = d.clean;
      counted = d.counted;
      unpacked = d.unpacked;
      holds = d.holds;
    }

  -- What the write of a page has done.
  pub record IsWritten (g g' : Pager) (id : ℕ) (rows : List Row) : Type 0 where
    pub formatted : IsFormatted g'.storage
    pub same_type : g'.storage.compression ≡ g.storage.compression
    pub same_cache : g'.cache ≡ g.cache
    pub same_next : g'.next_page_id ≡ g.next_page_id
    pub same_index : g'.index ≡ g.index
    pub same_start : data_start_offset g'.storage ≡ data_start_offset g.storage
    pub header :
        (hdr : DbHeader) → read_db_header g.storage ≡ ok hdr → read_db_header g'.storage ≡ ok hdr
    pub own : IsOnDisk g'.storage g'.page_offsets id rows
    pub others :
        (j : ℕ) (rows' : List Row)
        → j ≢ id
        → IsOnDisk g.storage g.page_offsets j rows'
        → IsOnDisk g'.storage g'.page_offsets j rows'

  -- In a formatted file, `write_page_to_disk` of a page that holds rows and whose id is below 2^32, if
  -- its block, compressed or not, is at most 8192 bytes long and decompresses to the bytes of the page:
  -- it returns, the page is in the file with these rows, and the blocks of the other pages stay as they
  -- are.
  pub write_page_to_disk-IsWritten :
      (g : Pager) (p : Page) (rows : List Row)
      → IsFormatted g.storage
      → FitsSlot z g.storage.compression p.bytes
      → Holds schema p rows
      → p.id < 2 ^ 32
      → (g' : Pager) × (write_page_to_disk z g p
          ≡ ok (g', page_file_offset (data_start_offset g.storage) p.id))
        × IsWritten g g' p.id rows
  unfolding write_page_to_disk after offset
  write_page_to_disk-IsWritten g p rows f c h small = (
    after g p rows f c h small,
    rw (blob_of g p rows f c h small),
    record {
      formatted =
          overwrite-IsFormatted g.storage f (offset g p rows f c h small)
            (written_header z g.storage.compression p (blob g p rows f c h small))
            (blob g p rows f c h small) (behind g p rows f c h small);
      same_type = unfold overwrite_page_raw in refl;
      same_cache = refl;
      same_next = refl;
      same_index = refl;
      same_start = same_start g p rows f c h small;
      header =
          overwrite-header g.storage f (offset g p rows f c h small)
            (written_header z g.storage.compression p (blob g p rows f c h small))
            (blob g p rows f c h small) (behind g p rows f c h small);
      own = own g p rows f c h small;
      others = other g p rows f c h small;
    },
  )
