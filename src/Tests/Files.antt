-- ===== src/Tests/Files.antt =====
-- A file of no page behind its header and schema block, and a pager over it. The compressor keeps the
-- bytes as they are.
use xdl.Prelude.{ℕ, ◌+◌, ◌<◌, ◌≡◌, sym, refl, ap, true, some, List, [], ◌∷◌, ok, length, arith}
use mathlib.Core.Path.{subst}
use xdl.Schema.{FieldType, Schema}
use xdl.Bytes.{write_u8, write_u16, write_u32, read_le}
use xdl.SchemaCodec.{serialise_schema, serialise_field, serialise_fields}
use xdl.SchemaCodec.RoundTrip.{SchemaFits}
use xdl.Row.{Row}
use xdl.Page.{Page}
use xdl.Page.Holds.{Holds}
use xdl.Storage.{Storage, take_exactly, safe_pread, write_schema, read_schema, data_start_offset}
use xdl.Storage.Blocks.{read_schema-write_schema}
use xdl.Index.{empty_index}
use xdl.Cache.{find_page}
use xdl.Compression.{Lz4, compress, decompress}
use xdl.Pager.{Pager, new_pager, page_file_offset, write_page_to_disk, get_page, new_page}
use xdl.Pager.Fresh.{new_pager-IsServing}
use xdl.Pager.Blocks.{IsFormatted, FitsSlot, IsWritten, write_page_to_disk-IsWritten}
use xdl.Pager.Reads.{IsServing, get_page-IsServing}
use xdl.Pager.Writes.{with_rows, new_page-IsServing}
use xdl.Storage.{DbHeader, read_db_header, db_header_of}
use xdl.Pager.{put_page, flush_all}
use xdl.Pager.FlushAll.{flush_all-IsOnDisk}
use xdl.Pager.Blocks.{IsOnDisk}
use xdl.Cache.{put_shared, admit}
use xdl.Prelude.{◌∙◌}
use xdl.Tests.Storage.{schema, page, row, page-Holds}

abbrev pub stored : Lz4
stored = record {
  compress_bound = λ n. n;
  compress_default = λ src n capacity. some src;
  decompress_safe = λ src n size. some src;
}

abbrev pub age : Schema
age = record { fields = record { name = 97 ∷ []; type = FieldType.uint32 } ∷ []; version = 1 }

age-SchemaFits : SchemaFits age
age-SchemaFits = record {
  some_field = omega arith;
  few_fields = omega arith;
  version_fits = omega arith;
  fields_fit = ((omega arith, tt), tt);
}

abbrev pub file : Storage
file = record {
  exists = true;
  is_open = true;
  disk =
      49 ∷ 76 ∷ 68 ∷ 88 ∷ 1 ∷ 0 ∷ 0 ∷ 0 ∷ 0 ∷ 32 ∷ 0 ∷ 0 ∷ 0 ∷ 0 ∷ 0 ∷ 0 ∷ 0 ∷ 0 ∷ 0 ∷ 0 ∷ 12 ∷ 0
      ∷ 0 ∷ 0 ∷ 1 ∷ 0 ∷ 0 ∷ 0 ∷ 1 ∷ 0 ∷ 0 ∷ 0 ∷ 1 ∷ 0 ∷ 97 ∷ 0 ∷ [];
  compression = 0;
}

pub file-IsFormatted : IsFormatted file
unfolding safe_pread take_exactly read_le
file-IsFormatted = record { size_word = 12 ∷ 0 ∷ 0 ∷ 0 ∷ []; there = refl; bounded = omega arith }

length-age : length (serialise_schema age) ≡ 12
unfolding serialise_schema serialise_fields serialise_field write_u32 write_u16 write_u8
length-age = refl

read_schema-write_schema_example :
    (read_schema (write_schema file age) ≡ ok age)
    × (data_start_offset (write_schema file age) ≡ 24 + length (serialise_schema age))
read_schema-write_schema_example =
    read_schema-write_schema file age age-SchemaFits (omega (arith, length-age))

abbrev pager : Pager
pager = new_pager file empty_index 1

-- The same file with pages that are compressed.
abbrev lz4_pager : Pager
lz4_pager = new_pager (record file { compression = 1 }) empty_index 1

lz4_file-IsFormatted : IsFormatted (record file { compression = 1 })
lz4_file-IsFormatted = record {
  size_word = file-IsFormatted.size_word;
  there = file-IsFormatted.there;
  bounded = file-IsFormatted.bounded;
}

page-FitsSlot : FitsSlot stored 1 page.bytes
unfolding compress decompress
page-FitsSlot = record {
  is_byte = omega arith;
  blob = page.bytes;
  made = refl;
  fits = omega arith;
  back = refl;
}

write_page_to_disk-IsWritten_example :
    (g' : Pager) × (write_page_to_disk stored lz4_pager page
      ≡ ok (g', page_file_offset (data_start_offset (record file { compression = 1 })) 3))
    × IsWritten stored schema lz4_pager g' 3 (row ∷ [])
write_page_to_disk-IsWritten_example =
    write_page_to_disk-IsWritten stored schema lz4_pager page (row ∷ []) lz4_file-IsFormatted
      page-FitsSlot page-Holds (omega arith)

abbrev pub no_rows : ℕ → List Row
no_rows id = []

pager-IsServing : IsServing stored age pager no_rows
pager-IsServing = new_pager-IsServing stored age file empty_index 1 no_rows file-IsFormatted refl

new_page-IsServing_example :
    (g' : Pager) × (p : Page) × (new_page stored pager ≡ (g', ok p))
    × Holds age p []
    × (p.id ≡ 0)
    × (p.dirty ≡ true)
    × (find_page 0 g'.cache.lru ≡ some p)
    × (g'.next_page_id ≡ 1)
    × (g'.index ≡ empty_index)
    × IsServing stored age g' (with_rows 0 [] no_rows)
new_page-IsServing_example =
    new_page-IsServing stored age pager no_rows pager-IsServing (omega arith)

-- The pager after its first page was made.
abbrev pub one_page : Pager
one_page = (new_page stored pager).0

abbrev pub one_page_rows : ℕ → List Row
one_page_rows = with_rows 0 [] no_rows

pub one_page-IsServing :
    IsServing stored age one_page one_page_rows
    × (p : Page) × (find_page 0 one_page.cache.lru ≡ some p)
    × Holds age p []
    × (p.id ≡ 0)
one_page-IsServing =
    let (g', p, made, holds, named, marked, cached, next, index, serving) =
      new_page-IsServing stored age pager no_rows pager-IsServing (omega arith) in
    let same : g' ≡ one_page = sym (ap (λ r. r.0) made) in
    (
      subst (λ g. IsServing stored age g one_page_rows) same serving,
      p,
      subst (λ g. find_page 0 g.cache.lru ≡ some p) same cached,
      holds,
      named,
    )

one_page_next : 0 < one_page.next_page_id
one_page_next =
    let (g', p, made, holds, named, marked, cached, next, index, serving) =
      new_page-IsServing stored age pager no_rows pager-IsServing (omega arith) in
    subst (λ g. 0 < g.next_page_id) (sym (ap (λ r. r.0) made)) (omega (arith, next))

get_page-IsServing_example :
    (g' : Pager) × (p : Page) × (get_page stored 0 one_page ≡ (g', ok p))
    × Holds age p []
    × (p.id ≡ 0)
    × (find_page 0 g'.cache.lru ≡ some p)
    × (g'.next_page_id ≡ one_page.next_page_id)
    × (g'.index ≡ one_page.index)
    × IsServing stored age g' one_page_rows
get_page-IsServing_example =
    get_page-IsServing stored age one_page one_page_rows one_page-IsServing.0 0 one_page_next

abbrev pub file_header : DbHeader
file_header = record {
  magic = 1480870961;
  version = 1;
  page_size = 8192;
  page_count = 0;
  compression = 0;
  pad = 0;
}

pub one_page_file : one_page.storage ≡ file
unfolding new_page put_page put_shared find_page admit
one_page_file = refl

pub one_page_index : one_page.index ≡ empty_index
unfolding new_page put_page put_shared find_page admit
one_page_index = refl

pub file_header_read : read_db_header file ≡ ok file_header
unfolding read_db_header safe_pread take_exactly db_header_of read_le
file_header_read = refl

flush_all-IsOnDisk_example :
    (g' : Pager) × (flush_all stored one_page ≡ (g', ok tt))
    × (g'.next_page_id ≡ one_page.next_page_id)
    × (read_db_header g'.storage ≡ ok (record file_header { page_count = one_page.next_page_id }))
    × ((id : ℕ)
        → id < one_page.next_page_id
        → IsOnDisk stored age g'.storage g'.page_offsets id (one_page_rows id))
flush_all-IsOnDisk_example =
    flush_all-IsOnDisk stored age one_page_rows one_page file_header one_page-IsServing.0
      (ap read_db_header one_page_file ∙ file_header_read)
      (record {
        magic_is = refl;
        version_fits = omega arith;
        page_size_fits = omega arith;
        page_count_fits = one_page-IsServing.0.few;
        compression_fits = omega arith;
        pad_fits = omega arith;
      })
