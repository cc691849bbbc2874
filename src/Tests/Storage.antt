-- ===== src/Tests/Storage.antt =====
-- Rows and pages: a schema of a number and a flag, and a page with one row of it.
use xdl.Prelude.{ℕ, ◌≡◌, ◌≢◌, ◌↔◌, refl, true, List, [], ◌∷◌, ok, length, arith}
use xdl.Bytes.{write_u8, write_u32, read_u8, read_u32}
use xdl.Schema.{FieldType, FieldDef, Schema, validate}
use xdl.Schema.Laws.{Distinct, validate_iff}
use xdl.Row.{FieldValue, Row}
use xdl.RowCodec.{row_byte_size, write_row, read_row}
use xdl.RowCodec.RoundTrip.{RowFits, Image, fits-Image}
use xdl.Page.{Page, append_row, erase_row, get_row, find_row, rebuild_row_offsets}
use xdl.Page.Holds.{Holds, concat, starts}
use xdl.Page.Refinement.{position_from, append_row-Holds, get_row-Holds, find_row-Holds}
use xdl.Page.Erase.{erase_row-Holds, rebuild_row_offsets-Holds}

abbrev count_field : FieldDef
count_field = record { name = 99 ∷ []; type = FieldType.uint32 }

abbrev flag_field : FieldDef
flag_field = record { name = 102 ∷ []; type = FieldType.bool }

abbrev pub schema : Schema
schema = record { fields = count_field ∷ flag_field ∷ []; version = 1 }

validate_iff_example : (validate schema ≡ ok tt) ↔ ((schema.fields ≢ []) × Distinct schema.fields)
validate_iff_example = validate_iff schema

abbrev pub row : Row
row = record { id = 5; fields = FieldValue.uint32 7 ∷ FieldValue.bool true ∷ [] }

abbrev row_bytes : List ℕ
row_bytes = 13 ∷ 0 ∷ 0 ∷ 0 ∷ 5 ∷ 0 ∷ 0 ∷ 0 ∷ 7 ∷ 0 ∷ 0 ∷ 0 ∷ 1 ∷ []

row-RowFits : RowFits schema row
row-RowFits = record {
  small = omega arith;
  id_fits = omega arith;
  fields_fit = (omega arith, (tt, tt));
}

row-Image : Image schema row row_bytes
unfolding row_byte_size write_row read_row write_u32 write_u8 read_u32 read_u8
row-Image = record {
  sized = refl;
  written = refl;
  header = λ rest. refl;
  id_word = λ rest. refl;
  read = λ rest. refl;
  low = omega arith;
  high = omega arith;
}

abbrev pub page : Page
page = record { id = 3; row_count = 1; row_offsets = 0 ∷ []; bytes = row_bytes; dirty = true }

pub page-Holds : Holds schema page (row ∷ [])
unfolding concat starts
page-Holds = record {
  chunks = row_bytes ∷ [];
  images = (row-Image, tt);
  packed = refl;
  offsets = refl;
  count = refl;
  within = omega arith;
}

row_size : row_byte_size row schema ≡ ok 13
unfolding row_byte_size
row_size = refl

fits-Image_example : (bs : List ℕ) × Image schema row bs
fits-Image_example = fits-Image schema row row-RowFits

append_row-Holds_example :
    (p' : Page) × (append_row page row schema ≡ ok p')
    × Holds schema p' (row ∷ row ∷ [])
    × (p'.id ≡ 3)
    × (length p'.bytes ≡ 26)
    × (p'.dirty ≡ true)
append_row-Holds_example =
    append_row-Holds schema page (row ∷ []) row {n = 13} page-Holds row-RowFits row_size
      (omega arith)

get_row-Holds_example : get_row page 0 schema ≡ ok row
get_row-Holds_example = get_row-Holds schema page (row ∷ []) 0 page-Holds

find_row-Holds_example : find_row page 5 ≡ ok (position_from 0 5 (row ∷ []))
find_row-Holds_example = find_row-Holds schema page (row ∷ []) 5 page-Holds

erase_row-Holds_example :
    (p' : Page) × (erase_row page 0 ≡ ok p') × Holds schema p' [] × (p'.id ≡ 3)
erase_row-Holds_example = erase_row-Holds schema page (row ∷ []) 0 page-Holds refl

rebuild_row_offsets-Holds_example : rebuild_row_offsets (record page { row_offsets = [] }) ≡ ok page
rebuild_row_offsets-Holds_example = rebuild_row_offsets-Holds schema page (row ∷ []) [] page-Holds

names-Distinct : Distinct schema.fields
names-Distinct = ((λ e. ground arith, tt), (tt, tt))
