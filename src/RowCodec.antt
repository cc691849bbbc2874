-- ===== src/RowCodec.antt =====
-- src/page.cpp: the size of a serialised row, and the code inside `append_row` and `get_row` that
-- writes and reads the fields. `dst` and `src` are pointers that move on: the writer returns the
-- bytes that it wrote, the reader what is left.
pub mod Fields
pub mod RoundTrip
use xdl.Prelude.{
  ℕ, zero, suc, ◌+◌, ◌-◌, ◌%◌, ◌^◌, Bool, true, false, List, [], ◌∷◌, ◌++◌, Result, ok, err, fault,
  xdl_error, out_of_range, length, take, drop, ltb, leb, ◌==◌, if◌then◌else◌, ◌>>=◌, not,
}
use xdl.Bytes.{write_u8, write_u16, write_u32, write_u64, read_u8, read_u16, read_u32, read_u64}
use xdl.Schema.{FieldType, FieldDef, Schema}
use xdl.Row.{FieldValue, Row, as_uint32, as_string, as_float32, as_bool, as_int64}

abbrev pub page_size : ℕ
page_size = 8192

-- The size of one field; a value of another type than the schema's is an error.
unfoldable pub field_byte_size : FieldType → FieldValue → Result ℕ
field_byte_size FieldType.uint32 (FieldValue.uint32 v) = ok 4
field_byte_size FieldType.string (FieldValue.string s) =
    if ltb 65535 (length s) then err xdl_error else ok (2 + length s)
field_byte_size FieldType.float32 (FieldValue.float32 v) = ok 4
field_byte_size FieldType.bool (FieldValue.bool b) = ok 1
field_byte_size FieldType.int64 (FieldValue.int64 v) = ok 8
field_byte_size _ _ = err xdl_error

-- The loop of `row_byte_size`; `sz` is a uint32_t.
unfoldable pub size_loop : ℕ → List FieldDef → List FieldValue → Result ℕ
unfolding field_byte_size
size_loop sz [] vs = ok sz
size_loop sz (d ∷ ds) [] = err out_of_range
size_loop sz (d ∷ ds) (v ∷ vs) = do
  n ← field_byte_size d.type v
  size_loop ((sz + n) % 2 ^ 32) ds vs

unfoldable pub row_byte_size : Row → Schema → Result ℕ
unfolding size_loop
row_byte_size row schema = size_loop (4 + 4) schema.fields row.fields

unfoldable pub serialised_row_size : Row → Schema → Result ℕ
unfolding row_byte_size
serialised_row_size row schema = row_byte_size row schema

abbrev pub flag : Bool → ℕ
flag true = 1
flag false = 0

-- The switch in the loop of `append_row`. The length of a text is cast to uint16_t.
unfoldable pub write_field : FieldType → FieldValue → Result (List ℕ)
write_field FieldType.uint32 v = do n ← as_uint32 v; ok (write_u32 n)
write_field FieldType.string v = do
  s ← as_string v
  let len = length s % 2 ^ 16
  ok (write_u16 len ++ take len s)
write_field FieldType.float32 v = do bits ← as_float32 v; ok (write_u32 bits)
write_field FieldType.bool v = do b ← as_bool v; ok (write_u8 (flag b))
write_field FieldType.int64 v = do n ← as_int64 v; ok (write_u64 n)
write_field (FieldType.unknown _) v = ok []

unfoldable pub write_fields : List FieldDef → List FieldValue → Result (List ℕ)
unfolding write_field
write_fields [] vs = ok []
write_fields (d ∷ ds) [] = err out_of_range
write_fields (d ∷ ds) (v ∷ vs) = do
  bs ← write_field d.type v
  rest ← write_fields ds vs
  ok (bs ++ rest)

-- The bytes of a whole row: length word, id, fields.
unfoldable pub write_row : ℕ → Row → Schema → Result (List ℕ)
unfolding write_fields
write_row total row schema = do
  body ← write_fields schema.fields row.fields
  ok (write_u32 total ++ (write_u32 row.id ++ body))

-- `std::string(src, len)`.
unfoldable pub read_bytes : ℕ → List ℕ → Result (List ℕ)
read_bytes len src = if leb len (length src) then ok (take len src) else fault

-- The switch in the loop of `get_row`: the values that it appends and the pointer behind them.
unfoldable pub read_field : FieldType → List ℕ → Result (List FieldValue × List ℕ)
unfolding read_bytes
read_field FieldType.uint32 src = do v ← read_u32 src; ok (FieldValue.uint32 v ∷ [], drop 4 src)
read_field FieldType.string src = do
  len ← read_u16 src
  s ← read_bytes len (drop 2 src)
  ok (FieldValue.string s ∷ [], drop len (drop 2 src))
read_field FieldType.float32 src = do
  bits ← read_u32 src
  ok (FieldValue.float32 bits ∷ [], drop 4 src)
read_field FieldType.bool src = do
  b ← read_u8 src
  ok (FieldValue.bool (not (b == 0)) ∷ [], drop 1 src)
read_field FieldType.int64 src = do u ← read_u64 src; ok (FieldValue.int64 u ∷ [], drop 8 src)
read_field (FieldType.unknown _) src = ok ([], src)

unfoldable pub read_fields : List FieldDef → List ℕ → Result (List FieldValue)
unfolding read_field
read_fields [] src = ok []
read_fields (d ∷ ds) src = do
  (vs, src') ← read_field d.type src
  rest ← read_fields ds src'
  ok (vs ++ rest)

-- The row behind a pointer to its length word.
unfoldable pub read_row : List ℕ → Schema → Result Row
unfolding read_fields
read_row src schema = do
  id ← read_u32 (drop 4 src)
  fields ← read_fields schema.fields (drop 4 (drop 4 src))
  ok (record { id = id; fields = fields })
