-- ===== src/SchemaCodec.antt =====
-- src/migrate.cpp: a schema as the bytes that the header area of a database keeps.
pub mod RoundTrip
pub mod Safety
use xdl.Prelude.{
  ℕ, zero, suc, ◌+◌, ◌%◌, ◌^◌, Bool, List, [], ◌∷◌, ◌++◌, ◌||◌, Result, ok, err, corruption, length,
  take, drop, ltb, ◌==◌, if◌then◌else◌, ◌>>=◌,
}
use xdl.Bytes.{write_u8, write_u16, write_u32, read_u8, read_u16, read_u32}
use xdl.Schema.{FieldType, FieldDef, Schema}
use xdl.RowCodec.{read_bytes}

-- `static_cast<char>(f.type)` and `static_cast<FieldType>`.
abbrev pub type_code : FieldType → ℕ
type_code FieldType.uint32 = 0
type_code FieldType.string = 1
type_code FieldType.float32 = 2
type_code FieldType.bool = 3
type_code FieldType.int64 = 4
type_code (FieldType.unknown n) = n

abbrev pub type_of_code : ℕ → FieldType
type_of_code zero = FieldType.uint32
type_of_code (suc zero) = FieldType.string
type_of_code (suc (suc zero)) = FieldType.float32
type_of_code (suc (suc (suc zero))) = FieldType.bool
type_of_code (suc (suc (suc (suc zero)))) = FieldType.int64
type_of_code n = FieldType.unknown n

-- One round of the loop of `serialise_schema`: a name is cut at 65535 bytes.
unfoldable pub serialise_field : FieldDef → List ℕ
serialise_field f =
    let nlen = if ltb 65535 (length f.name) then 65535 else length f.name in
    write_u16 nlen ++ (take nlen f.name ++ write_u8 (type_code f.type))

unfoldable pub serialise_fields : List FieldDef → List ℕ
serialise_fields [] = []
serialise_fields (f ∷ fields) = serialise_field f ++ serialise_fields fields

unfoldable pub serialise_schema : Schema → List ℕ
serialise_schema schema =
    write_u32 schema.version
    ++ (write_u32 (length schema.fields % 2 ^ 32) ++ serialise_fields schema.fields)

-- The lambdas `read_u32` and `read_u16` of `deserialise_schema`, with the rest of the data.
unfoldable pub take_u32 : List ℕ → Result (ℕ × List ℕ)
take_u32 src =
    if ltb (length src) 4 then err corruption else do v ← read_u32 src; ok (v, drop 4 src)

unfoldable pub take_u16 : List ℕ → Result (ℕ × List ℕ)
take_u16 src =
    if ltb (length src) 2 then err corruption else do v ← read_u16 src; ok (v, drop 2 src)

-- One round of the loop of `deserialise_schema`.
unfoldable pub deserialise_field : List ℕ → Result (FieldDef × List ℕ)
deserialise_field src = do
  (nlen, src') ← take_u16 src
  if ltb (length src') (nlen + 1) then err corruption else do
    name ← read_bytes nlen src'
    code ← read_u8 (drop nlen src')
    ok (record { name = name; type = type_of_code code }, drop 1 (drop nlen src'))

unfoldable pub deserialise_fields : ℕ → List ℕ → Result (List FieldDef)
deserialise_fields zero src = ok []
deserialise_fields (suc n) src = do
  (f, src') ← deserialise_field src
  fields ← deserialise_fields n src'
  ok (f ∷ fields)

unfoldable pub deserialise_schema : List ℕ → Result Schema
deserialise_schema data' = do
  (ver, src) ← take_u32 data'
  (count, src') ← take_u32 src
  if (count == 0) || ltb 1024 count
      then err corruption
      else do fields ← deserialise_fields count src'; ok (record { fields = fields; version = ver })
