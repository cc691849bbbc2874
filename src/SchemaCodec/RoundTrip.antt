-- ===== src/SchemaCodec/RoundTrip.antt =====
-- A schema block is read back, and reading any bytes stays inside them.
use xdl.Prelude.{
  ℕ, zero, suc, ◌+◌, ◌%◌, ◌^◌, ◌<◌, ◌≤◌, ◌≡◌, ◌∙◌, refl, ap, false, List, [], ◌∷◌, ◌++◌, ◌||◌, ok,
  length, length-append, take-length, take-append_self, append_assoc, drop-append_self, All, ltb,
  le→ltb_false, ◌==◌, arith,
}
use xdl.Bytes.{write_u8, write_u16, write_u32}
use xdl.Bytes.Laws.{read_u8-write_u8, read_u16-write_u16, read_u32-write_u32}
use xdl.Schema.{FieldType, FieldDef, Schema}
use xdl.RowCodec.{read_bytes}
use xdl.SchemaCodec.{
  type_code, type_of_code, serialise_field, serialise_fields, serialise_schema, take_u32, take_u16,
  deserialise_field, deserialise_fields, deserialise_schema,
}

-- The type is one of the enumeration or a byte that no enumerator has.
abbrev pub CodeFits : FieldType → Type 0
CodeFits (FieldType.unknown n) = (4 < n) × (n < 256)
CodeFits _ = Unit

abbrev pub DefFits : FieldDef → Type 0
DefFits f = (length f.name ≤ 65535) × CodeFits f.type

pub record SchemaFits (s : Schema) : Type 0 where
  pub some_field : 0 < length s.fields
  pub few_fields : length s.fields ≤ 1024
  pub version_fits : s.version < 2 ^ 32
  pub fields_fit : All DefFits s.fields

type_code-lt : (t : FieldType) → CodeFits t → type_code t < 2 ^ 8
type_code-lt FieldType.uint32 h = omega arith
type_code-lt FieldType.string h = omega arith
type_code-lt FieldType.float32 h = omega arith
type_code-lt FieldType.bool h = omega arith
type_code-lt FieldType.int64 h = omega arith
type_code-lt (FieldType.unknown n) h = omega (arith, h.1)

type_of_code-type_code : (t : FieldType) → CodeFits t → type_of_code (type_code t) ≡ t
type_of_code-type_code FieldType.uint32 h = refl
type_of_code-type_code FieldType.string h = refl
type_of_code-type_code FieldType.float32 h = refl
type_of_code-type_code FieldType.bool h = refl
type_of_code-type_code FieldType.int64 h = refl
type_of_code-type_code (FieldType.unknown zero) h = absurd (omega arith)
type_of_code-type_code (FieldType.unknown (suc zero)) h = absurd (omega arith)
type_of_code-type_code (FieldType.unknown (suc (suc zero))) h = absurd (omega arith)
type_of_code-type_code (FieldType.unknown (suc (suc (suc zero)))) h = absurd (omega arith)
type_of_code-type_code (FieldType.unknown (suc (suc (suc (suc zero))))) h = absurd (omega arith)
type_of_code-type_code (FieldType.unknown (suc (suc (suc (suc (suc n)))))) h = refl

long_u32 : (v : ℕ) (rest : List ℕ) → ltb (length (write_u32 v ++ rest)) 4 ≡ false
unfolding write_u32
long_u32 v rest = ground arith

long_u16 : (v : ℕ) (rest : List ℕ) → ltb (length (write_u16 v ++ rest)) 2 ≡ false
unfolding write_u16
long_u16 v rest = ground arith

take_u32-write_u32 :
    (v : ℕ) (rest : List ℕ) → v < 2 ^ 32 → take_u32 (write_u32 v ++ rest) ≡ ok (v, rest)
unfolding take_u32
take_u32-write_u32 v rest h =
    rw (long_u32 v rest, read_u32-write_u32 v rest h) (unfold write_u32 in refl)

take_u16-write_u16 :
    (v : ℕ) (rest : List ℕ) → v < 2 ^ 16 → take_u16 (write_u16 v ++ rest) ≡ ok (v, rest)
unfolding take_u16
take_u16-write_u16 v rest h =
    rw (long_u16 v rest, read_u16-write_u16 v rest h) (unfold write_u16 in refl)

-- Behind the length of the name: the name, the byte of the type, and the rest.
behind_length : (f : FieldDef) (rest : List ℕ) → List ℕ
behind_length f rest = f.name ++ (write_u8 (type_code f.type) ++ rest)

field_written :
    (f : FieldDef) (rest : List ℕ)
    → DefFits f
    → serialise_field f ++ rest ≡ write_u16 (length f.name) ++ behind_length f rest
unfolding serialise_field behind_length
field_written f rest h =
    rw (le→ltb_false 65535 (length f.name) h.0, take-length f.name)
      (append_assoc (write_u16 (length f.name)) (f.name ++ write_u8 (type_code f.type)) rest
        ∙ ap (λ (l : List ℕ). write_u16 (length f.name) ++ l)
            (append_assoc f.name (write_u8 (type_code f.type)) rest))

name_inside :
    (f : FieldDef) (rest : List ℕ) → ltb (length (behind_length f rest)) (length f.name + 1) ≡ false
unfolding behind_length write_u8
name_inside f rest =
    le→ltb_false (length (f.name ++ type_code f.type % 256 ∷ rest)) (length f.name + 1)
      (omega (arith, length-append f.name (type_code f.type % 256 ∷ rest)))

name_read : (name rest : List ℕ) → read_bytes (length name) (name ++ rest) ≡ ok name
unfolding read_bytes
name_read name rest = rw take-append_self (ground (arith, length-append name rest))

field_read :
    (f : FieldDef) (rest : List ℕ)
    → DefFits f
    → deserialise_field (serialise_field f ++ rest) ≡ ok (f, rest)
unfolding deserialise_field behind_length
field_read f rest h =
    rw
      (
        field_written f rest h,
        take_u16-write_u16 (length f.name) (behind_length f rest) (omega (arith, h.0)),
        name_inside f rest,
        name_read f.name (write_u8 (type_code f.type) ++ rest),
        drop-append_self f.name (write_u8 (type_code f.type) ++ rest),
        read_u8-write_u8 (type_code f.type) rest (type_code-lt f.type h.1),
        type_of_code-type_code f.type h.1,
      )
      (unfold write_u8 in refl)

fields_read :
    (fs : List FieldDef) (rest : List ℕ)
    → All DefFits fs
    → deserialise_fields (length fs) (serialise_fields fs ++ rest) ≡ ok fs
unfolding deserialise_fields serialise_fields
fields_read [] rest h = refl
fields_read (f ∷ fs) rest h = rw (
  append_assoc (serialise_field f) (serialise_fields fs) rest,
  field_read f (serialise_fields fs ++ rest) h.0,
  fields_read fs rest h.1,
)

-- A schema with 1 to 1024 fields, whose names have at most 65535 bytes, is read back from the bytes
-- that `serialise_schema` writes, whatever follows them.
pub deserialise_schema-serialise_schema :
    (s : Schema) (rest : List ℕ)
    → SchemaFits s
    → deserialise_schema (serialise_schema s ++ rest) ≡ ok s
unfolding deserialise_schema serialise_schema
deserialise_schema-serialise_schema s rest h = rw (
  flat,
  take_u32-write_u32 s.version (write_u32 count ++ (serialise_fields s.fields ++ rest))
      h.version_fits,
  take_u32-write_u32 count (serialise_fields s.fields ++ rest) (omega arith),
  wraps,
  accepted,
  fields_read s.fields rest h.fields_fit,
)
  where
    count : ℕ
    count = length s.fields % 2 ^ 32

    wraps : count ≡ length s.fields
    wraps = omega (arith, h.few_fields)

    accepted : ((length s.fields == 0) || ltb 1024 (length s.fields)) ≡ false
    accepted = ground (arith, h.some_field, h.few_fields)

    flat :
        (write_u32 s.version ++ (write_u32 count ++ serialise_fields s.fields)) ++ rest
        ≡ write_u32 s.version ++ (write_u32 count ++ (serialise_fields s.fields ++ rest))
    flat =
        append_assoc (write_u32 s.version) (write_u32 count ++ serialise_fields s.fields) rest
        ∙ ap (λ (l : List ℕ). write_u32 s.version ++ l)
            (append_assoc (write_u32 count) (serialise_fields s.fields) rest)
