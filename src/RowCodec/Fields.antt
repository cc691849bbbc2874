-- ===== src/RowCodec/Fields.antt =====
-- One field: what is written has the computed size and is read back.
use xdl.Prelude.{
  ℕ, ◌%◌, ◌^◌, ◌≤◌, ◌<◌, ◌≡◌, refl, ap, Bool, true, false, List, [], ◌∷◌, ◌++◌, ok, length,
  length-append, drop, take-append_self, drop-append_self, take-length, le→ltb_false, append_assoc,
  arith,
}
use xdl.Bytes.{write_u8, write_u16, write_u32, write_u64, read_u8}
use xdl.Bytes.Laws.{read_u16-write_u16, read_u32-write_u32, read_u64-write_u64}
use xdl.Schema.{FieldType}
use xdl.Row.{FieldValue}
use xdl.RowCodec.{flag, field_byte_size, write_field, read_bytes, read_field}

-- The value has the declared type, and it is in the range of that type.
abbrev pub FieldFits : FieldType → FieldValue → Type 0
FieldFits FieldType.uint32 (FieldValue.uint32 v) = v < 2 ^ 32
FieldFits FieldType.string (FieldValue.string s) = length s ≤ 65535
FieldFits FieldType.float32 (FieldValue.float32 v) = v < 2 ^ 32
FieldFits FieldType.bool (FieldValue.bool b) = Unit
FieldFits FieldType.int64 (FieldValue.int64 v) = v < 2 ^ 64
FieldFits _ _ = ⊥

pub record Codes (t : FieldType) (v : FieldValue) (bs : List ℕ) : Type 0 where
  pub written : write_field t v ≡ ok bs
  pub sized : field_byte_size t v ≡ ok (length bs)
  pub bounded : length bs ≤ 65537
  pub read : (rest : List ℕ) → read_field t (bs ++ rest) ≡ ok (v ∷ [], rest)

four_bytes : (v : ℕ) (rest : List ℕ) → drop 4 (write_u32 v ++ rest) ≡ rest
unfolding write_u32
four_bytes v rest = refl

uint32_field : (v : ℕ) → v < 2 ^ 32 → Codes FieldType.uint32 (FieldValue.uint32 v) (write_u32 v)
unfolding write_field field_byte_size read_field
uint32_field v h = record {
  written = refl;
  sized = unfold write_u32 in refl;
  bounded = unfold write_u32 in omega arith;
  read = λ rest. rw (read_u32-write_u32 v rest h, four_bytes v rest);
}

float32_field : (v : ℕ) → v < 2 ^ 32 → Codes FieldType.float32 (FieldValue.float32 v) (write_u32 v)
unfolding write_field field_byte_size read_field
float32_field v h = record {
  written = refl;
  sized = unfold write_u32 in refl;
  bounded = unfold write_u32 in omega arith;
  read = λ rest. rw (read_u32-write_u32 v rest h, four_bytes v rest);
}

int64_field : (v : ℕ) → v < 2 ^ 64 → Codes FieldType.int64 (FieldValue.int64 v) (write_u64 v)
unfolding write_field field_byte_size read_field
int64_field v h = record {
  written = refl;
  sized = unfold write_u64 in refl;
  bounded = unfold write_u64 in omega arith;
  read = λ rest. rw (read_u64-write_u64 v rest h, eight_bytes rest);
}
  where
    eight_bytes : (rest : List ℕ) → drop 8 (write_u64 v ++ rest) ≡ rest
    eight_bytes rest = unfold write_u64 in refl

bool_field : (b : Bool) → Codes FieldType.bool (FieldValue.bool b) (write_u8 (flag b))
unfolding write_field field_byte_size read_field read_u8 write_u8
bool_field true = record {
  written = refl;
  sized = refl;
  bounded = omega arith;
  read = λ rest. refl;
}
bool_field false = record {
  written = refl;
  sized = refl;
  bounded = omega arith;
  read = λ rest. refl;
}

read_bytes-append : (s rest : List ℕ) → read_bytes (length s) (s ++ rest) ≡ ok s
unfolding read_bytes
read_bytes-append s rest = rw take-append_self (ground (arith, length-append s rest))

string_field :
    (s : List ℕ)
    → length s ≤ 65535
    → Codes FieldType.string (FieldValue.string s) (write_u16 (length s) ++ s)
unfolding write_field field_byte_size read_field
string_field s h = record {
  written = rw (whole, take-length s);
  sized = rw (le→ltb_false 65535 (length s) h) (ap ok (unfold write_u16 in omega arith));
  bounded = unfold write_u16 in omega arith;
  read = λ rest. rw (
    append_assoc (write_u16 (length s)) s rest,
    read_u16-write_u16 (length s) (s ++ rest) (omega arith),
    two_bytes (s ++ rest),
    read_bytes-append s rest,
    drop-append_self s rest,
  );
}
  where
    whole : length s % 2 ^ 16 ≡ length s
    whole = omega arith

    two_bytes : (rest : List ℕ) → drop 2 (write_u16 (length s) ++ rest) ≡ rest
    two_bytes rest = unfold write_u16 in refl

-- A value that fits its field has an encoding of the computed size, which is read back with what
-- follows it left over.
pub fits-Codes : (t : FieldType) (v : FieldValue) → FieldFits t v → (bs : List ℕ) × Codes t v bs
fits-Codes FieldType.uint32 (FieldValue.uint32 v) h = (write_u32 v, uint32_field v h)
fits-Codes FieldType.string (FieldValue.string s) h = (write_u16 (length s) ++ s, string_field s h)
fits-Codes FieldType.float32 (FieldValue.float32 v) h = (write_u32 v, float32_field v h)
fits-Codes FieldType.bool (FieldValue.bool b) h = (write_u8 (flag b), bool_field b)
fits-Codes FieldType.int64 (FieldValue.int64 v) h = (write_u64 v, int64_field v h)
fits-Codes _ _ h = absurd h
