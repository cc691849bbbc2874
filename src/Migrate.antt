-- ===== src/Migrate.antt =====
-- src/migrate.cpp, include/xdl/migrate.h: schema evolution, row by row.
pub mod Fields
use xdl.Prelude.{
  ℕ, zero, suc, Bool, true, false, Option, none, some, List, [], ◌∷◌, Result, ok, err, fault,
  defined, get_elem?, length, replicate, ltb, bytes_eq, if◌then◌else◌, ◌&&◌, ◌>>=◌,
}
use xdl.Schema.{FieldType, FieldDef, Schema, field_index}
use xdl.Row.{FieldValue, Row, put_at}

pub data MigrateOp : Type 0 where
  add drop rename : MigrateOp

pub record MigrateEntry : Type 0 where
  pub op : MigrateOp
  pub field_name : List ℕ
  pub new_name : List ℕ
  pub type : FieldType
  pub default_value : FieldValue

pub record SchemaMigrate : Type 0 where
  pub from_version : ℕ
  pub to_version : ℕ
  pub ops : List MigrateEntry

-- `FieldValue` without an initialiser holds its first alternative.
abbrev pub empty_value : FieldValue
empty_value = FieldValue.uint32 0

-- `old_row.fields[oi]`, a read that is not checked.
abbrev pub old_value : Row → ℕ → Result FieldValue
old_value old_row oi = defined (get_elem? old_row.fields oi)

abbrev pub copied : Row → Option ℕ → Result FieldValue
copied old_row none = ok empty_value
copied old_row (some oi) = old_value old_row oi

-- The loop that copies the fields that both schemas have.
unfoldable pub copy_fields : Row → Schema → List FieldDef → Result (List FieldValue)
copy_fields old_row old_schema [] = ok []
copy_fields old_row old_schema (nf ∷ fields) = do
  v ← copied old_row (field_index old_schema nf.name)
  rest ← copy_fields old_row old_schema fields
  ok (v ∷ rest)

-- `new_fields[ni] = value`; the ADD branch tests the index, the RENAME branch does not.
abbrev pub put_new : List FieldValue → ℕ → FieldValue → Result (List FieldValue)
put_new fields ni value = defined (put_at fields ni value)

abbrev pub rename_field : Row → List FieldValue → Option ℕ → Option ℕ → Result (List FieldValue)
rename_field old_row fields (some ni) (some oi) = do
  value ← old_value old_row oi
  put_new fields ni value
rename_field old_row fields _ _ = ok fields

abbrev pub add_field : List FieldValue → FieldValue → Option ℕ → Result (List FieldValue)
add_field fields value none = ok fields
add_field fields value (some ni) =
    if ltb ni (length fields) then put_new fields ni value else ok fields

-- One round of the loop over the operations.
unfoldable pub apply_op :
    Row → Schema → Schema → MigrateOp → MigrateEntry → List FieldValue → Result (List FieldValue)
apply_op old_row old_schema new_schema MigrateOp.rename e fields =
    rename_field old_row fields (field_index new_schema e.new_name)
      (field_index old_schema e.field_name)
apply_op old_row old_schema new_schema MigrateOp.add e fields =
    add_field fields e.default_value (field_index new_schema e.field_name)
apply_op old_row old_schema new_schema MigrateOp.drop e fields = ok fields

unfoldable pub apply_ops :
    Row → Schema → Schema → List MigrateEntry → List FieldValue → Result (List FieldValue)
apply_ops old_row old_schema new_schema [] fields = ok fields
apply_ops old_row old_schema new_schema (e ∷ ops) fields = do
  fields' ← apply_op old_row old_schema new_schema e.op e fields
  apply_ops old_row old_schema new_schema ops fields'

unfoldable pub apply_to_row : Row → Schema → Schema → SchemaMigrate → Result Row
apply_to_row old_row old_schema new_schema migration = do
  copies ← copy_fields old_row old_schema new_schema.fields
  new_fields ← apply_ops old_row old_schema new_schema migration.ops copies
  ok (record { id = old_row.id; fields = new_fields })

abbrev pub is_add : MigrateOp → Bool
is_add MigrateOp.add = true
is_add _ = false

unfoldable pub found_add : List ℕ → List MigrateEntry → Bool
found_add name [] = false
found_add name (e ∷ ops) =
    if is_add e.op && bytes_eq e.field_name name then true else found_add name ops

abbrev pub present : Option ℕ → Bool
present none = false
present (some i) = true

unfoldable pub compatible_fields : Schema → List MigrateEntry → List FieldDef → Bool
compatible_fields old_schema ops [] = true
compatible_fields old_schema ops (nf ∷ fields) =
    let rest = compatible_fields old_schema ops fields in
    if present (field_index old_schema nf.name)
    then rest
    else if found_add nf.name ops
    then rest
    else false

unfoldable pub is_compatible : Schema → Schema → SchemaMigrate → Bool
is_compatible old_schema new_schema migration =
    compatible_fields old_schema migration.ops new_schema.fields
