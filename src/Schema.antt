-- ===== src/Schema.antt =====
-- include/xdl/types.h: field types, field definitions and schemas.
pub mod Laws
use text.Mathlib.Text.{◌==◌ as str_eq}
use Prim.Native.String.{String}
use xdl.Prelude.{
  ℕ, zero, suc, ◌+◌, Bool, true, false, Option, none, some, List, [], ◌∷◌, Result, ok, err,
  invalid_argument, bytes_eq, if◌then◌else◌, ◌>>◌, ◌>>=◌,
}

-- The enumeration has an underlying type, so a cast can give it any byte: `unknown` are those
-- values that no enumerator has.
pub data FieldType : Type 0 where
  uint32 string float32 bool int64 : FieldType
  unknown : ℕ → FieldType

-- 0 is a variable width.
unfoldable pub field_type_width : FieldType → ℕ
field_type_width uint32 = 4
field_type_width float32 = 4
field_type_width bool = 1
field_type_width int64 = 8
field_type_width string = 0
field_type_width (unknown _) = 0

unfoldable pub field_type_name : FieldType → String
field_type_name uint32 = "uint32"
field_type_name string = "string"
field_type_name float32 = "float32"
field_type_name bool = "bool"
field_type_name int64 = "int64"
field_type_name (unknown _) = "unknown"

unfoldable pub parse_field_type : String → Result FieldType
parse_field_type s =
    if str_eq s "uint32"
    then ok uint32
    else if str_eq s "string"
    then ok string
    else if str_eq s "float32"
    then ok float32
    else if str_eq s "bool"
    then ok bool
    else if str_eq s "int64"
    then ok int64
    else err invalid_argument

pub record FieldDef : Type 0 where
  pub name : List ℕ
  pub type : FieldType

pub record Schema : Type 0 where
  pub fields : List FieldDef
  pub version : ℕ

-- The loop of `field_index` from position `i` on.
unfoldable pub field_index_from : ℕ → List FieldDef → List ℕ → Option ℕ
field_index_from i [] name = none
field_index_from i (f ∷ fields) name =
    if bytes_eq f.name name then some i else field_index_from (suc i) fields name

-- `none` is the result -1.
unfoldable pub field_index : Schema → List ℕ → Option ℕ
unfolding field_index_from
field_index s name = field_index_from 0 s.fields name

-- The inner loop of `validate`: does a later field have the name of this one?
unfoldable pub name_repeats : List ℕ → List FieldDef → Bool
name_repeats name [] = false
name_repeats name (f ∷ fields) = if bytes_eq name f.name then true else name_repeats name fields

-- The outer loop.
unfoldable pub check_names : List FieldDef → Result (Unit {0})
unfolding name_repeats
check_names [] = ok tt
check_names (f ∷ fields) =
    if name_repeats f.name fields then err invalid_argument else check_names fields

abbrev not_empty : List FieldDef → Result (Unit {0})
not_empty [] = err invalid_argument
not_empty (_ ∷ _) = ok tt

unfoldable pub validate : Schema → Result (Unit {0})
unfolding check_names
validate s = do not_empty s.fields; check_names s.fields
