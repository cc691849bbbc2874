-- ===== src/Tests/Schemas.antt =====
-- Schemas: the field names of a schema with two fields.
use xdl.Prelude.{◌≡◌, refl, some, [], ◌∷◌, ok, arith}
use xdl.Schema.{FieldType, FieldDef, Schema, field_index, parse_field_type}
use xdl.Schema.Laws.{Distinct, field_index_complete}

abbrev left_field : FieldDef
left_field = record { name = 108 ∷ []; type = FieldType.int64 }

abbrev right_field : FieldDef
right_field = record { name = 114 ∷ []; type = FieldType.string }

abbrev two_fields : Schema
two_fields = record { fields = left_field ∷ right_field ∷ []; version = 1 }

two_names : Distinct two_fields.fields
two_names = ((λ e. ground arith, tt), (tt, tt))

right_index : field_index two_fields (114 ∷ []) ≡ some 1
right_index = field_index_complete two_fields 1 {f = right_field} two_names refl

int64_name : parse_field_type "int64" ≡ ok FieldType.int64
unfolding parse_field_type
int64_name = refl
