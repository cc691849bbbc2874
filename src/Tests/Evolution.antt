-- ===== src/Tests/Evolution.antt =====
-- A schema block, and a migration that renames one field and adds another.
use xdl.Prelude.{ℕ, ◌≡◌, refl, true, [], ◌∷◌, ◌++◌, ok, get_elem?, arith}
use xdl.Schema.{FieldType, Schema}
use xdl.Row.{FieldValue, Row}
use xdl.SchemaCodec.{serialise_schema, deserialise_schema}
use xdl.SchemaCodec.RoundTrip.{SchemaFits, deserialise_schema-serialise_schema}
use xdl.SchemaCodec.Safety.{IsSafe, deserialise_schema-IsSafe}
use xdl.Migrate.{MigrateOp, SchemaMigrate, apply_to_row}
use xdl.Migrate.Fields.{start_value, ops_value, map_some, apply_to_row_lem}

abbrev old_schema : Schema
old_schema = record {
  fields = record { name = 97 ∷ []; type = FieldType.uint32 } ∷ [];
  version = 1;
}

abbrev new_schema : Schema
new_schema = record {
  fields =
      record { name = 98 ∷ []; type = FieldType.uint32 }
      ∷ record { name = 99 ∷ []; type = FieldType.bool }
      ∷ [];
  version = 2;
}

abbrev migration : SchemaMigrate
migration = record {
  from_version = 1;
  to_version = 2;
  ops =
      record {
        op = MigrateOp.rename;
        field_name = 97 ∷ [];
        new_name = 98 ∷ [];
        type = FieldType.uint32;
        default_value = FieldValue.uint32 0;
      }
      ∷ record {
        op = MigrateOp.add;
        field_name = 99 ∷ [];
        new_name = [];
        type = FieldType.bool;
        default_value = FieldValue.bool true;
      }
      ∷ [];
}

abbrev old_row : Row
old_row = record { id = 4; fields = FieldValue.uint32 21 ∷ [] }

new-SchemaFits : SchemaFits new_schema
new-SchemaFits = record {
  some_field = omega arith;
  few_fields = omega arith;
  version_fits = omega arith;
  fields_fit = ((omega arith, tt), ((omega arith, tt), tt));
}

deserialise_schema-serialise_schema_example :
    deserialise_schema (serialise_schema new_schema ++ 7 ∷ []) ≡ ok new_schema
deserialise_schema-serialise_schema_example =
    deserialise_schema-serialise_schema new_schema (7 ∷ []) new-SchemaFits

deserialise_schema-IsSafe_example : IsSafe (deserialise_schema (2 ∷ 0 ∷ 0 ∷ 0 ∷ 1 ∷ []))
deserialise_schema-IsSafe_example = deserialise_schema-IsSafe (2 ∷ 0 ∷ 0 ∷ 0 ∷ 1 ∷ [])

apply_to_row_lem_example :
    (r' : Row) × (apply_to_row old_row old_schema new_schema migration ≡ ok r')
    × (r'.id ≡ 4)
    × ((j : ℕ)
        → get_elem? r'.fields j
          ≡ map_some
              (λ f.
                ops_value old_row old_schema new_schema j migration.ops
                  (start_value old_row old_schema f.name))
              (get_elem? new_schema.fields j))
apply_to_row_lem_example = apply_to_row_lem old_row old_schema new_schema migration refl
