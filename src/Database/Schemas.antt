-- ===== src/Database/Schemas.antt =====
-- `schemas_match` is equality of the fields.
use xdl.Prelude.{
  ◌≡◌, ◌↔◌, refl, ap, Bool, true, false, ◌&&◌, List, [], ◌∷◌, ==_iff, ==_refl, bytes_eq,
  eq_of_bytes_eq, bytes_eq_refl,
}
use xdl.Schema.{FieldType, FieldDef, Schema}
use xdl.Database.{same_type, fields_match, schemas_match}

same_type-eq : (a b : FieldType) → same_type a b ≡ true → a ≡ b
same_type-eq FieldType.uint32 FieldType.uint32 h = refl
same_type-eq FieldType.string FieldType.string h = refl
same_type-eq FieldType.float32 FieldType.float32 h = refl
same_type-eq FieldType.bool FieldType.bool h = refl
same_type-eq FieldType.int64 FieldType.int64 h = refl
same_type-eq (FieldType.unknown a) (FieldType.unknown b) h = ap FieldType.unknown ((==_iff a b).0 h)
same_type-eq _ _ h = cc

same_type_refl : (a : FieldType) → same_type a a ≡ true
same_type_refl FieldType.uint32 = refl
same_type_refl FieldType.string = refl
same_type_refl FieldType.float32 = refl
same_type_refl FieldType.bool = refl
same_type_refl FieldType.int64 = refl
same_type_refl (FieldType.unknown a) = ==_refl a

both : (a b : Bool) → (a && b) ≡ true → (a ≡ true) × (b ≡ true)
both true true h = (refl, refl)
both true false h = cc
both false b h = cc

fields_match-eq : (as' bs : List FieldDef) → fields_match as' bs ≡ true → as' ≡ bs
unfolding fields_match
fields_match-eq [] [] h = refl
fields_match-eq (a ∷ as') (b ∷ bs) h =
    let (names, more) =
      both (bytes_eq a.name b.name) (same_type a.type b.type && fields_match as' bs) h in
    let (types, rest) = both (same_type a.type b.type) (fields_match as' bs) more in
    λ i.
      record {
        name = eq_of_bytes_eq a.name b.name names i;
        type = same_type-eq a.type b.type types i;
      }
      ∷ fields_match-eq as' bs rest i
fields_match-eq [] (b ∷ bs) h = cc
fields_match-eq (a ∷ as') [] h = cc

fields_match_refl : (as' : List FieldDef) → fields_match as' as' ≡ true
unfolding fields_match
fields_match_refl [] = refl
fields_match_refl (a ∷ as') =
    rw (bytes_eq_refl a.name, same_type_refl a.type) (fields_match_refl as')

-- Two schemas match exactly if they have the same fields in the same order, with the same names and
-- types; their versions do not matter.
pub schemas_match_iff : (a b : Schema) → (schemas_match a b ≡ true) ↔ (a.fields ≡ b.fields)
unfolding schemas_match
schemas_match_iff a b = (fields_match-eq a.fields b.fields, λ e. rw e (fields_match_refl b.fields))
