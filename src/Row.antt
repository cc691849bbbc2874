-- ===== src/Row.antt =====
-- include/xdl/types.h: field values and rows. A float and an int64 are their bit patterns.
pub mod Laws
use xdl.Prelude.{
  ℕ, zero, suc, Bool, Option, none, some, List, [], ◌∷◌, Result, ok, err, invalid_argument,
  bad_variant_access, out_of_range, checked, get_elem?, ◌>>=◌,
}
use xdl.Schema.{Schema, field_index}

-- The variant, with the constructors in the source's order.
pub data FieldValue : Type 0 where
  uint32 : ℕ → FieldValue
  string : List ℕ → FieldValue
  float32 : ℕ → FieldValue
  bool : Bool → FieldValue
  int64 : ℕ → FieldValue

pub record Row : Type 0 where
  pub id : ℕ
  pub fields : List FieldValue

-- `std::get<T>(v)`.
abbrev pub as_uint32 : FieldValue → Result ℕ
as_uint32 (uint32 v) = ok v
as_uint32 _ = err bad_variant_access

abbrev pub as_string : FieldValue → Result (List ℕ)
as_string (string s) = ok s
as_string _ = err bad_variant_access

abbrev pub as_float32 : FieldValue → Result ℕ
as_float32 (float32 v) = ok v
as_float32 _ = err bad_variant_access

abbrev pub as_bool : FieldValue → Result Bool
as_bool (bool b) = ok b
as_bool _ = err bad_variant_access

abbrev pub as_int64 : FieldValue → Result ℕ
as_int64 (int64 v) = ok v
as_int64 _ = err bad_variant_access

-- The positional accessors share `fields.at(idx)`.
unfoldable pub get_field {ℓ} : {A : Type ℓ} → (FieldValue → Result A) → Row → ℕ → Result A
get_field get r idx = do v ← checked (get_elem? r.fields idx); get v

unfoldable pub get_uint32 : Row → ℕ → Result ℕ
unfolding get_field
get_uint32 = get_field as_uint32

unfoldable pub get_string : Row → ℕ → Result (List ℕ)
unfolding get_field
get_string = get_field as_string

unfoldable pub get_float32 : Row → ℕ → Result ℕ
unfolding get_field
get_float32 = get_field as_float32

unfoldable pub get_bool : Row → ℕ → Result Bool
unfolding get_field
get_bool = get_field as_bool

unfoldable pub get_int64 : Row → ℕ → Result ℕ
unfolding get_field
get_int64 = get_field as_int64

abbrev known_field : Option ℕ → Result ℕ
known_field none = err invalid_argument
known_field (some i) = ok i

-- The accessors by name differ only in the positional accessor that they end in.
unfoldable pub get_named {ℓ} :
    {A : Type ℓ} → (Row → ℕ → Result A) → Row → Schema → List ℕ → Result A
get_named get r schema name = do idx ← known_field (field_index schema name); get r idx

abbrev pub put_at : List FieldValue → ℕ → FieldValue → Option (List FieldValue)
put_at [] i v = none
put_at (x ∷ xs) zero v = some (v ∷ xs)
put_at (x ∷ xs) (suc i) v = elim (put_at xs i v) [ none ↦ none | some ys ↦ some (x ∷ ys) ]

unfoldable pub set : Row → ℕ → FieldValue → Result Row
set r idx v = do fields ← checked (put_at r.fields idx v); ok (record r { fields = fields })
