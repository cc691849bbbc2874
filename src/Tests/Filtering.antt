-- ===== src/Tests/Filtering.antt =====
-- A filter with a lower bound on a number, on a row of a number and a flag.
use xdl.Prelude.{
  ℕ, ◌≡◌, refl, Bool, true, not, none, some, List, [], ◌∷◌, ◌++◌, ok, ltb, ◌==◌, arith,
}
use xdl.Schema.{FieldType, Schema}
use xdl.Schema.Laws.{Distinct}
use xdl.Row.{FieldValue, Row}
use xdl.RowCodec.{write_row}
use xdl.RowCodec.RoundTrip.{FieldsFit}
use xdl.ScanFilter.{Constraint, matches, matches_raw}
use xdl.ScanFilter.Rows.{matches_raw-matches}

abbrev flagged : Schema
flagged = record {
  fields =
      record { name = 99 ∷ []; type = FieldType.uint32 }
      ∷ record { name = 102 ∷ []; type = FieldType.bool }
      ∷ [];
  version = 1;
}

abbrev counted_row : Row
counted_row = record { id = 5; fields = FieldValue.uint32 7 ∷ FieldValue.bool true ∷ [] }

abbrev at_least_six : Constraint
at_least_six = record {
  field = 99 ∷ [];
  on = record {
    eq_uint = none;
    eq_str = none;
    eq_float = none;
    eq_bool = none;
    eq_int64 = none;
    min_uint = some 6;
    max_uint = none;
    min_int64 = none;
    max_int64 = none;
    min_float = none;
    max_float = none;
    prefix = none;
  };
}

abbrev bits_ne : ℕ → ℕ → Bool
bits_ne a b = not (a == b)

flagged-Distinct : Distinct flagged.fields
flagged-Distinct = ((λ e. ground arith, tt), (tt, tt))

counted-FieldsFit : FieldsFit flagged.fields counted_row.fields
counted-FieldsFit = (omega arith, (tt, tt))

matches_raw-matches_example :
    (bs : List ℕ) × (answer : Bool) × (write_row 13 counted_row flagged ≡ ok bs)
    × (matches bits_ne ltb (at_least_six ∷ []) counted_row flagged ≡ ok answer)
    × ((rest : List ℕ)
        → matches_raw bits_ne ltb (at_least_six ∷ []) (bs ++ rest) flagged ≡ ok answer)
matches_raw-matches_example =
    matches_raw-matches bits_ne ltb (at_least_six ∷ []) counted_row flagged 13 counted-FieldsFit
      flagged-Distinct (refl, tt)
