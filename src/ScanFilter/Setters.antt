-- ===== src/ScanFilter/Setters.antt =====
-- The setters of ScanFilter in include/xdl/db.h. The overloads of `eq`, `min`, `max` and `starts` are
-- named for the field of the constraint that they assign.
use xdl.Prelude.{ℕ, Bool, none, some, List, [], ◌∷◌, bytes_eq, if◌then◌else◌}
use xdl.ScanFilter.{FieldConstraint, Constraint}

abbrev pub no_constraint : FieldConstraint
no_constraint = record {
  eq_uint = none;
  eq_str = none;
  eq_float = none;
  eq_bool = none;
  eq_int64 = none;
  min_uint = none;
  max_uint = none;
  min_int64 = none;
  max_int64 = none;
  min_float = none;
  max_float = none;
  prefix = none;
}

-- A change of `constraints[field]`, which the subscript creates if it is absent.
unfoldable pub at_field :
    List ℕ → (FieldConstraint → FieldConstraint) → List Constraint → List Constraint
at_field field f [] = record { field = field; on = f no_constraint } ∷ []
at_field field f (c ∷ cs) =
    if bytes_eq c.field field then record c { on = f c.on } ∷ cs else c ∷ at_field field f cs

unfoldable pub set_eq_uint : List ℕ → ℕ → List Constraint → List Constraint
set_eq_uint field v = at_field field (λ c. record c { eq_uint = some v })

unfoldable pub set_eq_str : List ℕ → List ℕ → List Constraint → List Constraint
set_eq_str field v = at_field field (λ c. record c { eq_str = some v })

unfoldable pub set_eq_float : List ℕ → ℕ → List Constraint → List Constraint
set_eq_float field v = at_field field (λ c. record c { eq_float = some v })

unfoldable pub set_eq_bool : List ℕ → Bool → List Constraint → List Constraint
set_eq_bool field v = at_field field (λ c. record c { eq_bool = some v })

unfoldable pub set_eq_int64 : List ℕ → ℕ → List Constraint → List Constraint
set_eq_int64 field v = at_field field (λ c. record c { eq_int64 = some v })

unfoldable pub set_min_uint : List ℕ → ℕ → List Constraint → List Constraint
set_min_uint field v = at_field field (λ c. record c { min_uint = some v })

unfoldable pub set_max_uint : List ℕ → ℕ → List Constraint → List Constraint
set_max_uint field v = at_field field (λ c. record c { max_uint = some v })

unfoldable pub set_min_int64 : List ℕ → ℕ → List Constraint → List Constraint
set_min_int64 field v = at_field field (λ c. record c { min_int64 = some v })

unfoldable pub set_max_int64 : List ℕ → ℕ → List Constraint → List Constraint
set_max_int64 field v = at_field field (λ c. record c { max_int64 = some v })

unfoldable pub set_min_float : List ℕ → ℕ → List Constraint → List Constraint
set_min_float field v = at_field field (λ c. record c { min_float = some v })

unfoldable pub set_max_float : List ℕ → ℕ → List Constraint → List Constraint
set_max_float field v = at_field field (λ c. record c { max_float = some v })

unfoldable pub set_prefix : List ℕ → List ℕ → List Constraint → List Constraint
set_prefix field v = at_field field (λ c. record c { prefix = some v })
