-- ===== src/Schema/Laws.antt =====
-- Lookup by name, validation, and the names of the types.
use text.Mathlib.TextEquality.{eq_iff}
use Prim.Native.String.{String}
use xdl.Prelude.{
  ℕ, zero, suc, ◌+◌, ◌≡◌, ◌≢◌, ◌↔◌, inl, inr, refl, false, some, List, [], ◌∷◌, ok, bytes_eq,
  bytes_eq_refl, bytes_eq_iff, Bool-cases, All, get_elem?, arith,
}
use xdl.Schema.{
  FieldType, uint32, string, float32, bool, int64, unknown, FieldDef, Schema, field_type_name,
  parse_field_type, field_index_from, field_index, name_repeats, check_names, validate,
}

-- No two fields have one name.
abbrev pub Distinct : List FieldDef → Type 0
Distinct [] = Unit
Distinct (f ∷ fields) = All (λ (g : FieldDef). f.name ≢ g.name) fields × Distinct fields

abbrev pub IsKnown : FieldType → Type 0
IsKnown (unknown _) = ⊥
IsKnown _ = Unit

name_repeats-eq-false :
    (name : List ℕ) (fields : List FieldDef)
    → (name_repeats name fields ≡ false) ↔ All (λ (g : FieldDef). name ≢ g.name) fields
unfolding name_repeats
name_repeats-eq-false name [] = (λ _. tt, λ _. refl)
name_repeats-eq-false name (f ∷ fields) =
    let (to, from) = name_repeats-eq-false name fields in
    elim (Bool-cases (bytes_eq name f.name)) [
      | inl same ↦ (λ h. ground arith, λ h. absurd (h.0 ((bytes_eq_iff name f.name).0 same)))
      | inr differ ↦
          rw differ (λ h. (λ e. cc ((bytes_eq_iff name f.name).1 e), to h), λ h. from h.1)
    ]

check_names_iff : (fields : List FieldDef) → (check_names fields ≡ ok tt) ↔ Distinct fields
unfolding check_names
check_names_iff [] = (λ _. tt, λ _. refl)
check_names_iff (f ∷ fields) =
    let (to, from) = check_names_iff fields in
    let (apart, together) = name_repeats-eq-false f.name fields in
    elim (Bool-cases (name_repeats f.name fields)) [
      | inl again ↦ (λ h. ground arith, λ h. cc (together h.0))
      | inr new ↦ rw new (λ h. (apart new, to h), λ h. from h.1)
    ]

-- A schema passes `validate` exactly when it has a field and its field names are distinct.
pub validate_iff : (s : Schema) → (validate s ≡ ok tt) ↔ ((s.fields ≢ []) × Distinct s.fields)
unfolding validate
validate_iff s = split s.fields
  where
    split :
        (fs : List FieldDef)
        → (validate (record s { fields = fs }) ≡ ok tt) ↔ ((fs ≢ []) × Distinct fs)
    split [] = (λ h. cc, λ h. absurd (h.0 refl))
    split (f ∷ fs) =
        let (to, from) = check_names_iff (f ∷ fs) in (λ h. (λ e. cc, to h), λ h. from h.1)

-- Every type of the enumeration is read back from its name.
pub parse_field_type-field_type_name :
    (t : FieldType) → IsKnown t → parse_field_type (field_type_name t) ≡ ok t
unfolding parse_field_type field_type_name
parse_field_type-field_type_name uint32 h = refl
parse_field_type-field_type_name string h = refl
parse_field_type-field_type_name float32 h = refl
parse_field_type-field_type_name bool h = refl
parse_field_type-field_type_name int64 h = refl
parse_field_type-field_type_name (unknown n) h = elim h [ ]

-- `parse_field_type` accepts only the names of the five types, and returns the type of that name.
pub parse_field_type_sound :
    (s : String) (t : FieldType) → parse_field_type s ≡ ok t → IsKnown t × (s ≡ field_type_name t)
unfolding parse_field_type field_type_name
parse_field_type_sound s t h = pick t h
  where
    pick : (u : FieldType) → parse_field_type s ≡ ok u → IsKnown u × (s ≡ field_type_name u)
    pick uint32 e = (
      tt,
      ground (
        arith,
        eq_iff s "uint32",
        eq_iff s "string",
        eq_iff s "float32",
        eq_iff s "bool",
        eq_iff s "int64",
      ),
    )
    pick string e = (
      tt,
      ground (
        arith,
        eq_iff s "uint32",
        eq_iff s "string",
        eq_iff s "float32",
        eq_iff s "bool",
        eq_iff s "int64",
      ),
    )
    pick float32 e = (
      tt,
      ground (
        arith,
        eq_iff s "uint32",
        eq_iff s "string",
        eq_iff s "float32",
        eq_iff s "bool",
        eq_iff s "int64",
      ),
    )
    pick bool e = (
      tt,
      ground (
        arith,
        eq_iff s "uint32",
        eq_iff s "string",
        eq_iff s "float32",
        eq_iff s "bool",
        eq_iff s "int64",
      ),
    )
    pick int64 e = (
      tt,
      ground (
        arith,
        eq_iff s "uint32",
        eq_iff s "string",
        eq_iff s "float32",
        eq_iff s "bool",
        eq_iff s "int64",
      ),
    )
    pick (unknown n) e = ground (
      arith,
      eq_iff s "uint32",
      eq_iff s "string",
      eq_iff s "float32",
      eq_iff s "bool",
      eq_iff s "int64",
    )

field_index_from_sound :
    (k : ℕ) (fields : List FieldDef) (name : List ℕ) {i : ℕ}
    → field_index_from k fields name ≡ some i
    → (j : ℕ) × (f : FieldDef) × (i ≡ k + j) × (get_elem? fields j ≡ some f) × (f.name ≡ name)
unfolding field_index_from
field_index_from_sound k [] name h = cc
field_index_from_sound k (f ∷ fields) name h = elim (Bool-cases (bytes_eq f.name name)) [
  | inl same ↦ (0, f, ground arith, refl, (bytes_eq_iff f.name name).0 same)
  | inr differ ↦
      let (j, g, at, here, named) = field_index_from_sound (suc k) fields name (rw differ at h) in
      (suc j, g, omega arith, here, named)
]

field_index_from_complete :
    (k j : ℕ) (fields : List FieldDef) {f : FieldDef}
    → Distinct fields
    → get_elem? fields j ≡ some f
    → field_index_from k fields f.name ≡ some (k + j)
unfolding field_index_from
field_index_from_complete k j [] d h = cc
field_index_from_complete k zero (g ∷ fields) {f} d h = ground (arith, bytes_eq_refl g.name)
field_index_from_complete k (suc j) (g ∷ fields) {f} d h =
    elim (Bool-cases (bytes_eq g.name f.name)) [
      | inl same ↦ absurd (apart fields j d.0 h ((bytes_eq_iff g.name f.name).0 same))
      | inr differ ↦ rw differ (ground (arith, field_index_from_complete (suc k) j fields d.1 h))
    ]
  where
    apart :
        (fs : List FieldDef) (i : ℕ)
        → All (λ (e : FieldDef). g.name ≢ e.name) fs
        → get_elem? fs i ≡ some f
        → g.name ≢ f.name
    apart [] i a e = cc
    apart (x ∷ fs) zero a e = λ p. a.0 (cc)
    apart (x ∷ fs) (suc i) a e = apart fs i a.1 e

-- `field_index` returns a position at which a field of that name stands.
pub field_index_sound :
    (s : Schema) (name : List ℕ) {i : ℕ}
    → field_index s name ≡ some i
    → (f : FieldDef) × (get_elem? s.fields i ≡ some f) × (f.name ≡ name)
unfolding field_index
field_index_sound s name h =
    let (j, f, at, here, named) = field_index_from_sound 0 s.fields name h in
    (f, ground arith, named)

-- In a schema with distinct names `field_index` finds every field at its position.
pub field_index_complete :
    (s : Schema) (i : ℕ) {f : FieldDef}
    → Distinct s.fields
    → get_elem? s.fields i ≡ some f
    → field_index s f.name ≡ some i
unfolding field_index
field_index_complete s i d h = ground (arith, field_index_from_complete 0 i s.fields d h)
