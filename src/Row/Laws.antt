-- ===== src/Row/Laws.antt =====
-- Reading and writing the fields of a row by position and by name.
use xdl.Prelude.{
  ℕ, zero, suc, ◌<◌, ◌≡◌, ◌≢◌, refl, some, List, [], ◌∷◌, Result, ok, get_elem?, length, arith,
  if◌then◌else◌, ◌==◌, Bool-cases, inl, inr,
}
use xdl.Schema.{FieldDef, Schema}
use xdl.Schema.Laws.{Distinct, field_index_complete}
use xdl.Row.{FieldValue, Row, get_field, get_named, put_at, set}

put_at_lem :
    (xs : List FieldValue) (i : ℕ) (v : FieldValue)
    → i < length xs
    → (ys : List FieldValue) × (put_at xs i v ≡ some ys)
      × (get_elem? ys i ≡ some v)
      × ((j : ℕ) → i ≢ j → get_elem? ys j ≡ get_elem? xs j)
put_at_lem [] i v h = absurd (omega arith)
put_at_lem (x ∷ xs) zero v h = (v ∷ xs, refl, refl, λ j ne. other j ne)
  where
    other : (j : ℕ) → zero ≢ j → get_elem? (v ∷ xs) j ≡ get_elem? (x ∷ xs) j
    other zero ne = absurd (ne refl)
    other (suc j) ne = refl
put_at_lem (x ∷ xs) (suc i) v h =
    let (ys, put, here, others) = put_at_lem xs i v (omega arith) in
    (x ∷ ys, rw put, here, λ j ne. other ys others j ne)
  where
    other :
        (ys : List FieldValue)
        → ((j : ℕ) → i ≢ j → get_elem? ys j ≡ get_elem? xs j)
        → (j : ℕ) → suc i ≢ j
        → get_elem? (x ∷ ys) j ≡ get_elem? (x ∷ xs) j
    other ys others zero ne = refl
    other ys others (suc j) ne = others j (λ e. ne (cc e))

-- `set` at a position in range keeps the id, writes that field, and leaves the other fields alone.
pub set_lem :
    (r : Row) (i : ℕ) (v : FieldValue)
    → i < length r.fields
    → (r' : Row) × (set r i v ≡ ok r')
      × (r'.id ≡ r.id)
      × ((j : ℕ) → get_elem? r'.fields j ≡ (if i == j then some v else get_elem? r.fields j))
unfolding set
set_lem r i v h =
    let (ys, put, here, others) = put_at_lem r.fields i v h in
    (
      record r { fields = ys },
      rw put,
      refl,
      λ j. elim (Bool-cases (i == j)) [
        | inl same ↦ rw same (let e : j ≡ i = ground arith in rw e here)
        | inr differ ↦ rw differ (others j (λ e. ground arith))
      ],
    )

-- Access by the name of a field is access at its position.
pub get_named-get_field {ℓ} :
    {A : Type ℓ} (get : FieldValue → Result A) (r : Row) (s : Schema) (i : ℕ) {f : FieldDef}
    → Distinct s.fields
    → get_elem? s.fields i ≡ some f
    → get_named (get_field get) r s f.name ≡ get_field get r i
unfolding get_named
get_named-get_field get r s i d h = rw (field_index_complete s i d h)
