-- ===== src/Migrate/Fields.antt =====
-- What a migration puts into each field of a row.
use xdl.Prelude.{
  ℕ, zero, suc, ◌<◌, ◌≡◌, ◌∙◌, refl, ap, Bool, true, false, Option, none, some, List, [], ◌∷◌,
  Result, ok, defined, get_elem?, length, lt→ltb, if◌then◌else◌, ◌==◌, arith, Option-cases, inl,
  inr,
}
use xdl.Schema.{FieldDef, Schema, field_index}
use xdl.Schema.Laws.{field_index_sound}
use xdl.Row.{FieldValue, Row, put_at}
use xdl.Migrate.{
  MigrateOp, MigrateEntry, SchemaMigrate, empty_value, old_value, copied, copy_fields, put_new,
  apply_op, apply_ops, apply_to_row,
}

-- The value of an old field, which is there in a row of the old schema.
abbrev pub value_of : Row → ℕ → FieldValue
value_of r i = elim (get_elem? r.fields i) [ none ↦ empty_value | some v ↦ v ]

-- The value of the field at `i` of the new schema before the operations.
abbrev pub start_value : Row → Schema → List ℕ → FieldValue
start_value r old name = elim (field_index old name) [
  | none ↦ empty_value
  | some oi ↦ value_of r oi
]

abbrev pub is_at : ℕ → Option ℕ → Bool
is_at i none = false
is_at i (some j) = j == i

-- What one operation makes of the value of the field at `i`.
unfoldable pub op_value :
    Row → Schema → Schema → ℕ → MigrateOp → MigrateEntry → FieldValue → FieldValue
op_value r old new i MigrateOp.rename e v =
    if is_at i (field_index new e.new_name)
    then elim (field_index old e.field_name) [ none ↦ v | some oi ↦ value_of r oi ]
    else v
op_value r old new i MigrateOp.add e v =
    if is_at i (field_index new e.field_name) then e.default_value else v
op_value r old new i MigrateOp.drop e v = v

unfoldable pub ops_value : Row → Schema → Schema → ℕ → List MigrateEntry → FieldValue → FieldValue
ops_value r old new i [] v = v
ops_value r old new i (e ∷ ops) v = ops_value r old new i ops (op_value r old new i e.op e v)

abbrev pub map_some {ℓ κ} : {A : Type ℓ} {B : Type κ} → (A → B) → Option A → Option B
map_some f none = none
map_some f (some a) = some (f a)

map_some_same {ℓ} : {A : Type ℓ} (o : Option A) → o ≡ map_some (λ a. a) o
map_some_same none = refl
map_some_same (some a) = refl

map_some_twice {ℓ} :
    {A : Type ℓ} (f g : A → A) (o : Option A)
    → map_some f (map_some g o) ≡ map_some (λ a. f (g a)) o
map_some_twice f g none = refl
map_some_twice f g (some a) = refl

lt_of_get {ℓ} : {A : Type ℓ} (xs : List A) (i : ℕ) {a : A} → get_elem? xs i ≡ some a → i < length xs
lt_of_get [] i h = cc
lt_of_get (x ∷ xs) zero h = omega arith
lt_of_get (x ∷ xs) (suc i) h = omega (arith, lt_of_get xs i h)

get_of_lt {ℓ} :
    {A : Type ℓ} (xs : List A) (i : ℕ) → i < length xs → (a : A) × (get_elem? xs i ≡ some a)
get_of_lt [] i h = absurd (omega arith)
get_of_lt (x ∷ xs) zero h = (x, refl)
get_of_lt (x ∷ xs) (suc i) h = get_of_lt xs i (omega arith)

field_index-lt :
    (s : Schema) (name : List ℕ) {i : ℕ} → field_index s name ≡ some i → i < length s.fields
field_index-lt s name {i} h = let (f, e, _) = field_index_sound s name h in lt_of_get s.fields i e

-- A vector that was made from another one, position by position.
record Maps (f : ℕ → FieldValue → FieldValue) (xs : List FieldValue) (r : Result (List FieldValue))
    : Type 0 where
  ys : List FieldValue
  returned : r ≡ ok ys
  same_length : length ys ≡ length xs
  values : (j : ℕ) → get_elem? ys j ≡ map_some (f j) (get_elem? xs j)

unchanged : (xs : List FieldValue) → Maps (λ j v. v) xs (ok xs)
unchanged xs = record {
  ys = xs;
  returned = refl;
  same_length = refl;
  values = λ j. map_some_same (get_elem? xs j);
}

suc_eq : (a b : ℕ) → (suc a == suc b) ≡ (a == b)
suc_eq a b = ground arith

put_at_maps :
    (xs : List FieldValue) (ni : ℕ) (value : FieldValue)
    → ni < length xs
    → (ys : List FieldValue) × (put_at xs ni value ≡ some ys)
      × (length ys ≡ length xs)
      × ((j : ℕ) → get_elem? ys j ≡ map_some (λ v. if ni == j then value else v) (get_elem? xs j))
put_at_maps [] ni value h = absurd (omega arith)
put_at_maps (x ∷ xs) zero value h = (value ∷ xs, refl, refl, λ j. at j)
  where
    at :
        (j : ℕ)
        → get_elem? (value ∷ xs) j
          ≡ map_some (λ v. if 0 == j then value else v) (get_elem? (x ∷ xs) j)
    at zero = refl
    at (suc j) = ground (arith, map_some_same (get_elem? xs j))
put_at_maps (x ∷ xs) (suc ni) value h =
    let (ys, put, len, values) = put_at_maps xs ni value (omega arith) in
    (x ∷ ys, rw put, ap suc len, λ j. at ys values j)
  where
    at :
        (ys : List FieldValue)
        → ((j : ℕ) → get_elem? ys j ≡ map_some (λ v. if ni == j then value else v) (get_elem? xs j))
        → (j : ℕ)
        → get_elem? (x ∷ ys) j
          ≡ map_some (λ v. if suc ni == j then value else v) (get_elem? (x ∷ xs) j)
    at ys h zero = ground arith
    at ys h (suc j) = rw (suc_eq ni j) (h j)

put_new_lem :
    (xs : List FieldValue) (ni : ℕ) (value : FieldValue)
    → ni < length xs
    → Maps (λ j v. if ni == j then value else v) xs (put_new xs ni value)
put_new_lem xs ni value h =
    let (ys, put, len, values) = put_at_maps xs ni value h in
    record { ys = ys; returned = rw put; same_length = len; values = values }

-- An operation that writes back what was there.
written_back : (ni : ℕ) (xs : List FieldValue) → Maps (λ j v. if ni == j then v else v) xs (ok xs)
written_back ni xs = record {
  ys = xs;
  returned = refl;
  same_length = refl;
  values = λ j. at (ni == j) (get_elem? xs j);
}
  where
    at : (c : Bool) (o : Option FieldValue) → o ≡ map_some (λ v. if c then v else v) o
    at true o = map_some_same o
    at false o = map_some_same o

value_defined :
    (o : Option FieldValue) {v : FieldValue}
    → o ≡ some v
    → defined o ≡ ok (elim o [ none ↦ empty_value | some x ↦ x ])
value_defined none h = cc
value_defined (some x) h = refl

module _ (r : Row) (old new : Schema) (len : length r.fields ≡ length old.fields) where
  old_value_there :
      (name : List ℕ) {oi : ℕ}
      → field_index old name ≡ some oi
      → old_value r oi ≡ ok (value_of r oi)
  old_value_there name {oi} h =
      let (v, e) = get_of_lt r.fields oi (omega (arith, field_index-lt old name h)) in
      value_defined (get_elem? r.fields oi) e

  op_lem :
      (op : MigrateOp) (e : MigrateEntry) (xs : List FieldValue)
      → length xs ≡ length new.fields
      → Maps (λ j v. op_value r old new j op e v) xs (apply_op r old new op e xs)
  unfolding apply_op op_value
  op_lem MigrateOp.drop e xs n = unchanged xs
  op_lem MigrateOp.add e xs n = elim (Option-cases (field_index new e.field_name)) [
    | inl absent ↦ rw absent (unchanged xs)
    | inr (ni, there) ↦
        let inside : ni < length xs = omega (arith, field_index-lt new e.field_name there) in
        rw (there, lt→ltb ni (length xs) inside) (put_new_lem xs ni e.default_value inside)
  ]
  op_lem MigrateOp.rename e xs n = elim (Option-cases (field_index new e.new_name)) [
    | inl absent ↦ rw absent (unchanged xs)
    | inr (ni, there) ↦ elim (Option-cases (field_index old e.field_name)) [
      | inl gone ↦ rw (there, gone) (written_back ni xs)
      | inr (oi, source) ↦
          let inside : ni < length xs = omega (arith, field_index-lt new e.new_name there) in
          rw (there, source, old_value_there e.field_name source)
            (put_new_lem xs ni (value_of r oi) inside)
    ]
  ]

  ops_lem :
      (ops : List MigrateEntry) (xs : List FieldValue)
      → length xs ≡ length new.fields
      → Maps (λ j v. ops_value r old new j ops v) xs (apply_ops r old new ops xs)
  unfolding apply_ops ops_value
  ops_lem [] xs n = unchanged xs
  ops_lem (e ∷ ops) xs n =
      let m = op_lem e.op e xs n in
      let k = ops_lem ops m.ys (m.same_length ∙ n) in
      record {
        ys = k.ys;
        returned = rw (m.returned, k.returned);
        same_length = k.same_length ∙ m.same_length;
        values = λ j.
            k.values j
            ∙ rw (m.values j) (
                map_some_twice (ops_value r old new j ops) (op_value r old new j e.op e)
                  (get_elem? xs j));
      }

  copied_there : (name : List ℕ) → copied r (field_index old name) ≡ ok (start_value r old name)
  copied_there name = pick (field_index old name) (λ oi e. old_value_there name {oi = oi} e)
    where
      pick :
          (o : Option ℕ)
          → ((oi : ℕ) → o ≡ some oi → old_value r oi ≡ ok (value_of r oi))
          → copied r o ≡ ok (elim o [ none ↦ empty_value | some oi ↦ value_of r oi ])
      pick none h = refl
      pick (some oi) h = h oi refl

  copy_lem :
      (fs : List FieldDef)
      → (xs : List FieldValue) × (copy_fields r old fs ≡ ok xs)
        × (length xs ≡ length fs)
        × ((j : ℕ) → get_elem? xs j ≡ map_some (λ f. start_value r old f.name) (get_elem? fs j))
  unfolding copy_fields
  copy_lem [] = ([], refl, refl, λ j. refl)
  copy_lem (f ∷ fs) =
      let (xs, copied_all, n, values) = copy_lem fs in
      (
        start_value r old f.name ∷ xs,
        rw (copied_there f.name, copied_all),
        ap suc n,
        λ j. at xs values j,
      )
    where
      at :
          (xs : List FieldValue)
          → ((j : ℕ) → get_elem? xs j ≡ map_some (λ g. start_value r old g.name) (get_elem? fs j))
          → (j : ℕ)
          → get_elem? (start_value r old f.name ∷ xs) j
            ≡ map_some (λ g. start_value r old g.name) (get_elem? (f ∷ fs) j)
      at xs h zero = refl
      at xs h (suc j) = h j

-- A row of the old schema is migrated without a read outside it: the id stays, and every field of
-- the new schema holds what the operations, in order, make of the old value of that name.
pub apply_to_row_lem :
    (r : Row) (old new : Schema) (migration : SchemaMigrate)
    → length r.fields ≡ length old.fields
    → (r' : Row) × (apply_to_row r old new migration ≡ ok r')
      × (r'.id ≡ r.id)
      × ((j : ℕ)
          → get_elem? r'.fields j
            ≡ map_some
                (λ f. ops_value r old new j migration.ops (start_value r old f.name))
                (get_elem? new.fields j))
unfolding apply_to_row
apply_to_row_lem r old new migration len =
    let (xs, copied_all, n, values) = copy_lem r old new len new.fields in
    let m = ops_lem r old new len migration.ops xs n in
    (
      record { id = r.id; fields = m.ys },
      rw (copied_all, m.returned),
      refl,
      λ j.
          m.values j
          ∙ rw (values j) (
              compose (ops_value r old new j migration.ops) (λ f. start_value r old f.name)
                (get_elem? new.fields j)),
    )
  where
    compose :
        (g : FieldValue → FieldValue) (f : FieldDef → FieldValue) (o : Option FieldDef)
        → map_some g (map_some f o) ≡ map_some (λ a. g (f a)) o
    compose g f none = refl
    compose g f (some a) = refl
