-- ===== src/Database/Batches.antt =====
-- The validation of the batches.
use xdl.Prelude.{
  ℕ, ◌+◌, ◌%◌, ◌^◌, ◌≤◌, ◌≡◌, ◌∙◌, refl, ap, inl, inr, ◌⊎◌, Bool, true, false, Option, none, some,
  List, [], ◌∷◌, map, Result, ok, err, fault, Error, xdl_error, duplicate_key, not_found, length,
  ltb, ◌==◌, if◌then◌else◌, ◌>>=◌ as bind, Bool-cases, Option-cases, All, arith,
}
use xdl.Schema.{FieldType, FieldDef}
use xdl.Row.{FieldValue, Row}
use xdl.RowCodec.{page_size, field_byte_size, size_loop, row_byte_size, serialised_row_size}
use xdl.Index.{contains, find}
use xdl.SortedPairs.{IndexEntry}
use xdl.Compression.{Lz4}
use xdl.Database.{Db}
use xdl.Database.Writes.{
  count_differs, is_in_index, check_size, check_inserts, check_erases, insert_batch, erase_batch,
}
use xdl.Database.Map.{while_open}

-- The row may be inserted: it has as many values as the schema has fields, its id is new, and its
-- serialised form fits a page.
pub record IsNew (db : Db) (row : Row) : Type 0 where
  pub count : length row.fields ≡ length db.schema.fields
  pub new : find db.pager.index row.id ≡ none
  pub need : ℕ
  pub sized : row_byte_size row db.schema ≡ ok need
  pub small : need ≤ page_size

abbrev pub IsKnown : Db → ℕ → Type 0
IsKnown db id = (e : IndexEntry) × (find db.pager.index id ≡ some e)

-- No id twice.
abbrev pub Distinct : List ℕ → Type 0
Distinct [] = Unit
Distinct (id ∷ ids) = (contains id ids ≡ false) × Distinct ids

abbrev pub row_ids : List Row → List ℕ
row_ids rows = map (λ row. row.id) rows

absent_of : (db : Db) (id : ℕ) → is_in_index db id ≡ false → find db.pager.index id ≡ none
absent_of db id h = elim (Option-cases (find db.pager.index id)) [
  | inl absent ↦ absent
  | inr (e, found) ↦
      cc (
        h,
        ap {B = Bool} (λ (o : Option IndexEntry). elim o [ none ↦ false | some _ ↦ true ]) found,
      )
]

known_of : (db : Db) (id : ℕ) → is_in_index db id ≡ true → IsKnown db id
known_of db id h = elim (Option-cases (find db.pager.index id)) [
  | inl absent ↦
      cc (
        h,
        ap {B = Bool} (λ (o : Option IndexEntry). elim o [ none ↦ false | some _ ↦ true ]) absent,
      )
  | inr found ↦ found
]

size_of :
    (db : Db) (row : Row)
    → check_size db row ≡ ok tt
    → (need : ℕ) × (row_byte_size row db.schema ≡ ok need) × (need ≤ page_size)
unfolding check_size serialised_row_size
size_of db row h = given (row_byte_size row db.schema) refl h
  where
    given :
        (r : Result ℕ)
        → row_byte_size row db.schema ≡ r
        → ◌≡◌ {A = Result (Unit {0})}
            (bind r (λ need. if ltb page_size need then err xdl_error else ok tt))
            (ok tt)
        → (need : ℕ) × (row_byte_size row db.schema ≡ ok need) × (need ≤ page_size)
    given (ok need) e p = (need, e, ground arith)
    given (err x) e p = cc
    given fault e p = cc

accepted-IsNew :
    (db : Db) (row : Row)
    → count_differs db row ≡ false
    → is_in_index db row.id ≡ false
    → check_size db row ≡ ok tt
    → IsNew db row
accepted-IsNew db row same absent fits =
    let (need, sized, small) = size_of db row fits in
    record {
      count = ground arith;
      new = absent_of db row.id absent;
      need = need;
      sized = sized;
      small = small;
    }

refused :
    (c : Bool) (x : Error) (later : Result (Unit {0}))
    → (if c then err x else later) ≡ ok tt
    → (c ≡ false) × (later ≡ ok tt)
refused true x later h = cc
refused false x later h = (refl, h)

first_ok :
    (r later : Result (Unit {0})) → bind r (λ u. later) ≡ ok tt → (r ≡ ok tt) × (later ≡ ok tt)
first_ok (ok u) later h = (refl, h)
first_ok (err x) later h = cc
first_ok fault later h = cc

module _ (db : Db) where
  -- What holds of the rest of a batch behind `seen`.
  IsFresh : List ℕ → List ℕ → Type 0
  IsFresh seen ids = Distinct ids × ((j : ℕ) → contains j seen ≡ true → contains j ids ≡ false)

  more_IsFresh :
      (seen ids : List ℕ) (id : ℕ)
      → contains id seen ≡ false
      → IsFresh (id ∷ seen) ids
      → IsFresh seen (id ∷ ids)
  unfolding IsFresh contains
  more_IsFresh seen ids id new rest = (
    (rest.1 id (ground arith), rest.0),
    λ j old. elim (Bool-cases (id == j)) [
      | inl same ↦ (let e : id ≡ j = ground arith in cc (old, new, ap (λ i. contains i seen) e))
      | inr other ↦ rw other (rest.1 j (rw other old))
    ],
  )

  none_IsFresh : (seen : List ℕ) → IsFresh seen []
  unfolding IsFresh contains
  none_IsFresh seen = (tt, λ j old. refl)

  checked_inserts :
      (seen : List ℕ) (rows : List Row)
      → check_inserts db seen rows ≡ ok tt
      → All (IsNew db) rows × IsFresh seen (row_ids rows)
  unfolding check_inserts
  checked_inserts seen [] h = (tt, none_IsFresh seen)
  checked_inserts seen (row ∷ rows) h =
      let (count, h1) = refused (count_differs db row) _ _ h in
      let (absent, h2) = refused (is_in_index db row.id) _ _ h1 in
      let (unseen, h3) = refused (contains row.id seen) _ _ h2 in
      let (fits, h4) = first_ok (check_size db row) (check_inserts db (row.id ∷ seen) rows) h3 in
      let (news, fresh) = checked_inserts (row.id ∷ seen) rows h4 in
      (
        (accepted-IsNew db row count absent fits, news),
        more_IsFresh seen (row_ids rows) row.id unseen fresh,
      )

  checked_erases :
      (seen ids : List ℕ)
      → check_erases db seen ids ≡ ok tt
      → All (IsKnown db) ids × IsFresh seen ids
  unfolding check_erases
  checked_erases seen [] h = (tt, none_IsFresh seen)
  checked_erases seen (id ∷ ids) h =
      let (unseen, h1) = refused (contains id seen) _ _ h in
      let (known, h2) = accepted (is_in_index db id) _ (check_erases db (id ∷ seen) ids) h1 in
      let (all_known, fresh) = checked_erases (id ∷ seen) ids h2 in
      ((known_of db id known, all_known), more_IsFresh seen ids id unseen fresh)
    where
      accepted :
          (c : Bool) (x : Error) (later : Result (Unit {0}))
          → (if c then later else err x) ≡ ok tt
          → (c ≡ true) × (later ≡ ok tt)
      accepted true x later h = (refl, h)
      accepted false x later h = cc

-- The validation throws or accepts: it never reads outside a container.
abbrev faults {ℓ} : {A : Type ℓ} → Result A → Bool
faults fault = true
faults _ = false

field_safe : (t : FieldType) (v : FieldValue) → faults (field_byte_size t v) ≡ false
unfolding field_byte_size
field_safe FieldType.uint32 (FieldValue.uint32 v) = refl
field_safe FieldType.string (FieldValue.string s) = ground arith
field_safe FieldType.float32 (FieldValue.float32 v) = refl
field_safe FieldType.bool (FieldValue.bool b) = refl
field_safe FieldType.int64 (FieldValue.int64 v) = refl
field_safe _ _ = refl

bind_safe :
    {A B : Type 0} (r : Result A) (rest : A → Result B)
    → faults r ≡ false
    → ((a : A) → faults (rest a) ≡ false)
    → faults (bind r rest) ≡ false
bind_safe (ok a) rest h k = k a
bind_safe (err e) rest h k = refl
bind_safe fault rest h k = cc

size_safe :
    (sz : ℕ) (ds : List FieldDef) (vs : List FieldValue) → faults (size_loop sz ds vs) ≡ false
unfolding size_loop
size_safe sz [] vs = refl
size_safe sz (d ∷ ds) [] = refl
size_safe sz (d ∷ ds) (v ∷ vs) =
    bind_safe (field_byte_size d.type v) _ (field_safe d.type v)
      (λ n. size_safe ((sz + n) % 2 ^ 32) ds vs)

check_size_safe : (db : Db) (row : Row) → faults (check_size db row) ≡ false
unfolding check_size serialised_row_size row_byte_size
check_size_safe db row =
    bind_safe (size_loop 8 db.schema.fields row.fields) _ (size_safe 8 db.schema.fields row.fields)
      (λ need. ground arith)

if_safe :
    (c : Bool) {A : Type 0} (r later : Result A)
    → faults r ≡ false
    → faults later ≡ false
    → faults (if c then r else later) ≡ false
if_safe true r later h k = h
if_safe false r later h k = k

check_inserts_safe :
    (db : Db) (seen : List ℕ) (rows : List Row) → faults (check_inserts db seen rows) ≡ false
unfolding check_inserts
check_inserts_safe db seen [] = refl
check_inserts_safe db seen (row ∷ rows) = if_safe (count_differs db row) (err xdl_error) _ refl (
    if_safe (is_in_index db row.id) (err duplicate_key) _ refl (
      if_safe (contains row.id seen) (err duplicate_key) _ refl (
        bind_safe (check_size db row) _ (check_size_safe db row)
          (λ u. check_inserts_safe db (row.id ∷ seen) rows))))

check_erases_safe : (db : Db) (seen ids : List ℕ) → faults (check_erases db seen ids) ≡ false
unfolding check_erases
check_erases_safe db seen [] = refl
check_erases_safe db seen (id ∷ ids) =
    if_safe (contains id seen) (err duplicate_key) _ refl
      (if_safe (is_in_index db id) _ (err not_found) (check_erases_safe db (id ∷ seen) ids) refl)

module _ (z : Lz4) (db : Db) (opened : db.is_open ≡ true) where
  -- `insert_batch` of some rows either throws and changes nothing, or each row has the right number of
  -- values, a new id and a size that fits a page, and no id occurs twice in the batch.
  pub insert_batch-validates :
      (row : Row) (rows : List Row)
      → ((e : Error) × (insert_batch z (row ∷ rows) db ≡ (db, err e)))
        ⊎ (All (IsNew db) (row ∷ rows) × Distinct (row_ids (row ∷ rows)))
  unfolding insert_batch IsFresh
  insert_batch-validates row rows = split (check_inserts db [] (row ∷ rows)) refl
    where
      some_rows : (length (row ∷ rows) == 0) ≡ false
      some_rows = ground arith

      split :
          (r : Result (Unit {0}))
          → check_inserts db [] (row ∷ rows) ≡ r
          → ((e : Error) × (insert_batch z (row ∷ rows) db ≡ (db, err e)))
            ⊎ (All (IsNew db) (row ∷ rows) × Distinct (row_ids (row ∷ rows)))
      split (ok u) h =
          inr (let (news, fresh) = checked_inserts db [] (row ∷ rows) h in (news, fresh.0))
      split (err e) h = inl (e, while_open _ db opened ∙ rw (some_rows, h))
      split fault h = cc (ap faults h, check_inserts_safe db [] (row ∷ rows))

  -- `erase_batch` of some ids either throws and changes nothing, or each id is in the index and none
  -- occurs twice in the batch.
  pub erase_batch-validates :
      (id : ℕ) (ids : List ℕ)
      → ((e : Error) × (erase_batch z (id ∷ ids) db ≡ (db, err e)))
        ⊎ (All (IsKnown db) (id ∷ ids) × Distinct (id ∷ ids))
  unfolding erase_batch IsFresh
  erase_batch-validates id ids = split (check_erases db [] (id ∷ ids)) refl
    where
      some_ids : (length (id ∷ ids) == 0) ≡ false
      some_ids = ground arith

      split :
          (r : Result (Unit {0}))
          → check_erases db [] (id ∷ ids) ≡ r
          → ((e : Error) × (erase_batch z (id ∷ ids) db ≡ (db, err e)))
            ⊎ (All (IsKnown db) (id ∷ ids) × Distinct (id ∷ ids))
      split (ok u) h =
          inr (let (known, fresh) = checked_erases db [] (id ∷ ids) h in (known, fresh.0))
      split (err e) h = inl (e, while_open _ db opened ∙ rw (some_ids, h))
      split fault h = cc (ap faults h, check_erases_safe db [] (id ∷ ids))
