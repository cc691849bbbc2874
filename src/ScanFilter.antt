-- ===== src/ScanFilter.antt =====
-- ScanFilter of include/xdl/db.h and src/db.cpp: the constraints of a scan, tested on a row or on
-- its bytes. The comparisons of floats are parameters on their bit patterns.
pub mod Agreement
pub mod Rows
pub mod Setters
use Prim.Native.Nat.{Ordering}
use xdl.Prelude.{
  ℕ, zero, suc, ◌+◌, Bool, true, false, not, ◌||◌, Option, none, some, List, [], ◌∷◌, Result, ok,
  err, checked, defined, get_elem?, length, take, drop, ltb, ◌==◌, bytes_eq, if◌then◌else◌, ◌>>=◌,
}
use xdl.Prelude.Int.{ℤ, pos, negsuc, compare_ℤ}
use xdl.Bytes.{read_u8, read_u16, read_u32, read_u64}
use xdl.Schema.{FieldType, FieldDef, Schema, field_index}
use xdl.Row.{FieldValue, Row, as_uint32, as_string, as_float32, as_bool, as_int64}
use xdl.RowCodec.{read_bytes}
use xdl.Keys.Numbers.{int64_value}

pub record FieldConstraint : Type 0 where
  pub eq_uint : Option ℕ
  pub eq_str : Option (List ℕ)
  pub eq_float : Option ℕ
  pub eq_bool : Option Bool
  pub eq_int64 : Option ℕ
  pub min_uint : Option ℕ
  pub max_uint : Option ℕ
  pub min_int64 : Option ℕ
  pub max_int64 : Option ℕ
  pub min_float : Option ℕ
  pub max_float : Option ℕ
  pub prefix : Option (List ℕ)

-- An entry of the map from field names to constraints.
pub record Constraint : Type 0 where
  pub field : List ℕ
  pub on : FieldConstraint

-- `if (bound && test) return false`.
abbrev pub refuses {ℓ} : {A : Type ℓ} → Option A → (A → Bool) → Bool
refuses none test = false
refuses (some bound) test = test bound

abbrev before : Ordering → Bool
before Ordering.lt = true
before _ = false

abbrev pub int64_lt : ℕ → ℕ → Bool
int64_lt a b = before (compare_ℤ (int64_value a) (int64_value b))

abbrev pub bool_ne : Bool → Bool → Bool
bool_ne true b = not b
bool_ne false b = b

abbrev pub find_constraint : List ℕ → List Constraint → Option FieldConstraint
find_constraint name [] = none
find_constraint name (k ∷ ks) = if bytes_eq k.field name then some k.on else find_constraint name ks

-- The pointer behind a field.
unfoldable pub skip_field : List ℕ → FieldType → Result (List ℕ)
skip_field src FieldType.uint32 = ok (drop 4 src)
skip_field src FieldType.int64 = ok (drop 8 src)
skip_field src FieldType.float32 = ok (drop 4 src)
skip_field src FieldType.bool = ok (drop 1 src)
skip_field src FieldType.string = do len ← read_u16 src; ok (drop len (drop 2 src))
skip_field src (FieldType.unknown _) = ok src

module _ (float_ne float_lt : ℕ → ℕ → Bool) where
  -- The tests of `matches`: does the value pass?
  unfoldable pub passes_uint : FieldConstraint → ℕ → Bool
  passes_uint c v = not (
      refuses c.eq_uint (λ x. not (v == x))
      || (refuses c.min_uint (ltb v) || refuses c.max_uint (λ x. ltb x v)))

  unfoldable pub passes_int64 : FieldConstraint → ℕ → Bool
  passes_int64 c v = not (
      refuses c.eq_int64 (λ x. not (v == x))
      || (refuses c.min_int64 (int64_lt v) || refuses c.max_int64 (λ x. int64_lt x v)))

  unfoldable pub passes_float : FieldConstraint → ℕ → Bool
  passes_float c v = not (
      refuses c.eq_float (float_ne v)
      || (refuses c.min_float (float_lt v) || refuses c.max_float (λ x. float_lt x v)))

  unfoldable pub passes_bool : FieldConstraint → Bool → Bool
  passes_bool c v = not (refuses c.eq_bool (bool_ne v))

  unfoldable pub passes_string : FieldConstraint → List ℕ → Bool
  passes_string c s = not (
      refuses c.eq_str (λ x. not (bytes_eq s x))
      || refuses c.prefix (λ x. ltb (length s) (length x) || not (bytes_eq (take (length x) s) x)))

  -- The tests of `matches_raw`, which are written out a second time there.
  unfoldable pub raw_passes_uint : FieldConstraint → ℕ → Bool
  raw_passes_uint c v =
      if refuses c.eq_uint (λ x. not (v == x))
      then false
      else if refuses c.min_uint (λ x. ltb v x)
      then false
      else if refuses c.max_uint (λ x. ltb x v)
      then false
      else true

  unfoldable pub raw_passes_int64 : FieldConstraint → ℕ → Bool
  raw_passes_int64 c v =
      if refuses c.eq_int64 (λ x. not (v == x))
      then false
      else if refuses c.min_int64 (λ x. int64_lt v x)
      then false
      else if refuses c.max_int64 (λ x. int64_lt x v)
      then false
      else true

  unfoldable pub raw_passes_float : FieldConstraint → ℕ → Bool
  raw_passes_float c v =
      if refuses c.eq_float (λ x. float_ne v x)
      then false
      else if refuses c.min_float (λ x. float_lt v x)
      then false
      else if refuses c.max_float (λ x. float_lt x v)
      then false
      else true

  unfoldable pub raw_passes_bool : FieldConstraint → Bool → Bool
  raw_passes_bool c v = if refuses c.eq_bool (λ x. bool_ne v x) then false else true

  unfoldable pub raw_passes_string : FieldConstraint → List ℕ → Bool
  raw_passes_string c sv =
      if refuses c.eq_str (λ x. not (bytes_eq sv x))
      then false
      else if refuses c.prefix (λ x. ltb (length sv) (length x))
      then false
      else if refuses c.prefix (λ x. not (bytes_eq (take (length x) sv) x))
      then false
      else true

  -- The switch of `matches`.
  unfoldable pub check_value : FieldConstraint → FieldType → FieldValue → Result Bool
  check_value c FieldType.uint32 fv = do v ← as_uint32 fv; ok (passes_uint c v)
  check_value c FieldType.int64 fv = do v ← as_int64 fv; ok (passes_int64 c v)
  check_value c FieldType.float32 fv = do v ← as_float32 fv; ok (passes_float c v)
  check_value c FieldType.bool fv = do v ← as_bool fv; ok (passes_bool c v)
  check_value c FieldType.string fv = do v ← as_string fv; ok (passes_string c v)
  check_value c (FieldType.unknown _) fv = ok true

  -- The switch of `matches_raw`.
  unfoldable pub check_raw : FieldConstraint → FieldType → List ℕ → Result Bool
  check_raw c FieldType.uint32 src = do v ← read_u32 src; ok (raw_passes_uint c v)
  check_raw c FieldType.int64 src = do v ← read_u64 src; ok (raw_passes_int64 c v)
  check_raw c FieldType.float32 src = do v ← read_u32 src; ok (raw_passes_float c v)
  check_raw c FieldType.bool src = do b ← read_u8 src; ok (raw_passes_bool c (not (b == 0)))
  check_raw c FieldType.string src = do
    len ← read_u16 src
    s ← read_bytes len (drop 2 src)
    ok (raw_passes_string c s)
  check_raw c (FieldType.unknown _) src = ok true

  abbrev check_at : FieldConstraint → Row → Schema → Option ℕ → Result Bool
  check_at c row schema none = ok true
  check_at c row schema (some idx) = do
    fv ← checked (get_elem? row.fields idx)
    fd ← defined (get_elem? schema.fields idx)
    check_value c fd.type fv

  unfoldable pub matches : List Constraint → Row → Schema → Result Bool
  matches [] row schema = ok true
  matches (k ∷ ks) row schema =
      let rest = matches ks row schema in
      do
        pass ← check_at k.on row schema (field_index schema k.field)
        if pass then rest else ok false

  abbrev check_found : Option FieldConstraint → FieldType → List ℕ → Result Bool
  check_found none type src = ok true
  check_found (some c) type src = check_raw c type src

  unfoldable pub raw_loop : List Constraint → List FieldDef → List ℕ → Result Bool
  raw_loop constraints [] src = ok true
  raw_loop constraints (fd ∷ fields) src = do
    pass ← check_found (find_constraint fd.name constraints) fd.type src
    if pass then (do src' ← skip_field src fd.type; raw_loop constraints fields src') else ok false

  unfoldable pub matches_raw : List Constraint → List ℕ → Schema → Result Bool
  matches_raw constraints row_data schema =
      if length constraints == 0
      then ok true
      else raw_loop constraints schema.fields (drop 8 row_data)
