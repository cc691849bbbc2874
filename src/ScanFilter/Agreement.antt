-- ===== src/ScanFilter/Agreement.antt =====
-- A filter gives the same answer on a row and on its bytes.
use xdl.Prelude.{
  ℕ, ◌≡◌, refl, ap, Bool, true, false, not, ◌&&◌, ◌||◌, ◌∙◌, Option, length, take, ltb, bytes_eq,
  none, some, List, [], ◌∷◌, ◌++◌, Result, ok, err, fault, drop, append_assoc, ◌==◌, if◌then◌else◌,
  ◌>>=◌, arith, Option-cases, inl, inr,
}
use xdl.Bytes.{read_u8, read_u16, read_u32, read_u64}
use xdl.Schema.{FieldType, FieldDef}
use xdl.Row.{FieldValue}
use xdl.RowCodec.{read_bytes, read_field, write_fields}
use xdl.RowCodec.Fields.{FieldFits, fits-Codes}
use xdl.RowCodec.RoundTrip.{FieldsFit}
use xdl.ScanFilter.{
  FieldConstraint, Constraint, find_constraint, skip_field, passes_uint, passes_int64, passes_float,
  passes_bool, passes_string, raw_passes_uint, raw_passes_int64, raw_passes_float, raw_passes_bool,
  raw_passes_string, refuses, int64_lt, bool_ne, check_value, check_raw, raw_loop,
}

-- A chain of `return false` on three tests.
three :
    (a b c : Bool)
    → (if a then false else if b then false else if c then false else true) ≡ not (a || (b || c))
three true b c = refl
three false true c = refl
three false false true = refl
three false false false = refl

-- Two tests under one bound.
shared :
    (o : Option (List ℕ)) (p q : List ℕ → Bool)
    → (refuses o p || refuses o q) ≡ refuses o (λ x. p x || q x)
shared none p q = refl
shared (some x) p q = refl

module _ (float_ne float_lt : ℕ → ℕ → Bool) where
  -- Does the constraint accept the value?
  abbrev pub accepts : FieldConstraint → FieldValue → Bool
  accepts c (FieldValue.uint32 v) = passes_uint float_ne float_lt c v
  accepts c (FieldValue.int64 v) = passes_int64 float_ne float_lt c v
  accepts c (FieldValue.float32 v) = passes_float float_ne float_lt c v
  accepts c (FieldValue.bool v) = passes_bool float_ne float_lt c v
  accepts c (FieldValue.string v) = passes_string float_ne float_lt c v

  pub check_value_lem :
      (c : FieldConstraint) (t : FieldType) (v : FieldValue)
      → FieldFits t v
      → check_value float_ne float_lt c t v ≡ ok (accepts c v)
  unfolding check_value
  check_value_lem c FieldType.uint32 (FieldValue.uint32 v) h = refl
  check_value_lem c FieldType.int64 (FieldValue.int64 v) h = refl
  check_value_lem c FieldType.float32 (FieldValue.float32 v) h = refl
  check_value_lem c FieldType.bool (FieldValue.bool v) h = refl
  check_value_lem c FieldType.string (FieldValue.string v) h = refl
  check_value_lem c _ _ h = absurd (ground arith)

  module _ (c : FieldConstraint) (v : FieldValue) (rest : List ℕ) where
    -- A field that one reader reads.
    one_read :
        (r : Result ℕ) (f : ℕ → FieldValue) (tail : List ℕ)
        → ◌≡◌ {A = Result (List FieldValue × List ℕ)}
            (◌>>=◌ {B = List FieldValue × List ℕ} r (λ n. ok (f n ∷ [], tail)))
            (ok (v ∷ [], rest))
        → ((r >>= λ n. ok (accepts c (f n))) ≡ ok (accepts c v)) × (tail ≡ rest)
    one_read (ok n) f tail e =
        let same : f n ≡ v = cc in (ap (λ (x : FieldValue). ok (accepts c x)) same, cc)
    one_read (err x) f tail e = cc
    one_read fault f tail e = cc

    text_read :
        (r : Result ℕ) (s : ℕ → Result (List ℕ)) (tail : ℕ → List ℕ)
        → ◌≡◌ {A = Result (List FieldValue × List ℕ)}
            (◌>>=◌ {B = List FieldValue × List ℕ} r (λ n.
              ◌>>=◌ {B = List FieldValue × List ℕ}
                (s n)
                (λ t. ok (FieldValue.string t ∷ [], tail n))))
            (ok (v ∷ [], rest))
        → ((r >>= λ n. s n >>= λ t. ok (accepts c (FieldValue.string t))) ≡ ok (accepts c v))
          × ((r >>= λ n. ok (tail n)) ≡ ok rest)
    text_read (ok n) s tail e = inner (s n) e
      where
        inner :
            (q : Result (List ℕ))
            → ◌≡◌ {A = Result (List FieldValue × List ℕ)}
                (◌>>=◌ {B = List FieldValue × List ℕ} q
                  (λ t. ok (FieldValue.string t ∷ [], tail n)))
                (ok (v ∷ [], rest))
            → ((q >>= λ t. ok (accepts c (FieldValue.string t))) ≡ ok (accepts c v))
              × (◌≡◌ {A = Result (List ℕ)} (ok (tail n)) (ok rest))
        inner (ok t) d =
            let same : FieldValue.string t ≡ v = cc in
            (ap (λ (x : FieldValue). ok (accepts c x)) same, cc)
        inner (err x) d = cc
        inner fault d = cc
    text_read (err x) s tail e = cc
    text_read fault s tail e = cc

  -- The tests that are written twice agree.
  raw_uint :
      (c : FieldConstraint) (v : ℕ)
      → raw_passes_uint float_ne float_lt c v ≡ passes_uint float_ne float_lt c v
  unfolding raw_passes_uint passes_uint
  raw_uint c v =
      three (refuses c.eq_uint (λ x. not (v == x))) (refuses c.min_uint (ltb v))
        (refuses c.max_uint (λ x. ltb x v))

  raw_int64 :
      (c : FieldConstraint) (v : ℕ)
      → raw_passes_int64 float_ne float_lt c v ≡ passes_int64 float_ne float_lt c v
  unfolding raw_passes_int64 passes_int64
  raw_int64 c v =
      three (refuses c.eq_int64 (λ x. not (v == x))) (refuses c.min_int64 (int64_lt v))
        (refuses c.max_int64 (λ x. int64_lt x v))

  raw_float :
      (c : FieldConstraint) (v : ℕ)
      → raw_passes_float float_ne float_lt c v ≡ passes_float float_ne float_lt c v
  unfolding raw_passes_float passes_float
  raw_float c v =
      three (refuses c.eq_float (float_ne v)) (refuses c.min_float (float_lt v))
        (refuses c.max_float (λ x. float_lt x v))

  raw_bool :
      (c : FieldConstraint) (v : Bool)
      → raw_passes_bool float_ne float_lt c v ≡ passes_bool float_ne float_lt c v
  unfolding raw_passes_bool passes_bool
  raw_bool c v = one (refuses c.eq_bool (bool_ne v))
    where
      one : (a : Bool) → (if a then false else true) ≡ not a
      one true = refl
      one false = refl

  raw_string :
      (c : FieldConstraint) (s : List ℕ)
      → raw_passes_string float_ne float_lt c s ≡ passes_string float_ne float_lt c s
  unfolding raw_passes_string passes_string
  raw_string c s =
      three (refuses c.eq_str (λ x. not (bytes_eq s x)))
        (refuses c.prefix (λ x. ltb (length s) (length x)))
        (refuses c.prefix (λ x. not (bytes_eq (take (length x) s) x)))
      ∙ ap (λ (b : Bool). not (refuses c.eq_str (λ x. not (bytes_eq s x)) || b))
          (shared c.prefix (λ x. ltb (length s) (length x))
            (λ x. not (bytes_eq (take (length x) s) x)))

  -- The check of the bytes and the skip behind them, from what `read_field` reads.
  raw_field :
      (c : FieldConstraint) (t : FieldType) (v : FieldValue) (src rest : List ℕ)
      → read_field t src ≡ ok (v ∷ [], rest)
      → (check_raw float_ne float_lt c t src ≡ ok (accepts c v)) × (skip_field src t ≡ ok rest)
  unfolding read_field check_raw skip_field
  raw_field c FieldType.uint32 v src rest e =
      let (a, b) = one_read c v rest (read_u32 src) FieldValue.uint32 (drop 4 src) e in
      ((λ i. read_u32 src >>= λ n. ok (raw_uint c n i)) ∙ a, ap ok b)
  raw_field c FieldType.int64 v src rest e =
      let (a, b) = one_read c v rest (read_u64 src) FieldValue.int64 (drop 8 src) e in
      ((λ i. read_u64 src >>= λ n. ok (raw_int64 c n i)) ∙ a, ap ok b)
  raw_field c FieldType.float32 v src rest e =
      let (a, b) = one_read c v rest (read_u32 src) FieldValue.float32 (drop 4 src) e in
      ((λ i. read_u32 src >>= λ n. ok (raw_float c n i)) ∙ a, ap ok b)
  raw_field c FieldType.bool v src rest e =
      let (a, b) =
        one_read c v rest (read_u8 src) (λ n. FieldValue.bool (not (n == 0))) (drop 1 src) e in
      ((λ i. read_u8 src >>= λ n. ok (raw_bool c (not (n == 0)) i)) ∙ a, ap ok b)
  raw_field c FieldType.string v src rest e =
      let (a, b) =
        text_read c v rest (read_u16 src) (λ n. read_bytes n (drop 2 src))
          (λ n. drop n (drop 2 src)) e in
      ((λ i. read_u16 src >>= λ n. read_bytes n (drop 2 src) >>= λ t. ok (raw_string c t i)) ∙ a, b)
  raw_field c (FieldType.unknown n) v src rest e = cc

  -- The answer of the loop over the fields.
  unfoldable pub fields_accept : List Constraint → List FieldDef → List FieldValue → Bool
  fields_accept ks (d ∷ ds) (v ∷ vs) =
      elim (find_constraint d.name ks) [ none ↦ true | some c ↦ accepts c v ]
      && fields_accept ks ds vs
  fields_accept ks _ _ = true

  pub raw_loop_lem :
      (ks : List Constraint) (ds : List FieldDef) (vs : List FieldValue)
      → FieldsFit ds vs
      → (bs : List ℕ) × (write_fields ds vs ≡ ok bs)
        × ((rest : List ℕ)
            → raw_loop float_ne float_lt ks ds (bs ++ rest) ≡ ok (fields_accept ks ds vs))
  unfolding raw_loop fields_accept write_fields
  raw_loop_lem ks [] [] h = ([], refl, λ rest. refl)
  raw_loop_lem ks (d ∷ ds) (v ∷ vs) h =
      let (b, code) = fits-Codes d.type v h.0 in
      let (bs, written, answer) = raw_loop_lem ks ds vs h.1 in
      (
        b ++ bs,
        rw (code.written, written),
        λ rest. rw (append_assoc b bs rest) (elim (Option-cases (find_constraint d.name ks)) [
          | inl free ↦
              let f : FieldConstraint = record {
                eq_uint = none;
                eq_str = none;
                eq_float = none;
                eq_bool = none;
                eq_int64 = none;
                min_uint = none;
                max_uint = none;
                min_int64 = none;
                max_int64 = none;
                min_float = none;
                max_float = none;
                prefix = none;
              } in
              let (_, skipped) =
                raw_field f d.type v (b ++ (bs ++ rest)) (bs ++ rest) (code.read (bs ++ rest)) in
              rw (free, skipped, answer rest)
          | inr (c, bound) ↦
              let (checked_c, skipped) =
                raw_field c d.type v (b ++ (bs ++ rest)) (bs ++ rest) (code.read (bs ++ rest)) in
              rw (bound, checked_c, skipped, answer rest)
                (both (accepts c v) (fields_accept ks ds vs))
        ]),
      )
    where
      both : (x y : Bool) → (if x then ok y else ok false) ≡ ok (x && y)
      both true y = refl
      both false y = refl
  raw_loop_lem ks [] (v ∷ vs) h = absurd h
  raw_loop_lem ks (d ∷ ds) [] h = absurd h
