-- ===== src/ScanFilter/Rows.antt =====
-- What a filter answers on a row, and that its bytes give the same answer.
use xdl.Prelude.{
  ℕ, suc, ◌+◌, ◌≡◌, ◌≢◌, ◌∙◌, sym, refl, ap, Bool, true, false, ◌&&◌, Option, none, some, List, [],
  ◌∷◌, ◌++◌, ok, get_elem?, length, drop, All, ◌==◌, bytes_eq, bytes_eq_iff, if◌then◌else◌, arith,
  Bool-cases, inl, inr, ◌⊎◌,
}
use xdl.Bytes.{write_u32}
use xdl.Schema.{FieldDef, Schema, field_index, field_index_from}
use xdl.Schema.Laws.{Distinct}
use xdl.Row.{FieldValue, Row}
use xdl.RowCodec.{write_row}
use xdl.RowCodec.Fields.{FieldFits}
use xdl.RowCodec.RoundTrip.{FieldsFit}
use xdl.ScanFilter.{
  FieldConstraint, Constraint, find_constraint, check_at, matches, raw_loop, matches_raw,
}
use xdl.ScanFilter.Agreement.{accepts, check_value_lem, fields_accept, raw_loop_lem}

-- The value of the field of a name.
unfoldable pub value_at : List ℕ → List FieldDef → List FieldValue → Option FieldValue
value_at name (d ∷ ds) (v ∷ vs) = if bytes_eq d.name name then some v else value_at name ds vs
value_at name _ _ = none

bytes_eq_swap : (a b : List ℕ) → bytes_eq a b ≡ bytes_eq b a
bytes_eq_swap a b = elim (Bool-cases (bytes_eq b a)) [
  | inl same ↦ rw same ((bytes_eq_iff a b).1 (sym ((bytes_eq_iff b a).0 same)))
  | inr differ ↦ rw differ (elim (Bool-cases (bytes_eq a b)) [
    | inl again ↦ absurd (
        let e : bytes_eq b a ≡ true = (bytes_eq_iff b a).1 (sym ((bytes_eq_iff a b).0 again)) in
        ground arith)
    | inr apart ↦ apart
  ])
]

value_at-none :
    (name : List ℕ) (ds : List FieldDef) (vs : List FieldValue)
    → All (λ (g : FieldDef). name ≢ g.name) ds
    → value_at name ds vs ≡ none
unfolding value_at
value_at-none name [] vs h = refl
value_at-none name (d ∷ ds) [] h = refl
value_at-none name (d ∷ ds) (v ∷ vs) h = elim (Bool-cases (bytes_eq d.name name)) [
  | inl same ↦ absurd (h.0 (sym ((bytes_eq_iff d.name name).0 same)))
  | inr differ ↦ rw differ (value_at-none name ds vs h.1)
]

-- The keys of the map, each once.
abbrev pub DistinctKeys : List Constraint → Type 0
DistinctKeys [] = Unit
DistinctKeys (k ∷ ks) = (find_constraint k.field ks ≡ none) × DistinctKeys ks

record Located (name : List ℕ) (k : ℕ) (ds : List FieldDef) (vs : List FieldValue) : Type 0 where
  at : ℕ
  def : FieldDef
  value : FieldValue
  index : field_index_from k ds name ≡ some (k + at)
  def_at : get_elem? ds at ≡ some def
  value_at_index : get_elem? vs at ≡ some value
  found : value_at name ds vs ≡ some value
  fits : FieldFits def.type value

locate :
    (name : List ℕ) (k : ℕ) (ds : List FieldDef) (vs : List FieldValue)
    → FieldsFit ds vs
    → ((field_index_from k ds name ≡ none) × (value_at name ds vs ≡ none)) ⊎ Located name k ds vs
unfolding field_index_from value_at
locate name k [] [] h = inl (refl, refl)
locate name k (d ∷ ds) (v ∷ vs) h = elim (Bool-cases (bytes_eq d.name name)) [
  | inl same ↦ inr (record {
    at = 0;
    def = d;
    value = v;
    index = rw same (ap some (omega arith));
    def_at = refl;
    value_at_index = refl;
    found = rw same;
    fits = h.0;
  })
  | inr differ ↦ elim (locate name (suc k) ds vs h.1) [
    | inl (a, b) ↦ inl (rw (differ, a), rw (differ, b))
    | inr l ↦ inr (record {
      at = suc l.at;
      def = l.def;
      value = l.value;
      index = rw (differ, l.index) (ap some (omega arith));
      def_at = l.def_at;
      value_at_index = l.value_at_index;
      found = rw (differ, l.found);
      fits = l.fits;
    })
  ]
]
locate name k [] (v ∷ vs) h = absurd h
locate name k (d ∷ ds) [] h = absurd h

module _ (float_ne float_lt : ℕ → ℕ → Bool) where
  abbrev pub value_accepts : FieldConstraint → Option FieldValue → Bool
  value_accepts c none = true
  value_accepts c (some v) = accepts float_ne float_lt c v

  -- The answer of the loop over the constraints.
  unfoldable pub all_accept : List Constraint → List FieldDef → List FieldValue → Bool
  all_accept [] ds vs = true
  all_accept (k ∷ ks) ds vs = value_accepts k.on (value_at k.field ds vs) && all_accept ks ds vs

  check_at_lem :
      (c : FieldConstraint) (name : List ℕ) (r : Row) (s : Schema)
      → FieldsFit s.fields r.fields
      → check_at float_ne float_lt c r s (field_index s name)
        ≡ ok (value_accepts c (value_at name s.fields r.fields))
  unfolding field_index
  check_at_lem c name r s h = elim (locate name 0 s.fields r.fields h) [
    | inl (a, b) ↦ rw (a, b)
    | inr l ↦
        let place : field_index_from 0 s.fields name ≡ some l.at =
          l.index ∙ ap some (omega arith) in
        rw (place, l.found, l.value_at_index, l.def_at)
          (check_value_lem float_ne float_lt c l.def.type l.value l.fits)
  ]

  matches_lem :
      (ks : List Constraint) (r : Row) (s : Schema)
      → FieldsFit s.fields r.fields
      → matches float_ne float_lt ks r s ≡ ok (all_accept ks s.fields r.fields)
  unfolding matches all_accept
  matches_lem [] r s h = refl
  matches_lem (k ∷ ks) r s h =
      rw (check_at_lem k.on k.field r s h, matches_lem ks r s h)
        (both (value_accepts k.on (value_at k.field s.fields r.fields))
          (all_accept ks s.fields r.fields))
    where
      both : (x y : Bool) → (if x then ok y else ok false) ≡ ok (x && y)
      both true y = refl
      both false y = refl

  bound_accepts : Option FieldConstraint → FieldValue → Bool
  bound_accepts none v = true
  bound_accepts (some c) v = accepts float_ne float_lt c v

  and_swap : (x y z : Bool) → (x && (y && z)) ≡ (y && (x && z))
  and_swap true y z = refl
  and_swap false true z = refl
  and_swap false false z = refl

  -- The first field's share of the answer.
  first_field :
      (ks : List Constraint) (d : FieldDef) (ds : List FieldDef) (v : FieldValue)
      (vs : List FieldValue)
      → value_at d.name ds vs ≡ none
      → DistinctKeys ks
      → all_accept ks (d ∷ ds) (v ∷ vs)
        ≡ (bound_accepts (find_constraint d.name ks) v && all_accept ks ds vs)
  unfolding all_accept value_at bound_accepts
  first_field [] d ds v vs new keys = refl
  first_field (k ∷ ks) d ds v vs new keys = elim (Bool-cases (bytes_eq d.name k.field)) [
    | inl same ↦
        let e : k.field ≡ d.name = sym ((bytes_eq_iff d.name k.field).0 same) in
        let unbound : find_constraint d.name ks ≡ none =
          ap (λ (n : List ℕ). find_constraint n ks) (sym e) ∙ keys.0 in
        let absent : value_at k.field ds vs ≡ none =
          ap (λ (n : List ℕ). value_at n ds vs) e ∙ new in
        rw (
          same,
          bytes_eq_swap k.field d.name,
          same,
          absent,
          first_field ks d ds v vs new keys.1,
          unbound,
        )
    | inr differ ↦
        rw (differ, bytes_eq_swap k.field d.name, differ, first_field ks d ds v vs new keys.1)
          (and_swap (value_accepts k.on (value_at k.field ds vs))
            (bound_accepts (find_constraint d.name ks) v) (all_accept ks ds vs))
  ]

  nothing_there : (ks : List Constraint) → all_accept ks [] [] ≡ true
  unfolding all_accept value_at
  nothing_there [] = refl
  nothing_there (k ∷ ks) = nothing_there ks

  -- Going through the constraints gives the answer of going through the fields.
  all_accept-fields_accept :
      (ks : List Constraint) (ds : List FieldDef) (vs : List FieldValue)
      → FieldsFit ds vs
      → Distinct ds
      → DistinctKeys ks
      → all_accept ks ds vs ≡ fields_accept float_ne float_lt ks ds vs
  unfolding fields_accept
  all_accept-fields_accept ks [] [] h d keys = nothing_there ks
  all_accept-fields_accept ks (f ∷ ds) (v ∷ vs) h d keys =
      first_field ks f ds v vs (value_at-none f.name ds vs d.0) keys
      ∙ rw (all_accept-fields_accept ks ds vs h.1 d.1 keys) (share (find_constraint f.name ks))
    where
      share :
          (o : Option FieldConstraint)
          → (bound_accepts o v && fields_accept float_ne float_lt ks ds vs) ≡ (
              elim o [ none ↦ true | some c ↦ accepts float_ne float_lt c v ]
              && fields_accept float_ne float_lt ks ds vs)
      share none = unfold bound_accepts in refl
      share (some c) = unfold bound_accepts in refl
  all_accept-fields_accept ks [] (v ∷ vs) h d keys = absurd h
  all_accept-fields_accept ks (f ∷ ds) [] h d keys = absurd h

  no_constraint :
      (ks : List Constraint) (ds : List FieldDef) (vs : List FieldValue)
      → (length ks == 0) ≡ true
      → all_accept ks ds vs ≡ true
  unfolding all_accept
  no_constraint [] ds vs h = refl
  no_constraint (k ∷ ks) ds vs h = absurd (ground arith)

  -- If the fields of the schema have distinct names, the filter has at most one constraint for a name,
  -- and the fields of the row fit those of the schema: the row is serialised, and on its bytes,
  -- whatever follows them, `matches_raw` answers as `matches` does on the row; neither throws.
  pub matches_raw-matches :
      (ks : List Constraint) (r : Row) (s : Schema) (total : ℕ)
      → FieldsFit s.fields r.fields
      → Distinct s.fields
      → DistinctKeys ks
      → (bs : List ℕ) × (answer : Bool) × (write_row total r s ≡ ok bs)
        × (matches float_ne float_lt ks r s ≡ ok answer)
        × ((rest : List ℕ) → matches_raw float_ne float_lt ks (bs ++ rest) s ≡ ok answer)
  unfolding write_row matches_raw
  matches_raw-matches ks r s total h d keys =
      let (body, written, raw) = raw_loop_lem float_ne float_lt ks s.fields r.fields h in
      let same = all_accept-fields_accept ks s.fields r.fields h d keys in
      (
        write_u32 total ++ (write_u32 r.id ++ body),
        all_accept ks s.fields r.fields,
        rw written,
        matches_lem ks r s h,
        λ rest. raw_answer body rest (raw rest ∙ ap ok (sym same)),
      )
    where
      bytes : List ℕ → List ℕ
      bytes body = write_u32 total ++ (write_u32 r.id ++ body)

      behind_header : (body rest : List ℕ) → drop 8 (bytes body ++ rest) ≡ body ++ rest
      behind_header body rest = unfold write_u32 in refl

      raw_answer :
          (body rest : List ℕ)
          → raw_loop float_ne float_lt ks s.fields (body ++ rest)
            ≡ ok (all_accept ks s.fields r.fields)
          → matches_raw float_ne float_lt ks (bytes body ++ rest) s
            ≡ ok (all_accept ks s.fields r.fields)
      raw_answer body rest e = elim (Bool-cases (length ks == 0)) [
        | inl empty ↦ rw (empty, no_constraint ks s.fields r.fields empty)
        | inr some_constraint ↦ rw (some_constraint, behind_header body rest) e
      ]
