-- ===== src/SchemaCodec/Safety.antt =====
-- Reading a schema block never leaves its bytes.
use xdl.Prelude.{
  ℕ, zero, suc, ◌+◌, ◌≤◌, ◌≡◌, refl, ap, some, List, [], ◌∷◌, ◌||◌, Result, ok, err, fault,
  corruption, length, drop, ltb, le→leb, ◌==◌, if◌then◌else◌, ◌>>=◌, arith, Bool-cases, inl, inr,
}
use xdl.Bytes.{read_u8, read_u16, read_u32, read_le, with_low}
use xdl.Schema.{FieldDef, Schema}
use xdl.RowCodec.{read_bytes}
use xdl.SchemaCodec.{
  type_of_code, take_u32, take_u16, deserialise_field, deserialise_fields, deserialise_schema,
}

read_le_inside : (n : ℕ) (src : List ℕ) → n ≤ length src → (v : ℕ) × (read_le n src ≡ some v)
unfolding read_le
read_le_inside zero src h = (0, refl)
read_le_inside (suc n) [] h = absurd (omega arith)
read_le_inside (suc n) (b ∷ src) h =
    let (v, e) = read_le_inside n src (omega arith) in (_, ap (with_low b) e)

-- Not undefined behaviour: the function returned or threw.
abbrev pub IsSafe {ℓ} : {A : Type ℓ} → Result A → Type 0
IsSafe fault = ⊥
IsSafe _ = Unit

bind-IsSafe {ℓ κ} :
    {A : Type ℓ} {B : Type κ} (r : Result A) (k : A → Result B)
    → IsSafe r
    → ((a : A) → IsSafe (k a))
    → IsSafe (r >>= k)
bind-IsSafe (ok a) k h g = g a
bind-IsSafe (err e) k h g = tt
bind-IsSafe fault k h g = absurd h

read_u32-IsSafe : (src : List ℕ) → 4 ≤ length src → IsSafe (read_u32 src)
unfolding read_u32
read_u32-IsSafe src h = let (v, e) = read_le_inside 4 src h in rw e tt

read_u16-IsSafe : (src : List ℕ) → 2 ≤ length src → IsSafe (read_u16 src)
unfolding read_u16
read_u16-IsSafe src h = let (v, e) = read_le_inside 2 src h in rw e tt

read_u8-IsSafe : (src : List ℕ) → 1 ≤ length src → IsSafe (read_u8 src)
unfolding read_u8
read_u8-IsSafe src h = let (v, e) = read_le_inside 1 src h in rw e tt

read_bytes-IsSafe : (n : ℕ) (src : List ℕ) → n ≤ length src → IsSafe (read_bytes n src)
unfolding read_bytes
read_bytes-IsSafe n src h = rw (le→leb n (length src) h) tt

take_u32-IsSafe : (src : List ℕ) → IsSafe (take_u32 src)
unfolding take_u32
take_u32-IsSafe src = elim (Bool-cases (ltb (length src) 4)) [
  | inl short ↦ rw short tt
  | inr enough ↦
      rw enough (bind-IsSafe (read_u32 src) _ (read_u32-IsSafe src (ground arith)) (λ v. tt))
]

take_u16-IsSafe : (src : List ℕ) → IsSafe (take_u16 src)
unfolding take_u16
take_u16-IsSafe src = elim (Bool-cases (ltb (length src) 2)) [
  | inl short ↦ rw short tt
  | inr enough ↦
      rw enough (bind-IsSafe (read_u16 src) _ (read_u16-IsSafe src (ground arith)) (λ v. tt))
]

length-drop-gt : (n : ℕ) (src : List ℕ) → n + 1 ≤ length src → 1 ≤ length (drop n src)
length-drop-gt zero src h = omega arith
length-drop-gt (suc n) [] h = absurd (omega arith)
length-drop-gt (suc n) (b ∷ src) h = length-drop-gt n src (omega arith)

deserialise_field-IsSafe : (src : List ℕ) → IsSafe (deserialise_field src)
unfolding deserialise_field
deserialise_field-IsSafe src =
    bind-IsSafe (take_u16 src) _ (take_u16-IsSafe src) (λ p. body p.0 p.1)
  where
    body :
        (nlen : ℕ) (src' : List ℕ)
        → IsSafe {A = FieldDef × List ℕ} (
            if ltb (length src') (nlen + 1) then err corruption else do
              name ← read_bytes nlen src'
              code ← read_u8 (drop nlen src')
              ok (record { name = name; type = type_of_code code }, drop 1 (drop nlen src')))
    body nlen src' = elim (Bool-cases (ltb (length src') (nlen + 1))) [
      | inl short ↦ rw short tt
      | inr enough ↦
          let inside : nlen + 1 ≤ length src' = ground arith in
          rw enough (
            bind-IsSafe (read_bytes nlen src') _ (read_bytes-IsSafe nlen src' (omega arith))
              (λ name.
                bind-IsSafe (read_u8 (drop nlen src')) _
                  (read_u8-IsSafe (drop nlen src') (length-drop-gt nlen src' inside)) (λ code. tt)))
    ]

deserialise_fields-IsSafe : (n : ℕ) (src : List ℕ) → IsSafe (deserialise_fields n src)
unfolding deserialise_fields
deserialise_fields-IsSafe zero src = tt
deserialise_fields-IsSafe (suc n) src =
    bind-IsSafe (deserialise_field src) _ (deserialise_field-IsSafe src)
      (λ p. bind-IsSafe (deserialise_fields n p.1) _ (deserialise_fields-IsSafe n p.1) (λ fs. tt))

-- Whatever the bytes are, `deserialise_schema` reads none outside them: it returns a schema or
-- throws.
pub deserialise_schema-IsSafe : (src : List ℕ) → IsSafe (deserialise_schema src)
unfolding deserialise_schema
deserialise_schema-IsSafe src =
    bind-IsSafe (take_u32 src) _ (take_u32-IsSafe src)
      (λ p. bind-IsSafe (take_u32 p.1) _ (take_u32-IsSafe p.1) (λ q. body p.0 q.0 q.1))
  where
    body :
        (ver count : ℕ) (rest : List ℕ)
        → IsSafe {A = Schema} (
            if (count == 0) || ltb 1024 count then err corruption else do
              fields ← deserialise_fields count rest
              ok (record { fields = fields; version = ver }))
    body ver count rest = elim (Bool-cases ((count == 0) || ltb 1024 count)) [
      | inl bad ↦ rw bad tt
      | inr good ↦ rw good (
          bind-IsSafe (deserialise_fields count rest) _ (deserialise_fields-IsSafe count rest)
            (λ fs. tt))
    ]
