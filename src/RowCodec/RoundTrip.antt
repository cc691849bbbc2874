-- ===== src/RowCodec/RoundTrip.antt =====
-- Whole rows: the computed size is the length of what is written, and the row is read back.
use xdl.Prelude.{
  ℕ, ◌+◌, ◌*◌, ◌%◌, ◌^◌, ◌≤◌, ◌<◌, ◌≡◌, refl, ap, List, [], ◌∷◌, ◌++◌, ok, length, length-append,
  drop, append_assoc, arith,
}
use xdl.Bytes.{write_u32, read_u32}
use xdl.Bytes.Laws.{read_u32-write_u32}
use xdl.Schema.{FieldDef, Schema}
use xdl.Row.{FieldValue, Row}
use xdl.RowCodec.{size_loop, row_byte_size, write_fields, write_row, read_fields, read_row}
use xdl.RowCodec.Fields.{FieldFits, Codes, fits-Codes}

-- The values of a row, one for each field of the schema, of its type and in its range.
abbrev pub FieldsFit : List FieldDef → List FieldValue → Type 0
FieldsFit [] [] = Unit
FieldsFit (d ∷ ds) (v ∷ vs) = FieldFits d.type v × FieldsFit ds vs
FieldsFit _ _ = ⊥

-- A schema of at most 1024 fields, which is what `deserialise_schema` accepts, is small enough for
-- the sizes of rows not to wrap.
pub record RowFits (s : Schema) (r : Row) : Type 0 where
  pub small : length s.fields ≤ 1024
  pub id_fits : r.id < 2 ^ 32
  pub fields_fit : FieldsFit s.fields r.fields

pub record BodyCodes (ds : List FieldDef) (vs : List FieldValue) (bs : List ℕ) : Type 0 where
  pub written : write_fields ds vs ≡ ok bs
  pub sized : (sz : ℕ) → sz + length bs < 2 ^ 32 → size_loop sz ds vs ≡ ok (sz + length bs)
  pub bounded : length bs ≤ 65537 * length ds
  pub read : (rest : List ℕ) → read_fields ds (bs ++ rest) ≡ ok vs

body_nil : BodyCodes [] [] []
unfolding write_fields size_loop read_fields
body_nil = record {
  written = refl;
  sized = λ sz h. ap ok (omega arith);
  bounded = omega arith;
  read = λ rest. refl;
}

module _ (d : FieldDef) (ds : List FieldDef) (v : FieldValue) (vs : List FieldValue)
    {bs body : List ℕ} where
  body_cons : Codes d.type v bs → BodyCodes ds vs body → BodyCodes (d ∷ ds) (v ∷ vs) (bs ++ body)
  unfolding write_fields size_loop read_fields
  body_cons c b = record {
    written = rw (c.written, b.written);
    sized = λ sz h. rw c.sized (grow sz h);
    bounded = omega (arith, length-append bs body, c.bounded, b.bounded);
    read = λ rest. rw (append_assoc bs body rest, c.read (body ++ rest), b.read rest);
  }
    where
      total : (sz : ℕ) → sz + length (bs ++ body) ≡ (sz + length bs) + length body
      total sz = omega (arith, length-append bs body)

      grow :
          (sz : ℕ)
          → sz + length (bs ++ body) < 2 ^ 32
          → size_loop ((sz + length bs) % 2 ^ 32) ds vs ≡ ok (sz + length (bs ++ body))
      grow sz h =
          let keep : (sz + length bs) % 2 ^ 32 ≡ sz + length bs = omega (arith, total sz) in
          rw (keep, total sz) (b.sized (sz + length bs) (omega (arith, total sz)))

body_codes :
    (ds : List FieldDef) (vs : List FieldValue)
    → FieldsFit ds vs
    → (bs : List ℕ) × BodyCodes ds vs bs
body_codes [] [] h = ([], body_nil)
body_codes (d ∷ ds) (v ∷ vs) h =
    let (bs, c) = fits-Codes d.type v h.0 in
    let (body, b) = body_codes ds vs h.1 in (bs ++ body, body_cons d ds v vs c b)
body_codes [] (v ∷ vs) h = absurd h
body_codes (d ∷ ds) [] h = absurd h

-- `bs` is the serialised form of `r`.
pub record Image (s : Schema) (r : Row) (bs : List ℕ) : Type 0 where
  pub sized : row_byte_size r s ≡ ok (length bs)
  pub written : write_row (length bs) r s ≡ ok bs
  pub header : (rest : List ℕ) → read_u32 (bs ++ rest) ≡ ok (length bs)
  pub id_word : (rest : List ℕ) → read_u32 (drop 4 (bs ++ rest)) ≡ ok r.id
  pub read : (rest : List ℕ) → read_row (bs ++ rest) s ≡ ok r
  pub low : 8 ≤ length bs
  pub high : length bs < 2 ^ 27

module _ (s : Schema) (r : Row) (h : RowFits s r) {body : List ℕ}
    (b : BodyCodes s.fields r.fields body) where
  image : List ℕ
  image = write_u32 (8 + length body) ++ (write_u32 r.id ++ body)

  small_body : 8 + length body < 2 ^ 27
  small_body = omega (arith, h.small, b.bounded)

  length-image : length image ≡ 8 + length body
  unfolding image write_u32
  length-image = omega arith

  header_read : (rest : List ℕ) → read_u32 (image ++ rest) ≡ ok (8 + length body)
  unfolding image
  header_read rest =
      rw append_assoc (read_u32-write_u32 (8 + length body) _ (omega (arith, small_body)))

  behind_header : (rest : List ℕ) → drop 4 (image ++ rest) ≡ write_u32 r.id ++ (body ++ rest)
  unfolding image write_u32
  behind_header rest = refl

  behind_id : (rest : List ℕ) → drop 4 (write_u32 r.id ++ (body ++ rest)) ≡ body ++ rest
  unfolding write_u32
  behind_id rest = refl

  image_read : (rest : List ℕ) → read_row (image ++ rest) s ≡ ok r
  unfolding read_row
  image_read rest = rw (
    behind_header rest,
    behind_id rest,
    read_u32-write_u32 r.id (body ++ rest) h.id_fits,
    b.read rest,
  )

  image_written : write_row (8 + length body) r s ≡ ok image
  unfolding write_row image
  image_written = rw b.written

  image_sized : row_byte_size r s ≡ ok (8 + length body)
  unfolding row_byte_size
  image_sized = b.sized 8 (omega (arith, small_body))

  image_Image : Image s r image
  image_Image = record {
    sized = rw length-image image_sized;
    written = rw length-image image_written;
    header = λ rest. rw length-image (header_read rest);
    id_word = λ rest. rw behind_header (read_u32-write_u32 r.id (body ++ rest) h.id_fits);
    read = image_read;
    low = omega (arith, length-image);
    high = omega (arith, length-image, small_body);
  }

-- A row that fits its schema has a serialised form: of the computed size, with that size in its
-- first word and the id in its second, and read back as the row whatever follows it.
pub fits-Image : (s : Schema) (r : Row) → RowFits s r → (bs : List ℕ) × Image s r bs
fits-Image s r h =
    let (body, b) = body_codes s.fields r.fields h.fields_fit in
    (image s r h b, image_Image s r h b)
