-- ===== src/WalFormat/Records.antt =====
-- A record that was written is read back, whatever follows it.
use mathlib.Core.List.{foldl}
use xdl.Prelude.{
  ℕ, zero, suc, ◌+◌, ◌-◌, ◌%◌, ◌^◌, ◌<◌, ◌≡◌, ◌∙◌, refl, ap, false, some, List, [], ◌∷◌, ◌++◌,
  length, length-append, take, drop, append_assoc, take-append_self, drop-append_self, ltb,
  le→ltb_false, ==_refl, arith,
}
use xdl.Bytes.{write_u8, write_u32, write_le, read_le}
use xdl.Bytes.Laws.{read_le-write_le}
use xdl.WalFormat.{
  crc_byte, wal_checksum_seed, compute_crc, RecordType, insert, commit, checkpoint, rollback,
  delete, other, type_byte, type_of, WalRecord, record_body, encode_record, word, word_at,
  parse_body, parse_record,
}

crc_lt : (bytes : List ℕ) (crc : ℕ) → crc < 2 ^ 32 → foldl crc_byte crc bytes < 2 ^ 32
crc_lt [] crc h = h
crc_lt (b ∷ bytes) crc h = crc_lt bytes (crc_byte crc b) (unfold crc_byte in omega arith)

compute_crc-lt : (bytes : List ℕ) → compute_crc bytes < 2 ^ 32
unfolding compute_crc
compute_crc-lt bytes = crc_lt bytes wal_checksum_seed (omega arith)

-- The type is one of the enumeration or a byte that no enumerator has.
abbrev pub TypeFits : RecordType → Type 0
TypeFits (other n) = (4 < n) × (n < 256)
TypeFits _ = Unit

-- The numbers are in the ranges of their C++ types, and the length word does not wrap.
pub record RecordFits (r : WalRecord) : Type 0 where
  pub type_fits : TypeFits r.type
  pub row_id_fits : r.row_id < 2 ^ 32
  pub page_id_fits : r.page_id < 2 ^ 32
  pub row_slot_fits : r.row_slot < 2 ^ 32
  pub size_fits : 17 + length r.row_data < 2 ^ 32

type_byte-lt : (t : RecordType) → TypeFits t → type_byte t < 256
type_byte-lt insert h = omega arith
type_byte-lt commit h = omega arith
type_byte-lt checkpoint h = omega arith
type_byte-lt rollback h = omega arith
type_byte-lt delete h = omega arith
type_byte-lt (other n) h = h.1

type_of-type_byte : (t : RecordType) → TypeFits t → type_of (type_byte t) ≡ t
type_of-type_byte insert h = refl
type_of-type_byte commit h = refl
type_of-type_byte checkpoint h = refl
type_of-type_byte rollback h = refl
type_of-type_byte delete h = refl
type_of-type_byte (other zero) h = absurd (omega arith)
type_of-type_byte (other (suc zero)) h = absurd (omega arith)
type_of-type_byte (other (suc (suc zero))) h = absurd (omega arith)
type_of-type_byte (other (suc (suc (suc zero)))) h = absurd (omega arith)
type_of-type_byte (other (suc (suc (suc (suc zero))))) h = absurd (omega arith)
type_of-type_byte (other (suc (suc (suc (suc (suc n)))))) h = refl

abbrev size_of : WalRecord → ℕ
size_of r = 17 + length r.row_data

-- What stands behind the length word.
abbrev tail_of : WalRecord → List ℕ
tail_of r =
    write_u8 (type_byte r.type)
    ++ (write_u32 r.row_id ++ (write_u32 r.page_id ++ (write_u32 r.row_slot ++ r.row_data)))

length_tail : (r : WalRecord) → length (tail_of r) ≡ 13 + length r.row_data
unfolding write_u8 write_u32
length_tail r = omega arith

word_read : (v : ℕ) (rest : List ℕ) → v < 2 ^ 32 → read_le 4 (write_u32 v ++ rest) ≡ some v
unfolding write_u32
word_read v rest h = read_le-write_le 4 v rest (omega arith)

module _ (r : WalRecord) (rest : List ℕ) (h : RecordFits r) where
  from_slot : List ℕ
  from_slot = write_u32 r.row_slot ++ (r.row_data ++ rest)

  from_page : List ℕ
  from_page = write_u32 r.page_id ++ from_slot

  from_row : List ℕ
  from_row = write_u32 r.row_id ++ from_page

  flat : tail_of r ++ rest ≡ write_u8 (type_byte r.type) ++ from_row
  unfolding from_slot from_page from_row
  flat = simp append_assoc

  type_read : type_of (word (read_le 1 (tail_of r ++ rest))) ≡ r.type
  unfolding write_u8 write_le
  type_read =
      ap (λ (l : List ℕ). type_of (word (read_le 1 l))) flat
      ∙ rw byte (type_of-type_byte r.type h.type_fits)
    where
      byte : word (read_le 1 (write_u8 (type_byte r.type) ++ from_row)) ≡ type_byte r.type
      byte =
          ap word (read_le-write_le 1 (type_byte r.type) from_row (type_byte-lt r.type h.type_fits))

  row_id_read : word_at 1 (tail_of r ++ rest) ≡ r.row_id
  unfolding write_u8 from_row
  row_id_read = rw (flat, word_read r.row_id from_page h.row_id_fits)

  page_id_read : word_at 5 (tail_of r ++ rest) ≡ r.page_id
  unfolding write_u8 from_row write_u32 from_page
  page_id_read = ap (word_at 5) flat ∙ (ap word (word_read r.page_id from_slot h.page_id_fits))

  row_slot_read : word_at 9 (tail_of r ++ rest) ≡ r.row_slot
  unfolding write_u8 from_row write_u32 from_page from_slot
  row_slot_read =
      ap (word_at 9) flat ∙ (ap word (word_read r.row_slot (r.row_data ++ rest) h.row_slot_fits))

  row_data_read : take (size_of r - 17) (drop 13 (tail_of r ++ rest)) ≡ r.row_data
  unfolding write_u8 from_row write_u32 from_page from_slot
  row_data_read =
      ap (λ (l : List ℕ). take (size_of r - 17) (drop 13 l)) flat
      ∙ rw len (take-append_self r.row_data rest)
    where
      len : size_of r - 17 ≡ length r.row_data
      len = omega arith

  parse_body-tail : parse_body (size_of r) (tail_of r ++ rest) ≡ r
  unfolding parse_body
  parse_body-tail = λ i. record {
    type = type_read i;
    row_id = row_id_read i;
    page_id = page_id_read i;
    row_slot = row_slot_read i;
    row_data = row_data_read i;
  }

  body : List ℕ
  body = write_u32 (size_of r) ++ tail_of r

  wraps : size_of r % 2 ^ 32 ≡ size_of r
  wraps = omega (arith, h.size_fits)

  encode_record-body : encode_record r ≡ write_u32 (compute_crc body) ++ body
  unfolding encode_record record_body body
  encode_record-body = rw wraps

  pub length-encode_record : length (encode_record r) ≡ 4 + size_of r
  length-encode_record =
      ap length encode_record-body ∙ (unfold body write_u32 in omega (arith, length_tail r))

  behind_crc : drop 4 (encode_record r ++ rest) ≡ body ++ rest
  behind_crc =
      ap (λ (l : List ℕ). drop 4 (l ++ rest)) encode_record-body ∙ (unfold write_u32 in refl)

  behind_length : drop 8 (encode_record r ++ rest) ≡ tail_of r ++ rest
  behind_length =
      ap (λ (l : List ℕ). drop 8 (l ++ rest)) encode_record-body ∙ (unfold write_u32 body in refl)

  stored_crc_read : word_at 0 (encode_record r ++ rest) ≡ compute_crc body
  stored_crc_read =
      ap (λ (l : List ℕ). word_at 0 (l ++ rest)) encode_record-body
      ∙ ap (word_at 0) (append_assoc (write_u32 (compute_crc body)) body rest)
      ∙ ap word (word_read (compute_crc body) (body ++ rest) (compute_crc-lt body))

  pub record_len_read : word_at 4 (encode_record r ++ rest) ≡ size_of r
  record_len_read =
      ap (λ (l : List ℕ). word (read_le 4 l)) (behind_crc ∙ cut)
      ∙ ap word (word_read (size_of r) (tail_of r ++ rest) h.size_fits)
    where
      cut : body ++ rest ≡ write_u32 (size_of r) ++ (tail_of r ++ rest)
      cut = unfold body in append_assoc (write_u32 (size_of r)) (tail_of r) rest

  length-body : length body ≡ size_of r
  unfolding body write_u32
  length-body = omega (arith, length_tail r)

  body_read : take (size_of r) (drop 4 (encode_record r ++ rest)) ≡ body
  body_read = rw (behind_crc, ← length-body) (take-append_self body rest)

  rest_left : drop (size_of r - 4) (tail_of r ++ rest) ≡ rest
  rest_left = rw (← len) (drop-append_self (tail_of r) rest)
    where
      len : length (tail_of r) ≡ size_of r - 4
      len = omega (arith, length_tail r)

  -- One round of the loop of `replay` takes a whole record that `write_record` wrote.
  pub parse_record-encode_record : parse_record (encode_record r ++ rest) ≡ some (r, rest)
  unfolding parse_record
  parse_record-encode_record = rw (
    enough,
    stored_crc_read,
    record_len_read,
    behind_length,
    long,
    fits,
    body_read,
    ==_refl (compute_crc body),
    parse_body-tail,
    rest_left,
  )
    where
      enough : ltb (length (encode_record r ++ rest)) 8 ≡ false
      enough =
          le→ltb_false _ 8
            (omega (arith, length-append (encode_record r) rest, length-encode_record))

      long : ltb (size_of r) 17 ≡ false
      long = le→ltb_false (size_of r) 17 (omega arith)

      fits : ltb (length (tail_of r ++ rest)) (size_of r - 4) ≡ false
      fits =
          le→ltb_false _ (size_of r - 4)
            (omega (arith, length-append (tail_of r) rest, length_tail r))
