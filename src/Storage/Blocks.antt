-- ===== src/Storage/Blocks.antt =====
-- The header, the schema block and the pages in the file.
use xdl.Prelude.{
  ℕ, ◌+◌, ◌≤◌, ◌<◌, ◌≡◌, ◌∙◌, ◌%◌, ◌^◌, sym, refl, ap, false, ◌||◌, some, List, [], ◌++◌, ok,
  length, length-append, drop, ltb, ◌==◌, bind-eq-ok, le→ltb_false, arith, inl, inr, ◌⊎◌,
  append-nil,
}
use xdl.Bytes.{write_le, write_u8, write_u32, read_le}
use xdl.Bytes.Laws.{read_le-write_le}
use xdl.WalFormat.{word, word_at}
use xdl.Schema.{Schema}
use xdl.SchemaCodec.{serialise_schema, deserialise_schema}
use xdl.SchemaCodec.RoundTrip.{SchemaFits, deserialise_schema-serialise_schema}
use xdl.Storage.{
  take_exactly, safe_pread, safe_pwrite, DbHeader, xdl_magic, db_header_bytes, db_header_of,
  PageHeader, page_header_bytes, page_header_of, Storage, read_db_header, write_db_header,
  read_page_raw, overwrite_page_raw, write_schema, read_schema, data_start_offset,
}
use xdl.Storage.Ranges.{
  safe_pread-safe_pwrite, safe_pread_apart, safe_pread_front, safe_pread_back, taken_of_read,
  length_of_read,
}

pub record DbHeaderFits (h : DbHeader) : Type 0 where
  pub magic_is : h.magic ≡ xdl_magic
  pub version_fits : h.version < 2 ^ 32
  pub page_size_fits : h.page_size < 2 ^ 32
  pub page_count_fits : h.page_count < 2 ^ 32
  pub compression_fits : h.compression < 256
  pub pad_fits : h.pad < 2 ^ 24

pub record PageHeaderFits (h : PageHeader) : Type 0 where
  pub page_id_fits : h.page_id < 2 ^ 32
  pub compressed_size_fits : h.compressed_size < 2 ^ 32
  pub uncompressed_size_fits : h.uncompressed_size < 2 ^ 32
  pub row_count_fits : h.row_count < 2 ^ 32
  pub compression_type_fits : h.compression_type < 256
  pub pad_fits : h.pad < 2 ^ 24

word_read : (v : ℕ) (rest : List ℕ) → v < 2 ^ 32 → word_at 0 (write_u32 v ++ rest) ≡ v
unfolding write_u32
word_read v rest h = ap word (read_le-write_le 4 v rest (omega arith))

word_last : (v : ℕ) → v < 2 ^ 32 → word_at 0 (write_u32 v) ≡ v
word_last v h = ap (word_at 0) (sym (append-nil (write_u32 v))) ∙ word_read v [] h

pub length-db_header : (h : DbHeader) → length (db_header_bytes h) ≡ 20
unfolding db_header_bytes write_u32 write_u8 write_le
length-db_header h = refl

pub length-page_header : (h : PageHeader) → length (page_header_bytes h) ≡ 20
unfolding page_header_bytes write_u32 write_u8 write_le
length-page_header h = refl

-- Six words of the two headers, which have the same layout.
module _ (a b c d e f : ℕ) where
  six : List ℕ
  six =
      write_u32 a ++ (write_u32 b ++ (write_u32 c ++ (write_u32 d ++ (write_u8 e ++ write_le 3 f))))

  first : a < 2 ^ 32 → word_at 0 six ≡ a
  unfolding six
  first h =
      word_read a (write_u32 b ++ (write_u32 c ++ (write_u32 d ++ (write_u8 e ++ write_le 3 f)))) h

  second : b < 2 ^ 32 → word_at 4 six ≡ b
  unfolding six write_u32
  second h = word_read b (write_u32 c ++ (write_u32 d ++ (write_u8 e ++ write_le 3 f))) h

  third : c < 2 ^ 32 → word_at 8 six ≡ c
  unfolding six write_u32
  third h = word_read c (write_u32 d ++ (write_u8 e ++ write_le 3 f)) h

  fourth : d < 2 ^ 32 → word_at 12 six ≡ d
  unfolding six write_u32
  fourth h = word_read d (write_u8 e ++ write_le 3 f) h

  fifth : e < 256 → word (read_le 1 (drop 16 six)) ≡ e
  unfolding six write_u32 write_u8
  fifth h = ap word (read_le-write_le 1 e (write_le 3 f) (omega arith))

  sixth : f < 2 ^ 24 → word (read_le 3 (drop 17 six)) ≡ f
  unfolding six write_u32 write_u8 write_le
  sixth h =
      ap word
        (ap (read_le 3) (sym (append-nil (write_le 3 f))) ∙ read_le-write_le 3 f [] (omega arith))

db_header_of-bytes : (h : DbHeader) → DbHeaderFits h → db_header_of (db_header_bytes h) ≡ h
unfolding db_header_of db_header_bytes six
db_header_of-bytes h k = λ i. record {
  magic =
      first h.magic h.version h.page_size h.page_count h.compression h.pad
        (omega (arith, k.magic_is)) i;
  version = second h.magic h.version h.page_size h.page_count h.compression h.pad k.version_fits i;
  page_size =
      third h.magic h.version h.page_size h.page_count h.compression h.pad k.page_size_fits i;
  page_count =
      fourth h.magic h.version h.page_size h.page_count h.compression h.pad k.page_count_fits i;
  compression =
      fifth h.magic h.version h.page_size h.page_count h.compression h.pad k.compression_fits i;
  pad = sixth h.magic h.version h.page_size h.page_count h.compression h.pad k.pad_fits i;
}

page_header_of-bytes :
    (h : PageHeader) → PageHeaderFits h → page_header_of (page_header_bytes h) ≡ h
unfolding page_header_of page_header_bytes six
page_header_of-bytes h k = λ i. record {
  page_id =
      first h.page_id h.compressed_size h.uncompressed_size h.row_count h.compression_type h.pad
        k.page_id_fits i;
  compressed_size =
      second h.page_id h.compressed_size h.uncompressed_size h.row_count h.compression_type h.pad
        k.compressed_size_fits i;
  uncompressed_size =
      third h.page_id h.compressed_size h.uncompressed_size h.row_count h.compression_type h.pad
        k.uncompressed_size_fits i;
  row_count =
      fourth h.page_id h.compressed_size h.uncompressed_size h.row_count h.compression_type h.pad
        k.row_count_fits i;
  compression_type =
      fifth h.page_id h.compressed_size h.uncompressed_size h.row_count h.compression_type h.pad
        k.compression_type_fits i;
  pad =
      sixth h.page_id h.compressed_size h.uncompressed_size h.row_count h.compression_type h.pad
        k.pad_fits i;
}

-- The database header is read back as it was written.
pub read_db_header-write_db_header :
    (s : Storage) (h : DbHeader) → DbHeaderFits h → read_db_header (write_db_header s h) ≡ ok h
unfolding read_db_header write_db_header
read_db_header-write_db_header s h k = rw (
  ← length-db_header h,
  safe_pread-safe_pwrite s.disk (db_header_bytes h) 0 (omega (arith, length-db_header h)),
  db_header_of-bytes h k,
  k.magic_is,
)

module _ (s : Storage) (offset : ℕ) (h : PageHeader) (blob : List ℕ) where
  header_back :
      safe_pread (overwrite_page_raw s offset h blob).disk 20 offset ≡ ok (page_header_bytes h)
  unfolding overwrite_page_raw
  header_back = rw (← length-page_header h) (
      safe_pread_front s.disk (page_header_bytes h) blob offset
        (omega (arith, length-page_header h)))

  blob_back :
      safe_pread (overwrite_page_raw s offset h blob).disk (length blob) (offset + 20) ≡ ok blob
  unfolding overwrite_page_raw
  blob_back = rw (← length-page_header h) (
      safe_pread_back s.disk (page_header_bytes h) blob offset
        (omega (arith, length-page_header h)))

  -- A page that was written is read back, with its header.
  pub read_page_raw-overwrite_page_raw :
      PageHeaderFits h
      → h.compressed_size ≡ length blob
      → read_page_raw (overwrite_page_raw s offset h blob) offset ≡ ok (h, blob)
  unfolding read_page_raw
  read_page_raw-overwrite_page_raw k size = rw (header_back, page_header_of-bytes h k, sized)
    where
      sized :
          safe_pread (overwrite_page_raw s offset h blob).disk h.compressed_size (offset + 20)
          ≡ ok blob
      sized =
          ap (λ (n : ℕ). safe_pread (overwrite_page_raw s offset h blob).disk n (offset + 20)) size
          ∙ blob_back

word_written :
    (disk : List ℕ) (v : ℕ) → safe_pread (safe_pwrite disk (write_u32 v) 20) 4 20 ≡ ok (write_u32 v)
unfolding write_u32 write_le
word_written disk v = safe_pread-safe_pwrite disk (write_u32 v) 20 (omega arith)

-- A page block that lies beside the one that is written is read as before.
pub read_page_raw_apart :
    (s : Storage) (offset other : ℕ) (h g : PageHeader) (blob b : List ℕ)
    → (other + 20 + length b ≤ offset) ⊎ (offset + 20 + length blob ≤ other)
    → read_page_raw s other ≡ ok (g, b)
    → read_page_raw (overwrite_page_raw s offset h blob) other ≡ ok (g, b)
unfolding read_page_raw overwrite_page_raw
read_page_raw_apart s offset other h g blob b apart read =
    let (bytes, front, after) = bind-eq-ok (safe_pread s.disk 20 other) _ read in
    let (b', back, pair) =
      bind-eq-ok (safe_pread s.disk (page_header_of bytes).compressed_size (other + 20)) _ after in
    let same : b' ≡ b = cc in
    let size = length_of_read s.disk (page_header_of bytes).compressed_size (other + 20) b' back in
    rw
      (
        safe_pread_apart s.disk (page_header_bytes h ++ blob) offset 20 other (header_apart apart)
            front,
        safe_pread_apart s.disk (page_header_bytes h ++ blob) offset
            (page_header_of bytes).compressed_size (other + 20)
            (blob_apart (page_header_of bytes).compressed_size (sym size ∙ ap length same) apart)
            back,
      )
      pair
  where
    whole : length (page_header_bytes h ++ blob) ≡ 20 + length blob
    whole = omega (arith, length-append (page_header_bytes h) blob, length-page_header h)

    header_apart :
        (other + 20 + length b ≤ offset) ⊎ (offset + 20 + length blob ≤ other)
        → (other + 20 ≤ offset) ⊎ (offset + length (page_header_bytes h ++ blob) ≤ other)
    header_apart (inl x) = inl (omega arith)
    header_apart (inr x) = inr (omega (arith, whole))

    blob_apart :
        (n : ℕ)
        → n ≡ length b
        → (other + 20 + length b ≤ offset) ⊎ (offset + 20 + length blob ≤ other)
        → (other + 20 + n ≤ offset) ⊎ (offset + length (page_header_bytes h ++ blob) ≤ other + 20)
    blob_apart n e (inl x) = inl (omega arith)
    blob_apart n e (inr x) = inr (omega (arith, whole))

-- After `write_schema` of a schema that has between 1 and 1024 fields, whose names, type codes and
-- version fit their widths, and whose serialised form is at most 65536 bytes long, the schema is read
-- back, and the pages start behind its block.
pub read_schema-write_schema :
    (s : Storage) (schema : Schema)
    → SchemaFits schema
    → length (serialise_schema schema) ≤ 65536
    → (read_schema (write_schema s schema) ≡ ok schema)
      × (data_start_offset (write_schema s schema) ≡ 24 + length (serialise_schema schema))
read_schema-write_schema s schema h small = (
  unfold read_schema in rw (length_back, length_word, accepted, block_back, block_read),
  unfold data_start_offset in rw (taken, length_word, small_enough) (omega arith),
)
  where
    bytes : List ℕ
    bytes = serialise_schema schema

    positive : 0 < length bytes
    positive = unfold serialise_schema write_u32 in omega arith

    disk1 : List ℕ
    disk1 = safe_pwrite s.disk (write_u32 (length bytes % 2 ^ 32)) 20

    length_there : safe_pread disk1 4 20 ≡ ok (write_u32 (length bytes % 2 ^ 32))
    length_there = word_written s.disk (length bytes % 2 ^ 32)

    length_back :
        safe_pread (write_schema s schema).disk 4 20 ≡ ok (write_u32 (length bytes % 2 ^ 32))
    length_back =
        unfold write_schema in safe_pread_apart disk1 bytes 24 4 20 (inl (omega arith)) length_there

    length_word : word_at 0 (write_u32 (length bytes % 2 ^ 32)) ≡ length bytes
    length_word = word_last (length bytes % 2 ^ 32) (omega arith) ∙ omega arith

    small_enough : ltb 65536 (length bytes) ≡ false
    small_enough = le→ltb_false 65536 (length bytes) small

    accepted : ((length bytes == 0) || ltb 65536 (length bytes)) ≡ false
    accepted = ground (arith, positive, small_enough)

    block_back : safe_pread (write_schema s schema).disk (length bytes) 24 ≡ ok bytes
    block_back = unfold write_schema in safe_pread-safe_pwrite disk1 bytes 24 positive

    block_read : deserialise_schema bytes ≡ ok schema
    block_read =
        ap deserialise_schema (sym (append-nil bytes))
        ∙ deserialise_schema-serialise_schema schema [] h

    taken :
        take_exactly 4 (drop 20 (write_schema s schema).disk)
        ≡ some (write_u32 (length bytes % 2 ^ 32))
    taken =
        taken_of_read (write_schema s schema).disk 4 20 (write_u32 (length bytes % 2 ^ 32))
          length_back
