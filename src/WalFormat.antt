-- ===== src/WalFormat.antt =====
-- src/wal.cpp: the checksum, and the format of a log record as `write_record` writes it and the loop
-- of `replay` reads it. The host is little-endian, so `memcpy` of a uint32_t writes its bytes from
-- the lowest one.
pub mod Records
pub mod Logs
pub mod Rounds
use Prim.Native.Nat.{bit_xor}
use mathlib.Core.List.{foldl}
use xdl.Prelude.{
  ℕ, zero, suc, ◌+◌, ◌-◌, ◌/◌, ◌%◌, ◌^◌, Bool, true, false, Option, none, some, List, [], ◌∷◌, ◌++◌,
  length, take, drop, ltb, ◌==◌, if◌then◌else◌, ◌||◌,
}
use xdl.Bytes.{write_u32, write_u8, read_le}

-- One round of `init_crc32_table`.
unfoldable pub crc_round : ℕ → ℕ
crc_round crc = if crc % 2 == 1 then bit_xor (crc / 2) 0xEDB88320 else crc / 2

unfoldable pub crc_rounds : ℕ → ℕ → ℕ
unfolding crc_round
crc_rounds zero crc = crc
crc_rounds (suc n) crc = crc_rounds n (crc_round crc)

-- `crc32_table[i]`.
unfoldable pub crc32_table : ℕ → ℕ
unfolding crc_rounds
crc32_table i = crc_rounds 8 i

-- One byte of the checksum, a uint32_t.
unfoldable pub crc_byte : ℕ → ℕ → ℕ
unfolding crc32_table
crc_byte crc b = bit_xor (crc32_table (bit_xor crc b % 256)) (crc / 2 ^ 8) % 2 ^ 32

abbrev pub wal_checksum_seed : ℕ
wal_checksum_seed = 0xDEADBEEF

unfoldable pub compute_crc : List ℕ → ℕ
unfolding crc_byte
compute_crc bytes = foldl crc_byte wal_checksum_seed bytes

-- A cast can give the enumeration any byte; `other` are those that no enumerator has.
pub data RecordType : Type 0 where
  insert commit checkpoint rollback delete : RecordType
  other : ℕ → RecordType

abbrev pub type_byte : RecordType → ℕ
type_byte insert = 0
type_byte commit = 1
type_byte checkpoint = 2
type_byte rollback = 3
type_byte delete = 4
type_byte (other n) = n

abbrev pub type_of : ℕ → RecordType
type_of zero = insert
type_of (suc zero) = commit
type_of (suc (suc zero)) = checkpoint
type_of (suc (suc (suc zero))) = rollback
type_of (suc (suc (suc (suc zero)))) = delete
type_of n = other n

pub record WalRecord : Type 0 where
  pub type : RecordType
  pub row_id : ℕ
  pub page_id : ℕ
  pub row_slot : ℕ
  pub row_data : List ℕ

-- The bytes of a record behind its checksum, for a payload of `row_data`.
unfoldable pub record_body : ℕ → WalRecord → List ℕ
record_body total_len r =
    write_u32 total_len
    ++ (write_u8 (type_byte r.type)
        ++ (write_u32 r.row_id ++ (write_u32 r.page_id ++ (write_u32 r.row_slot ++ r.row_data))))

-- What `write_record` appends to the buffer; `total_len` is a uint32_t.
unfoldable pub encode_record : WalRecord → List ℕ
unfolding record_body compute_crc
encode_record r =
    let body = record_body ((17 + length r.row_data) % 2 ^ 32) r in
    write_u32 (compute_crc body) ++ body

abbrev pub word : Option ℕ → ℕ
word none = 0
word (some n) = n

-- The uint32_t that `memcpy` reads from there; the loop checks the bounds before.
abbrev pub word_at : ℕ → List ℕ → ℕ
word_at offset bytes = word (read_le 4 (drop offset bytes))

-- The record from its body behind the length word.
unfoldable pub parse_body : ℕ → List ℕ → WalRecord
unfolding read_le
parse_body record_len rest = record {
  type = type_of (word (read_le 1 rest));
  row_id = word_at 1 rest;
  page_id = word_at 5 rest;
  row_slot = word_at 9 rest;
  row_data = take (record_len - 17) (drop 13 rest);
}

-- One round of the loop of `replay`: the record and what stands behind it, or the `break`.
unfoldable pub parse_record : List ℕ → Option (WalRecord × List ℕ)
unfolding parse_body compute_crc
parse_record bytes =
    if ltb (length bytes) 8
    then none
    else (let stored_crc = word_at 0 bytes in
        let record_len = word_at 4 bytes in
        let rest = drop 8 bytes in
        if ltb record_len 17 || ltb (length rest) (record_len - 4)
        then none
        else if compute_crc (take record_len (drop 4 bytes)) == stored_crc
        then some (parse_body record_len rest, drop (record_len - 4) rest)
        else none)

-- The loop of `replay`; every round takes bytes, so as many rounds as bytes are enough.
unfoldable pub parse_loop : ℕ → List ℕ → List WalRecord
parse_loop zero bytes = []
parse_loop (suc fuel) bytes = elim (parse_record bytes) [
  | none ↦ []
  | some (r, rest) ↦ r ∷ parse_loop fuel rest
]
