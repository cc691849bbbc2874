-- ===== src/Keys.antt =====
-- src/bptree.cpp: the encodings of field values as byte keys, and the order on keys. The result of
-- a comparison is the sign of the `int` that the source returns.
pub mod Order
pub mod Numbers
use Prim.Native.Nat.{compare, Ordering}
use xdl.Prelude.{
  ℕ, zero, suc, ◌+◌, ◌-◌, ◌*◌, ◌/◌, ◌%◌, ◌^◌, min, Bool, true, false, List, [], ◌∷◌, ◌++◌, Result,
  ok, err, length, take, ltb, leb, if◌then◌else◌, ◌>>=◌,
}
use xdl.Schema.{FieldType}
use xdl.Row.{FieldValue, as_uint32, as_string, as_float32, as_bool, as_int64}
use xdl.RowCodec.{flag}

abbrev pub then_by : Ordering → Ordering → Ordering
then_by Ordering.lt o = Ordering.lt
then_by Ordering.eq o = o
then_by Ordering.gt o = Ordering.gt

-- `std::memcmp` of the first `n` bytes.
unfoldable pub memcmp : ℕ → List ℕ → List ℕ → Ordering
memcmp zero a b = Ordering.eq
memcmp (suc n) (x ∷ a) (y ∷ b) = then_by (compare x y) (memcmp n a b)
memcmp (suc n) _ _ = Ordering.eq

unfoldable pub bptree_key_compare : List ℕ → List ℕ → Ordering
unfolding memcmp
bptree_key_compare a b =
    then_by (memcmp (min (length a) (length b)) a b) (compare (length a) (length b))

-- `encode_int_be` fills the `n` bytes of the word from the last one.
unfoldable pub encode_int_be : ℕ → ℕ → List ℕ
encode_int_be zero v = []
encode_int_be (suc n) v = encode_int_be n (v / 256) ++ (v % 256) ∷ []

-- `encode_signed_be<int64_t>`: to flip the top bit is to add it without the carry.
unfoldable pub encode_signed_be : ℕ → List ℕ
unfolding encode_int_be
encode_signed_be v = encode_int_be 8 ((v + 2 ^ 63) % 2 ^ 64)

-- A set sign bit flips all bits of the pattern, a clear one is set.
unfoldable pub encode_float_ordered : ℕ → List ℕ
unfolding encode_int_be
encode_float_ordered bits =
    encode_int_be 4 (if leb (2 ^ 31) bits then 2 ^ 32 - 1 - bits else bits + 2 ^ 31)

unfoldable pub bptree_key_encode_vec : FieldValue → FieldType → Result (List ℕ)
unfolding encode_int_be encode_signed_be encode_float_ordered
bptree_key_encode_vec v FieldType.uint32 = do n ← as_uint32 v; ok (encode_int_be 4 n)
bptree_key_encode_vec v FieldType.int64 = do n ← as_int64 v; ok (encode_signed_be n)
bptree_key_encode_vec v FieldType.float32 = do bits ← as_float32 v; ok (encode_float_ordered bits)
bptree_key_encode_vec v FieldType.bool = do b ← as_bool v; ok (flag b ∷ [])
bptree_key_encode_vec v FieldType.string = as_string v
bptree_key_encode_vec v (FieldType.unknown _) = ok []

-- The bytes in use of a KeyBuffer; it has room for 32 bytes.
unfoldable pub bptree_key_encode : FieldValue → FieldType → Result (List ℕ)
unfolding encode_int_be encode_signed_be encode_float_ordered
bptree_key_encode v FieldType.uint32 = do n ← as_uint32 v; ok (encode_int_be 4 n)
bptree_key_encode v FieldType.int64 = do n ← as_int64 v; ok (encode_signed_be n)
bptree_key_encode v FieldType.float32 = do bits ← as_float32 v; ok (encode_float_ordered bits)
bptree_key_encode v FieldType.bool = do b ← as_bool v; ok (flag b ∷ [])
bptree_key_encode v FieldType.string = do
  s ← as_string v
  if leb (length s) 32 then ok s else ok (take 32 s)
bptree_key_encode v (FieldType.unknown _) = ok []
