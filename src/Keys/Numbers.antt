-- ===== src/Keys/Numbers.antt =====
-- The encodings of numbers keep their order.
use Prim.Native.Nat.{compare, Ordering}
use native.Mathlib.Nat.{pow-suc}
use xdl.Prelude.{
  ℕ, zero, suc, ◌+◌, ◌-◌, ◌/◌, ◌%◌, ◌^◌, ◌<◌, ◌≡◌, ◌∙◌, refl, ap, Bool, true, false, List, [], ◌∷◌,
  ◌++◌, ok, length, length-append, ltb, leb, if◌then◌else◌, arith,
}
use xdl.Prelude.Int.{ℤ, pos, negsuc, compare_ℤ}
use xdl.Schema.{FieldType}
use xdl.Row.{FieldValue}
use xdl.RowCodec.{flag}
use xdl.RowCodec.Fields.{FieldFits}
use xdl.Keys.{
  then_by, encode_int_be, encode_signed_be, encode_float_ordered, bptree_key_encode_vec,
  bptree_key_compare,
}
use xdl.Keys.Order.{lex, bptree_key_compare-lex}

length-encode_int_be : (n v : ℕ) → length (encode_int_be n v) ≡ n
unfolding encode_int_be
length-encode_int_be zero v = refl
length-encode_int_be (suc n) v = omega (
  arith,
  length-append (encode_int_be n (v / 256)) ((v % 256) ∷ []),
  length-encode_int_be n (v / 256),
)

lex-snoc :
    (a b : List ℕ) (x y : ℕ)
    → length a ≡ length b
    → lex (a ++ x ∷ []) (b ++ y ∷ []) ≡ then_by (lex a b) (compare x y)
unfolding lex
lex-snoc [] [] x y h = ground arith
lex-snoc (c ∷ a) (d ∷ b) x y h = ground (arith, lex-snoc a b x y (omega arith))
lex-snoc [] (d ∷ b) x y h = absurd (omega arith)
lex-snoc (c ∷ a) [] x y h = absurd (omega arith)

compare_digits :
    (a b : ℕ) → then_by (compare (a / 256) (b / 256)) (compare (a % 256) (b % 256)) ≡ compare a b
compare_digits a b = ground arith

-- The big-endian bytes of numbers that fit compare as the numbers.
pub lex-encode_int_be :
    (n a b : ℕ)
    → a < 256 ^ n
    → b < 256 ^ n
    → lex (encode_int_be n a) (encode_int_be n b) ≡ compare a b
unfolding encode_int_be
lex-encode_int_be zero a b h k = unfold lex in ground arith
lex-encode_int_be (suc n) a b h k =
    lex-snoc (encode_int_be n (a / 256)) (encode_int_be n (b / 256)) (a % 256) (b % 256)
      (omega (arith, length-encode_int_be n (a / 256), length-encode_int_be n (b / 256)))
    ∙ ap (λ o. then_by o (compare (a % 256) (b % 256)))
        (lex-encode_int_be n (a / 256) (b / 256) (omega (arith, pow-suc 256 n))
          (omega (arith, pow-suc 256 n)))
    ∙ compare_digits a b

-- The integer of a 64-bit two's complement pattern.
abbrev pub int64_value : ℕ → ℤ
int64_value w = if ltb w (2 ^ 63) then pos w else negsuc (2 ^ 64 - 1 - w)

compare_flipped :
    (a b : ℕ)
    → a < 2 ^ 64
    → b < 2 ^ 64
    → compare ((a + 2 ^ 63) % 2 ^ 64) ((b + 2 ^ 63) % 2 ^ 64)
      ≡ compare_ℤ (int64_value a) (int64_value b)
compare_flipped a b h k = ground arith

pub lex-encode_signed_be :
    (a b : ℕ)
    → a < 2 ^ 64
    → b < 2 ^ 64
    → lex (encode_signed_be a) (encode_signed_be b) ≡ compare_ℤ (int64_value a) (int64_value b)
unfolding encode_signed_be
lex-encode_signed_be a b h k =
    lex-encode_int_be 8 ((a + 2 ^ 63) % 2 ^ 64) ((b + 2 ^ 63) % 2 ^ 64) (omega arith) (omega arith)
    ∙ compare_flipped a b h k

-- The order of two floats by their signs and magnitudes: a negative one is before a positive one, and
-- of two negative ones the one of the larger magnitude comes first.
abbrev by_sign : (negative negative' : Bool) → (magnitude magnitude' : ℕ) → Ordering
by_sign false false m n = compare m n
by_sign false true m n = Ordering.gt
by_sign true false m n = Ordering.lt
by_sign true true m n = compare n m

-- The `totalOrder` of IEEE 754 on the patterns of floats: it agrees with `<` on numbers, has -0.0
-- before 0.0, and the NaNs before and behind all numbers, by their sign.
abbrev pub float_order : ℕ → ℕ → Ordering
float_order a b = by_sign (leb (2 ^ 31) a) (leb (2 ^ 31) b) (a % 2 ^ 31) (b % 2 ^ 31)

abbrev ordered_bits : ℕ → ℕ
ordered_bits bits = if leb (2 ^ 31) bits then 2 ^ 32 - 1 - bits else bits + 2 ^ 31

compare_ordered :
    (a b : ℕ)
    → a < 2 ^ 32
    → b < 2 ^ 32
    → compare (ordered_bits a) (ordered_bits b) ≡ float_order a b
compare_ordered a b h k = ground arith

ordered_bits-lt : (a : ℕ) → a < 2 ^ 32 → ordered_bits a < 2 ^ 32
ordered_bits-lt a h = ground arith

pub lex-encode_float_ordered :
    (a b : ℕ)
    → a < 2 ^ 32
    → b < 2 ^ 32
    → lex (encode_float_ordered a) (encode_float_ordered b) ≡ float_order a b
unfolding encode_float_ordered
lex-encode_float_ordered a b h k =
    lex-encode_int_be 4 (ordered_bits a) (ordered_bits b) (ordered_bits-lt a h)
      (ordered_bits-lt b k)
    ∙ compare_ordered a b h k

-- The order on the values of one type that the index is meant to have.
abbrev pub value_order : FieldValue → FieldValue → Ordering
value_order (FieldValue.uint32 a) (FieldValue.uint32 b) = compare a b
value_order (FieldValue.int64 a) (FieldValue.int64 b) = compare_ℤ (int64_value a) (int64_value b)
value_order (FieldValue.float32 a) (FieldValue.float32 b) = float_order a b
value_order (FieldValue.bool a) (FieldValue.bool b) = compare (flag a) (flag b)
value_order (FieldValue.string a) (FieldValue.string b) = lex a b
value_order _ _ = Ordering.eq

bool_order : (a b : Bool) → lex (flag a ∷ []) (flag b ∷ []) ≡ compare (flag a) (flag b)
unfolding lex
bool_order true true = refl
bool_order true false = refl
bool_order false true = refl
bool_order false false = refl

-- Two values that fit the type of a field have keys, in the order of the values.
pub bptree_key_encode_vec-lex :
    (t : FieldType) (v w : FieldValue)
    → FieldFits t v
    → FieldFits t w
    → (a : List ℕ) × (b : List ℕ) × (bptree_key_encode_vec v t ≡ ok a)
      × (bptree_key_encode_vec w t ≡ ok b)
      × (lex a b ≡ value_order v w)
unfolding bptree_key_encode_vec
bptree_key_encode_vec-lex FieldType.uint32 (FieldValue.uint32 a) (FieldValue.uint32 b) h k = (
  encode_int_be 4 a,
  encode_int_be 4 b,
  refl,
  refl,
  lex-encode_int_be 4 a b (omega arith) (omega arith),
)
bptree_key_encode_vec-lex FieldType.int64 (FieldValue.int64 a) (FieldValue.int64 b) h k =
    (encode_signed_be a, encode_signed_be b, refl, refl, lex-encode_signed_be a b h k)
bptree_key_encode_vec-lex FieldType.float32 (FieldValue.float32 a) (FieldValue.float32 b) h k =
    (encode_float_ordered a, encode_float_ordered b, refl, refl, lex-encode_float_ordered a b h k)
bptree_key_encode_vec-lex FieldType.bool (FieldValue.bool a) (FieldValue.bool b) h k =
    (flag a ∷ [], flag b ∷ [], refl, refl, bool_order a b)
bptree_key_encode_vec-lex FieldType.string (FieldValue.string a) (FieldValue.string b) h k =
    (a, b, refl, refl, refl)
bptree_key_encode_vec-lex _ _ _ h k = absurd (ground arith)

-- Two values that fit the type of a field have keys, and `bptree_key_compare` of the keys gives the
-- order of the values: of numbers by size, of `false` before `true`, of strings bytewise with a proper
-- prefix first, and of floats by IEEE 754's totalOrder, which differs from `<` in that -0.0 is before
-- 0.0 and each NaN has a place before or behind all numbers.
pub bptree_key_encode_vec-value_order :
    (t : FieldType) (v w : FieldValue)
    → FieldFits t v
    → FieldFits t w
    → (a : List ℕ) × (b : List ℕ) × (bptree_key_encode_vec v t ≡ ok a)
      × (bptree_key_encode_vec w t ≡ ok b)
      × (bptree_key_compare a b ≡ value_order v w)
bptree_key_encode_vec-value_order t v w h k =
    let (a, b, ea, eb, order) = bptree_key_encode_vec-lex t v w h k in
    (a, b, ea, eb, bptree_key_compare-lex a b ∙ order)
