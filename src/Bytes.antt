-- ===== src/Bytes.antt =====
-- The serialisation helpers of include/xdl/page.h (namespace serialise). A byte is a number below
-- 256, and a `const char*` is the list of the bytes from there to the end of the buffer. A shift
-- by 8 is a division or a product by 256, and `|` of parts that share no bit is their sum.
pub mod Laws
use xdl.Prelude.{
  ℕ, zero, suc, ◌+◌, ◌*◌, ◌/◌, ◌%◌, ◌<◌, Option, none, some, List, [], ◌∷◌, Result, defined,
}

abbrev pub IsByte : ℕ → Type 0
IsByte b = b < 256

-- The lowest `n` bytes of a word, the least significant first.
unfoldable pub write_le : ℕ → ℕ → List ℕ
write_le zero v = []
write_le (suc n) v = (v % 256) ∷ write_le n (v / 256)

-- Adds a low byte to the word that the bytes behind it make.
abbrev pub with_low : ℕ → Option ℕ → Option ℕ
with_low b none = none
with_low b (some v) = some (b + 256 * v)

unfoldable pub read_le : ℕ → List ℕ → Option ℕ
read_le zero src = some 0
read_le (suc n) [] = none
read_le (suc n) (b ∷ src) = with_low b (read_le n src)

unfoldable pub write_u8 : ℕ → List ℕ
unfolding write_le
write_u8 = write_le 1

unfoldable pub write_u16 : ℕ → List ℕ
unfolding write_le
write_u16 = write_le 2

unfoldable pub write_u32 : ℕ → List ℕ
unfolding write_le
write_u32 = write_le 4

unfoldable pub write_u64 : ℕ → List ℕ
unfolding write_le
write_u64 = write_le 8

unfoldable pub read_u8 : List ℕ → Result ℕ
unfolding read_le
read_u8 src = defined (read_le 1 src)

unfoldable pub read_u16 : List ℕ → Result ℕ
unfolding read_le
read_u16 src = defined (read_le 2 src)

unfoldable pub read_u32 : List ℕ → Result ℕ
unfolding read_le
read_u32 src = defined (read_le 4 src)

unfoldable pub read_u64 : List ℕ → Result ℕ
unfolding read_le
read_u64 src = defined (read_le 8 src)
