-- ===== src/Bytes/Laws.antt =====
-- What the serialisation helpers read back from what they wrote.
use xdl.Prelude.{
  ℕ, zero, suc, ◌+◌, ◌*◌, ◌/◌, ◌%◌, ◌^◌, ◌<◌, ◌≡◌, refl, ap, some, List, ◌++◌, ok, defined, length,
  All, arith,
}
use xdl.Bytes.{
  IsByte, write_le, read_le, with_low, write_u8, write_u16, write_u32, write_u64, read_u8, read_u16,
  read_u32, read_u64,
}
use native.Mathlib.Nat.{pow-suc}

-- A word that fits its width is read back from its bytes, whatever follows them.
pub read_le-write_le :
    (n v : ℕ) (rest : List ℕ) → v < 256 ^ n → read_le n (write_le n v ++ rest) ≡ some v
unfolding read_le write_le
read_le-write_le zero v rest h = ap some (omega arith)
read_le-write_le (suc n) v rest h = cc (
  ap (with_low (v % 256)) (read_le-write_le n (v / 256) rest (omega (arith, pow-suc 256 n))),
  ap some (parts v),
)
  where
    parts : (w : ℕ) → w % 256 + 256 * (w / 256) ≡ w
    parts w = omega arith

pub write_le-IsByte : (n v : ℕ) → All IsByte (write_le n v)
unfolding write_le
write_le-IsByte zero v = tt
write_le-IsByte (suc n) v = (omega arith, write_le-IsByte n (v / 256))

pub length-write_le : (n v : ℕ) → length (write_le n v) ≡ n
unfolding write_le
length-write_le zero v = refl
length-write_le (suc n) v = ap suc (length-write_le n (v / 256))

module _ (v : ℕ) (rest : List ℕ) where
  pub read_u8-write_u8 : v < 2 ^ 8 → read_u8 (write_u8 v ++ rest) ≡ ok v
  unfolding read_u8 write_u8
  read_u8-write_u8 h = ap defined (read_le-write_le 1 v rest (omega arith))

  pub read_u16-write_u16 : v < 2 ^ 16 → read_u16 (write_u16 v ++ rest) ≡ ok v
  unfolding read_u16 write_u16
  read_u16-write_u16 h = ap defined (read_le-write_le 2 v rest (omega arith))

  pub read_u32-write_u32 : v < 2 ^ 32 → read_u32 (write_u32 v ++ rest) ≡ ok v
  unfolding read_u32 write_u32
  read_u32-write_u32 h = ap defined (read_le-write_le 4 v rest (omega arith))

  pub read_u64-write_u64 : v < 2 ^ 64 → read_u64 (write_u64 v ++ rest) ≡ ok v
  unfolding read_u64 write_u64
  read_u64-write_u64 h = ap defined (read_le-write_le 8 v rest (omega arith))
