-- ===== src/Compression.antt =====
-- src/compression.cpp: CompressionEngine. The three functions of LZ4 that it calls are a parameter,
-- with `none` for a result that is not a size; a compression type is its byte.
use xdl.Prelude.{
  ℕ, ◌%◌, ◌^◌, Option, none, some, List, Result, ok, err, compression_error, length, ◌==◌,
  if◌then◌else◌,
}
use Prim.Native.String.{String}

-- LZ4_compressBound of a size, LZ4_compress_default of the source, its size and the capacity of the
-- destination, and LZ4_decompress_safe likewise. The sizes are `int`s, given by their 32 bits.
pub record Lz4 : Type 0 where
  pub compress_bound : ℕ → ℕ
  pub compress_default : List ℕ → ℕ → ℕ → Option (List ℕ)
  pub decompress_safe : List ℕ → ℕ → ℕ → Option (List ℕ)

abbrev pub no_compression : ℕ
no_compression = 0

abbrev pub lz4_compression : ℕ
lz4_compression = 1

-- A cast from `size_t` to `int` keeps this many values.
abbrev int_size : ℕ
int_size = 2 ^ 32

module _ (z : Lz4) where
  unfoldable pub max_compressed_size : ℕ → ℕ → ℕ
  max_compressed_size type src_size =
      if type == lz4_compression then z.compress_bound (src_size % int_size) else src_size

  abbrev compressed : Option (List ℕ) → Result (List ℕ)
  compressed none = err compression_error
  compressed (some dst) = ok dst

  -- A result of 0 or less throws.
  unfoldable pub compress : ℕ → List ℕ → Result (List ℕ)
  compress type src =
      if type == no_compression
      then ok src
      else compressed (
          z.compress_default src (length src % int_size)
            (max_compressed_size type (length src) % int_size))

  abbrev expected : ℕ → Option (List ℕ) → Result (List ℕ)
  expected size none = err compression_error
  expected size (some dst) = if length dst == size then ok dst else err compression_error

  unfoldable pub decompress : ℕ → List ℕ → ℕ → Result (List ℕ)
  decompress type src size =
      if type == no_compression
      then (if length src == size then ok src else err compression_error)
      else expected size (z.decompress_safe src (length src % int_size) (size % int_size))

unfoldable pub compression_name : ℕ → String
compression_name type =
    if type == no_compression then "none" else if type == lz4_compression then "lz4" else "unknown"
