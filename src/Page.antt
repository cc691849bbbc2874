-- ===== src/Page.antt =====
-- struct Page of include/xdl/page.h, its methods in src/page.cpp, and `rebuild_row_offsets` of
-- src/pager.cpp. A page holds the serialised rows one behind another, and their offsets.
pub mod Holds
pub mod Erase
pub mod Slots
pub mod Refinement
pub mod Buffer
pub mod RowData
use xdl.Prelude.{
  ℕ, zero, suc, ◌+◌, ◌-◌, ◌%◌, ◌^◌, Bool, true, false, Option, none, some, List, [], ◌∷◌, ◌++◌,
  Result, ok, err, fault, xdl_error, corruption, defined, length, take, drop, replicate, erase_at,
  get_elem?, ltb, leb, ◌==◌, if◌then◌else◌, ◌>>=◌,
}
use xdl.Bytes.{read_u32}
use xdl.Schema.{Schema}
use xdl.Row.{Row}
use xdl.RowCodec.{page_size, row_byte_size, write_row, read_row, read_bytes}

abbrev pub max_rows_per_page : ℕ
max_rows_per_page = 64

pub record Page : Type 0 where
  pub id : ℕ
  pub bytes : List ℕ
  pub row_count : ℕ
  pub dirty : Bool
  pub row_offsets : List ℕ

-- `explicit Page(uint32_t page_id)`.
abbrev pub new_page : ℕ → Page
new_page id = record { id = id; bytes = []; row_count = 0; dirty = false; row_offsets = [] }

-- `data.resize(n)`.
unfoldable pub resize : List ℕ → ℕ → List ℕ
resize bytes n = take n bytes ++ replicate (n - length bytes) 0

-- Writes behind `data.data() + offset`; past the end the behaviour is undefined.
unfoldable pub write_at : List ℕ → ℕ → List ℕ → Result (List ℕ)
write_at bytes offset bs =
    if leb (offset + length bs) (length bytes)
    then ok (take offset bytes ++ (bs ++ drop (offset + length bs) bytes))
    else fault

-- `offset + total` is a sum of uint32_t.
unfoldable pub append_row : Page → Row → Schema → Result Page
unfolding resize write_at
append_row p row schema =
    let offset = length p.bytes % 2 ^ 32 in
    do
      total ← row_byte_size row schema
      if ltb page_size total then err xdl_error else do
        bs ← write_row total row schema
        bytes ← write_at (resize p.bytes ((offset + total) % 2 ^ 32)) offset bs
        ok (record p {
          bytes = bytes;
          row_offsets = p.row_offsets ++ offset ∷ [];
          row_count = (p.row_count + 1) % 2 ^ 32;
          dirty = true;
        })

-- The loop of `erase_row` over the `n` offsets from position `i` on; the subtraction is of
-- uint32_t.
unfoldable pub shift_offsets : ℕ → ℕ → ℕ → List ℕ → Result (List ℕ)
shift_offsets zero zero total offsets = ok offsets
shift_offsets zero (suc n) total [] = fault
shift_offsets zero (suc n) total (o ∷ offsets) = do
  rest ← shift_offsets zero n total offsets
  ok (((o + 2 ^ 32 - total) % 2 ^ 32) ∷ rest)
shift_offsets (suc i) zero total offsets = ok offsets
shift_offsets (suc i) (suc n) total [] = fault
shift_offsets (suc i) (suc n) total (o ∷ offsets) = do
  rest ← shift_offsets i (suc n) total offsets
  ok (o ∷ rest)

-- `data.erase(data.begin() + start, data.begin() + start + total)`.
unfoldable pub erase_range : List ℕ → ℕ → ℕ → Result (List ℕ)
erase_range bytes start total =
    if leb (start + total) (length bytes)
    then ok (take start bytes ++ drop (start + total) bytes)
    else fault

unfoldable pub erase_row : Page → ℕ → Result Page
unfolding shift_offsets erase_range
erase_row p idx = if leb p.row_count idx then err xdl_error else do
  start ← defined (get_elem? p.row_offsets idx)
  total ← read_u32 (drop start p.bytes)
  bytes ← erase_range p.bytes start total
  offsets ← shift_offsets idx (p.row_count - 1 - idx) total (erase_at p.row_offsets idx)
  ok (record p { bytes = bytes; row_offsets = offsets; row_count = p.row_count - 1; dirty = true })

unfoldable pub row_id_at : Page → ℕ → Result ℕ
row_id_at p idx = do
  offset ← defined (get_elem? p.row_offsets idx)
  read_u32 (drop 4 (drop offset p.bytes))

unfoldable pub has_capacity : Page → Bool
has_capacity p = ltb p.row_count max_rows_per_page

unfoldable pub get_row : Page → ℕ → Schema → Result Row
get_row p idx schema =
    if leb p.row_count idx
    then err xdl_error
    else do offset ← defined (get_elem? p.row_offsets idx); read_row (drop offset p.bytes) schema

-- The loop of `find_row` at slot `i`, with `n` slots to go.
unfoldable pub find_row_loop : List ℕ → ℕ → ℕ → List ℕ → ℕ → Result (Option ℕ)
find_row_loop bytes i zero offsets id = ok none
find_row_loop bytes i (suc n) [] id = fault
find_row_loop bytes i (suc n) (o ∷ offsets) id = do
  found ← read_u32 (drop 4 (drop o bytes))
  if found == id then ok (some i) else find_row_loop bytes (suc i) n offsets id

-- `none` is the result -1.
unfoldable pub find_row : Page → ℕ → Result (Option ℕ)
unfolding find_row_loop
find_row p id = find_row_loop p.bytes 0 p.row_count p.row_offsets id

-- The bytes from `row_data_ptr(idx)` on.
unfoldable pub row_data_ptr : Page → ℕ → Result (List ℕ)
row_data_ptr p idx = do offset ← defined (get_elem? p.row_offsets idx); ok (drop offset p.bytes)

unfoldable pub row_data_len : Page → ℕ → Result ℕ
unfolding row_data_ptr
row_data_len p idx = do src ← row_data_ptr p idx; read_u32 src

unfoldable pub row_data_copy : Page → ℕ → Result (List ℕ)
unfolding row_data_ptr
row_data_copy p idx =
    if leb p.row_count idx
    then err xdl_error
    else do base ← row_data_ptr p idx; total ← read_u32 base; read_bytes total base

-- The loop of `rebuild_row_offsets`, with `n` rows to go; `pos` is a uint32_t.
unfoldable pub rebuild_loop : ℕ → ℕ → List ℕ → Result (List ℕ)
rebuild_loop zero pos bytes = ok []
rebuild_loop (suc n) pos bytes =
    if ltb (length bytes) ((pos + 4) % 2 ^ 32) then err corruption else do
      row_len ← read_u32 (drop pos bytes)
      rest ← rebuild_loop n ((pos + row_len) % 2 ^ 32) bytes
      ok (pos ∷ rest)

unfoldable pub rebuild_row_offsets : Page → Result Page
unfolding rebuild_loop
rebuild_row_offsets p = do
  offsets ← rebuild_loop p.row_count 0 p.bytes
  ok (record p { row_offsets = offsets })
