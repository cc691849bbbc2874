-- ===== src/Page/RowData.antt =====
-- The bytes of one row of a page, as `row_data_ptr` and `row_data_len` give them to the log.
use xdl.Prelude.{
  ℕ, ◌≡◌, some, List, ◌++◌, ok, length, length-append, take-append_self, le→leb, get_elem?, arith,
}
use xdl.Schema.{Schema}
use xdl.Row.{Row}
use xdl.RowCodec.{read_bytes}
use xdl.RowCodec.RoundTrip.{Image}
use xdl.Page.{Page, row_data_ptr, row_data_len}
use xdl.Page.Holds.{Holds, get-At, concat}
use xdl.Page.Slots.{At-Slot, slot_offset, slot_bytes}

read_bytes_front : (bs rest : List ℕ) → read_bytes (length bs) (bs ++ rest) ≡ ok bs
unfolding read_bytes
read_bytes_front bs rest = rw (
  le→leb (length bs) (length (bs ++ rest)) (omega (arith, length-append bs rest)),
  take-append_self bs rest,
)

-- The bytes at the pointer, of the given length, are the serialised form of the row.
pub row_data-Holds :
    (s : Schema) (p : Page) (rows : List Row) (i : ℕ) (r : Row)
    → Holds s p rows
    → get_elem? rows i ≡ some r
    → (ptr : List ℕ) × (bs : List ℕ) × (row_data_ptr p i ≡ ok ptr)
      × (row_data_len p i ≡ ok (length bs))
      × (read_bytes (length bs) ptr ≡ ok bs)
      × Image s r bs
unfolding row_data_ptr row_data_len
row_data-Holds s p rows i r h e =
    let a = get-At s rows h.chunks i h.images e in
    let z = At-Slot h i a in
    (
      a.chunk ++ concat a.after,
      a.chunk,
      rw (slot_offset z, slot_bytes z),
      rw (slot_offset z, slot_bytes z) (a.image.header (concat a.after)),
      read_bytes_front a.chunk (concat a.after),
      a.image,
    )
