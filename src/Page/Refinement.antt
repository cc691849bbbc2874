-- ===== src/Page/Refinement.antt =====
-- Each method of a page does to the list of its rows what its name says.
use xdl.Prelude.{
  ℕ, zero, suc, ◌+◌, ◌%◌, ◌^◌, ◌≤◌, ◌≡◌, refl, ap, true, Option, none, some, List, [], ◌∷◌, ◌++◌,
  ok, err, xdl_error, length, length-append, drop, append-nil, get_elem?, append_assoc,
  drop-append_self, ◌==◌, le→ltb_false, lt→leb_false, le→leb, Bool-cases, inl, inr, if◌then◌else◌,
  arith,
}
use xdl.Schema.{Schema}
use xdl.Row.{Row}
use xdl.RowCodec.{page_size, row_byte_size}
use xdl.RowCodec.RoundTrip.{Image, RowFits, fits-Image}
use xdl.Page.{Page, new_page, append_row, get_row, find_row_loop, find_row}
use xdl.Page.Holds.{
  Holds, Images, get-At, concat, starts, length-images, images-append, concat-append, starts-append,
  chunks_bound,
}
use xdl.Page.Slots.{At-Slot, slot_offset, slot_bytes}
use xdl.Page.Buffer.{write_at-resize}

-- A new page holds no row.
pub new_page-Holds : (s : Schema) (id : ℕ) → Holds s (new_page id) []
new_page-Holds s id = record {
  chunks = [];
  images = tt;
  packed = unfold concat in refl;
  offsets = unfold starts in refl;
  count = refl;
  within = omega arith;
}

module _ (s : Schema) (p : Page) (rows : List Row) (h : Holds s p rows) where
  -- The page after `append_row` of a row with the serialised form `bs`.
  unfoldable pub appended : List ℕ → Page
  appended bs = record p {
    bytes = p.bytes ++ bs;
    row_offsets = p.row_offsets ++ length p.bytes ∷ [];
    row_count = p.row_count + 1;
    dirty = true;
  }

  count_bound : p.row_count ≤ 1024
  count_bound =
      omega (arith, h.count, chunks_bound s rows h.chunks h.images, ap length h.packed, h.within)

  appended-Holds :
      (r : Row) (bs : List ℕ)
      → Image s r bs
      → length p.bytes + length bs ≤ page_size
      → Holds s (appended bs) (rows ++ r ∷ [])
  unfolding appended
  appended-Holds r bs im room = record {
    chunks = h.chunks ++ bs ∷ [];
    images = images-append s rows h.chunks (r ∷ []) (bs ∷ []) h.images (im, tt);
    packed = rw (h.packed, concat-append) (unfold concat in rw (append-nil bs));
    offsets =
        rw (h.offsets, h.packed, starts-append 0 h.chunks (bs ∷ []))
          (unfold starts in ap (λ (k : ℕ). starts 0 h.chunks ++ k ∷ []) (omega arith));
    count = omega (arith, h.count, length-append h.chunks (bs ∷ []));
    within = omega (arith, length-append p.bytes bs);
  }

  append_row_image :
      (r : Row) (bs : List ℕ)
      → Image s r bs
      → length p.bytes + length bs ≤ page_size
      → append_row p r s ≡ ok (appended bs)
  unfolding append_row appended
  append_row_image r bs im room = rw (
    im.sized,
    le→ltb_false page_size (length bs) (omega arith),
    im.written,
    offset,
    sum,
    write_at-resize p.bytes bs,
    count,
  )
    where
      offset : length p.bytes % 2 ^ 32 ≡ length p.bytes
      offset = omega (arith, h.within)

      sum : (length p.bytes + length bs) % 2 ^ 32 ≡ length p.bytes + length bs
      sum = omega (arith, h.within, im.high)

      count : (p.row_count + 1) % 2 ^ 32 ≡ p.row_count + 1
      count = omega (arith, count_bound)

-- If the size of a row that fits the schema still fits the page, `append_row` returns a page with
-- the same id that holds the row behind the others and is marked dirty.
pub append_row-Holds :
    (s : Schema) (p : Page) (rows : List Row) (r : Row) {n : ℕ}
    → Holds s p rows
    → RowFits s r
    → row_byte_size r s ≡ ok n
    → length p.bytes + n ≤ page_size
    → (p' : Page) × (append_row p r s ≡ ok p')
      × Holds s p' (rows ++ r ∷ [])
      × (p'.id ≡ p.id)
      × (length p'.bytes ≡ length p.bytes + n)
      × (p'.dirty ≡ true)
unfolding appended
append_row-Holds s p rows r {n} h fits sized room =
    let (bs, im) = fits-Image s r fits in
    let same : n ≡ length bs = cc (im.sized) in
    let room' : length p.bytes + length bs ≤ page_size = omega arith in
    (
      appended s p rows h bs,
      append_row_image s p rows h r bs im room',
      appended-Holds s p rows h r bs im room',
      refl,
      omega (arith, length-append p.bytes bs),
      refl,
    )

-- `get_row` decodes the row at a slot that is in use, and throws at any other.
pub get_row-Holds :
    (s : Schema) (p : Page) (rows : List Row) (i : ℕ)
    → Holds s p rows
    → get_row p i s ≡ elim (get_elem? rows i) [ none ↦ err xdl_error | some r ↦ ok r ]
unfolding get_row
get_row-Holds s p rows i h = split (get_elem? rows i) refl
  where
    present : (r : Row) → get_elem? rows i ≡ some r → get_row p i s ≡ ok r
    present r e =
        let a = get-At s rows h.chunks i h.images e in
        let z = At-Slot h i a in
        rw (lt→leb_false i p.row_count z.in_range, slot_offset z, slot_bytes z)
          (a.image.read (concat a.after))

    beyond : (xs : List Row) (j : ℕ) → get_elem? xs j ≡ none → length xs ≤ j
    beyond [] j e = omega arith
    beyond (x ∷ xs) zero e = cc
    beyond (x ∷ xs) (suc j) e = omega (arith, beyond xs j e)

    absent : get_elem? rows i ≡ none → get_row p i s ≡ err xdl_error
    absent e = rw (
        le→leb p.row_count i
          (omega (arith, beyond rows i e, h.count, length-images s rows h.chunks h.images)))

    split :
        (o : Option Row)
        → get_elem? rows i ≡ o
        → get_row p i s ≡ elim o [ none ↦ err xdl_error | some r ↦ ok r ]
    split none e = absent e
    split (some r) e = present r e

-- The first slot of a row with the id, counted from `k`.
unfoldable pub position_from : ℕ → ℕ → List Row → Option ℕ
position_from k id [] = none
position_from k id (r ∷ rows) = if r.id == id then some k else position_from (suc k) id rows

find_row_loop-images :
    (s : Schema) (rows : List Row) (bs : List (List ℕ)) (front bytes : List ℕ) (k id : ℕ)
    → Images s rows bs
    → bytes ≡ front ++ concat bs
    → find_row_loop bytes k (length bs) (starts (length front) bs) id ≡ ok (position_from k id rows)
unfolding find_row_loop starts position_from concat
find_row_loop-images s [] [] front bytes k id h e = refl
find_row_loop-images s (r ∷ rows) (b ∷ bs) front bytes k id h e =
    let there : bytes ≡ (front ++ b) ++ concat bs = rw (append_assoc front b (concat bs)) e in
    let tail : find_row_loop bytes (suc k) (length bs) (starts (length front + length b) bs) id
        ≡ ok (position_from (suc k) id rows) =
      rw (← length-append front b)
        (find_row_loop-images s rows bs (front ++ b) bytes (suc k) id h.1 there) in
    let here : drop (length front) bytes ≡ b ++ concat bs =
      rw e (drop-append_self front (b ++ concat bs)) in
    rw (here, h.0.id_word (concat bs))
      (elim (Bool-cases (r.id == id)) [ inl same ↦ rw same | inr differ ↦ rw differ tail ])
find_row_loop-images s [] (b ∷ bs) front bytes k id h e = absurd h
find_row_loop-images s (r ∷ rows) [] front bytes k id h e = absurd h

-- `find_row` returns the first slot whose row has the id, and -1 if no row has it.
pub find_row-Holds :
    (s : Schema) (p : Page) (rows : List Row) (id : ℕ)
    → Holds s p rows
    → find_row p id ≡ ok (position_from 0 id rows)
unfolding find_row
find_row-Holds s p rows id h =
    rw (h.count, h.offsets) (find_row_loop-images s rows h.chunks [] p.bytes 0 id h.images h.packed)
