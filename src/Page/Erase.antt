-- ===== src/Page/Erase.antt =====
-- `erase_row` compacts a page, and `rebuild_row_offsets` finds the offsets again.
use xdl.Prelude.{
  ℕ, ◌+◌, ◌-◌, ◌%◌, ◌^◌, ◌≤◌, ◌<◌, ◌≡◌, refl, ap, true, false, some, List, [], ◌∷◌, ◌++◌, ok,
  length, length-append, drop, erase_at, get_elem?, append_assoc, drop-append_self, ltb,
  le→ltb_false, lt→leb_false, arith,
}
use xdl.Schema.{Schema}
use xdl.Row.{Row}
use xdl.RowCodec.{page_size}
use xdl.Page.{Page, erase_row, rebuild_loop, rebuild_row_offsets}
use xdl.Page.Holds.{
  Holds, Images, At, get-At, concat, starts, concat-append, starts-append, length-starts,
}
use xdl.Page.Slots.{Slot, At-Slot, slot_offset, slot_bytes}
use xdl.Page.Buffer.{erase_range_middle, erase_at-append, shift_offsets-starts}

module _ (s : Schema) (p : Page) (rows : List Row) (i : ℕ) {r : Row} (h : Holds s p rows)
    (a : At s rows h.chunks i r) where
  z : Slot p i a.before a.chunk a.after
  z = At-Slot h i a

  erased : Page
  erased = record p {
    bytes = concat a.before ++ concat a.after;
    row_offsets = starts 0 a.before ++ starts (length (concat a.before)) a.after;
    row_count = p.row_count - 1;
    dirty = true;
  }

  size : length p.bytes ≡ length (concat a.before) + length a.chunk + length (concat a.after)
  size = omega (
    arith,
    ap length z.bytes,
    length-append (concat a.before) (a.chunk ++ concat a.after),
    length-append a.chunk (concat a.after),
  )

  rest_count : p.row_count - 1 - i ≡ length a.after
  rest_count =
      omega (arith, h.count, ap length a.split, length-append a.before (a.chunk ∷ a.after), a.slot)

  cut_offsets :
      erase_at p.row_offsets i
      ≡ starts 0 a.before ++ starts (length (concat a.before) + length a.chunk) a.after
  cut_offsets =
      rw (z.offsets, ← z.index, ← length-starts 0 a.before)
        (erase_at-append (starts 0 a.before) _ _)

  erase_row_erased : erase_row p i ≡ ok erased
  unfolding erase_row erased
  erase_row_erased = rw (
    lt→leb_false i p.row_count z.in_range,
    slot_offset z,
    slot_bytes z,
    a.image.header (concat a.after),
    z.bytes,
    erase_range_middle (concat a.before) a.chunk (concat a.after),
    rest_count,
    cut_offsets,
    ← z.index,
    shift_offsets-starts (length a.chunk) a.before a.after (length (concat a.before)) fits
        (starts 0 a.before) (length-starts 0 a.before),
  )
    where
      fits : length (concat a.before) + length a.chunk + length (concat a.after) < 2 ^ 32
      fits = omega (arith, size, h.within)

  erased-Holds : Holds s erased (erase_at rows i)
  unfolding erased
  erased-Holds = record {
    chunks = a.before ++ a.after;
    images = a.erased;
    packed = rw (concat-append a.before a.after);
    offsets = rw (starts-append 0 a.before a.after) (
        ap (λ (k : ℕ). starts 0 a.before ++ starts k a.after)
          (zero_add (length (concat a.before))));
    count = omega (
      arith,
      h.count,
      ap length a.split,
      length-append a.before (a.chunk ∷ a.after),
      length-append a.before a.after,
    );
    within = omega (arith, size, h.within, length-append (concat a.before) (concat a.after));
  }
    where
      zero_add : (n : ℕ) → n ≡ 0 + n
      zero_add n = omega arith

-- `erase_row` of a slot in use returns a page with the same id that holds the other rows in order.
pub erase_row-Holds :
    (s : Schema) (p : Page) (rows : List Row) (i : ℕ) {r : Row}
    → Holds s p rows
    → get_elem? rows i ≡ some r
    → (p' : Page) × (erase_row p i ≡ ok p') × Holds s p' (erase_at rows i) × (p'.id ≡ p.id)
unfolding erased
erase_row-Holds s p rows i h e =
    let a = get-At s rows h.chunks i h.images e in
    (erased s p rows i h a, erase_row_erased s p rows i h a, erased-Holds s p rows i h a, refl)

rebuild_images :
    (s : Schema) (rows : List Row) (bs : List (List ℕ)) (front bytes : List ℕ)
    → Images s rows bs
    → bytes ≡ front ++ concat bs
    → length bytes ≤ page_size
    → rebuild_loop (length bs) (length front) bytes ≡ ok (starts (length front) bs)
unfolding rebuild_loop starts concat
rebuild_images s [] [] front bytes h e le = refl
rebuild_images s (r ∷ rows) (b ∷ bs) front bytes h e le =
    let size : length bytes ≡ length front + length b + length (concat bs) =
      omega
        (arith, ap length e, length-append front (b ++ concat bs), length-append b (concat bs)) in
    let there : bytes ≡ (front ++ b) ++ concat bs = rw (append_assoc front b (concat bs)) e in
    let tail : rebuild_loop (length bs) (length front + length b) bytes
        ≡ ok (starts (length front + length b) bs) =
      rw (← length-append front b) (rebuild_images s rows bs (front ++ b) bytes h.1 there le) in
    let here : drop (length front) bytes ≡ b ++ concat bs =
      rw e (drop-append_self front (b ++ concat bs)) in
    let wrap : (length front + length b) % 2 ^ 32 ≡ length front + length b = omega arith in
    let enough : ltb (length bytes) ((length front + 4) % 2 ^ 32) ≡ false =
      le→ltb_false (length bytes) ((length front + 4) % 2 ^ 32) (omega (arith, h.0.low)) in
    rw (enough, here, h.0.header (concat bs), wrap, tail)
rebuild_images s [] (b ∷ bs) front bytes h e le = absurd h
rebuild_images s (r ∷ rows) [] front bytes h e le = absurd h

-- From the bytes and the count of a page alone, `rebuild_row_offsets` finds the offsets that the
-- page had before it was stored.
pub rebuild_row_offsets-Holds :
    (s : Schema) (p : Page) (rows : List Row) (offsets : List ℕ)
    → Holds s p rows
    → rebuild_row_offsets (record p { row_offsets = offsets }) ≡ ok p
unfolding rebuild_row_offsets
rebuild_row_offsets-Holds s p rows offsets h = rw (
  h.count,
  rebuild_images s rows h.chunks [] p.bytes h.images h.packed h.within,
  ← h.offsets,
  ← h.count,
)
