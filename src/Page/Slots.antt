-- ===== src/Page/Slots.antt =====
-- Where a page keeps the row of a slot.
use xdl.Prelude.{
  ℕ, ◌+◌, ◌<◌, ◌≡◌, refl, ap, some, List, ◌∷◌, ◌++◌, length, length-append, drop, get_elem?,
  drop-append_self, get_elem?-append_length, arith,
}
use xdl.Schema.{Schema}
use xdl.Row.{Row}
use xdl.Page.{Page}
use xdl.Page.Holds.{Holds, At, concat, starts, concat-append, starts-append, length-starts}

-- The page `p` keeps `chunk` at slot `i`, with the chunks `before` and `after` around it.
pub record Slot (p : Page) (i : ℕ) (before : List (List ℕ)) (chunk : List ℕ) (after : List (List ℕ))
    : Type 0 where
  pub bytes : p.bytes ≡ concat before ++ (chunk ++ concat after)
  pub offsets :
      p.row_offsets
      ≡ starts 0 before
        ++ length (concat before) ∷ starts (length (concat before) + length chunk) after
  pub index : length before ≡ i
  pub in_range : i < p.row_count

module _ {s : Schema} {p : Page} {rows : List Row} (h : Holds s p rows) (i : ℕ) {r : Row} where
  pub At-Slot : (a : At s rows h.chunks i r) → Slot p i a.before a.chunk a.after
  At-Slot a = record {
    bytes = rw (h.packed, a.split, concat-append) (unfold concat in refl);
    offsets =
        rw (h.offsets, a.split, starts-append 0 a.before (a.chunk ∷ a.after))
          (unfold starts in
            ap (λ (k : ℕ). starts 0 a.before ++ k ∷ starts (k + length a.chunk) a.after)
              (zero_add (length (concat a.before))));
    index = a.slot;
    in_range =
        omega
          (arith, h.count, a.slot, ap length a.split, length-append a.before (a.chunk ∷ a.after));
  }
    where
      zero_add : (n : ℕ) → 0 + n ≡ n
      zero_add n = omega arith

module _ {p : Page} {i : ℕ} {before : List (List ℕ)} {chunk : List ℕ} {after : List (List ℕ)}
    (z : Slot p i before chunk after) where
  pub slot_offset : get_elem? p.row_offsets i ≡ some (length (concat before))
  slot_offset =
      rw (z.offsets, ← z.index, ← length-starts 0 before)
        (get_elem?-append_length (starts 0 before) _ _)

  pub slot_bytes : drop (length (concat before)) p.bytes ≡ chunk ++ concat after
  slot_bytes = rw z.bytes (drop-append_self (concat before) (chunk ++ concat after))
