-- ===== src/Index/Lookup.antt =====
-- What `find` returns on a valid index, and what merging the buffer keeps.
use xdl.Prelude.{
  ℕ, ◌≡◌, ◌∙◌, refl, ap, true, Option, none, some, List, [], ◌∷◌, arith, Bool-cases, inl, inr,
}
use xdl.SortedPairs.{IndexEntry, Pair, lookup, insert_sorted, sort, merge}
use xdl.SortedPairs.Laws.{Sorted, sorted_find-lookup}
use xdl.SortedPairs.MergeLaws.{Apart, either, lookup-sort, sort-Sorted, lookup-merge, merge-Sorted}
use xdl.Index.{IndexManager, contains, page_ids, find_sorted, find, merge_buf}
use xdl.Index.Valid.{IsValid, listed, on_page}

-- The map that an index stands for.
abbrev pub view : IndexManager → ℕ → Option IndexEntry
view m id = either (lookup id m.entries) (lookup id m.buf)

either-none : (o : Option IndexEntry) → either o none ≡ o
either-none none = refl
either-none (some e) = refl

module _ {m : IndexManager} (v : IsValid m) where
  pub find_sorted-lookup : (id : ℕ) → find_sorted m id ≡ lookup id m.entries
  unfolding find_sorted lookup
  find_sorted-lookup id = elim (Bool-cases m.prepared) [
    | inl ready ↦ rw ready (sorted_find-lookup id m.entries v.sorted)
    | inr early ↦ rw (early, v.unprepared early)
  ]

  -- On a valid index `find` returns the entry of the id, wherever it stands.
  pub find-view : (id : ℕ) → find m id ≡ view m id
  unfolding find
  find-view id = ground (arith, find_sorted-lookup id, v.ids id)

Apart-insert_sorted :
    (ps : List Pair) (p : Pair) (qs : List Pair)
    → lookup p.id ps ≡ none
    → Apart ps qs
    → Apart ps (insert_sorted p qs)
unfolding insert_sorted
Apart-insert_sorted ps p [] h a = (h, tt)
Apart-insert_sorted ps p (q ∷ qs) h a = ground (arith, Apart-insert_sorted ps p qs h a.1)

Apart-sort : (ps qs : List Pair) → Apart ps qs → Apart ps (sort qs)
unfolding sort
Apart-sort ps [] a = tt
Apart-sort ps (q ∷ qs) a = Apart-insert_sorted ps q (sort qs) a.0 (Apart-sort ps qs a.1)

module _ {m : IndexManager} (v : IsValid m) where
  lookup-merged : (id : ℕ) → lookup id (merge m.entries (sort m.buf)) ≡ view m id
  lookup-merged id =
      lookup-merge id m.entries (sort m.buf) v.sorted (sort-Sorted m.buf v.distinct)
      ∙ ap (either (lookup id m.entries)) (lookup-sort id m.buf v.distinct)

  -- `merge` changes no lookup.
  pub view-merge_buf : (id : ℕ) → view (merge_buf m) id ≡ view m id
  unfolding merge_buf lookup
  view-merge_buf id = rw (lookup-merged id) (either-none (view m id))

  merged-Sorted : Sorted (merge m.entries (sort m.buf))
  merged-Sorted =
      merge-Sorted m.entries (sort m.buf) v.sorted (sort-Sorted m.buf v.distinct)
        (Apart-sort m.entries m.buf v.apart)

  merge_pages :
      (page id : ℕ) → listed id (page_ids page m.page_to_ids) ≡ on_page page (view (merge_buf m) id)
  merge_pages page id = rw (view-merge_buf id) (v.pages page id)

  pub merge_buf-IsValid : m.prepared ≡ true → IsValid (merge_buf m)
  unfolding merge_buf contains lookup
  merge_buf-IsValid ready = record {
    sorted = merged-Sorted;
    distinct = tt;
    apart = tt;
    ids = λ id. refl;
    unprepared = λ h. cc;
    pages = merge_pages;
  }
