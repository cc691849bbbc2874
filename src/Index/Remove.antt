-- ===== src/Index/Remove.antt =====
-- `remove` against the map that the index stands for.
use xdl.Prelude.{
  ℕ, ◌≡◌, ◌∙◌, sym, refl, ap, Bool, true, false, Option, none, some, List, [], ◌∷◌, if◌then◌else◌,
  arith, ◌==◌, Bool-cases, Option-cases, inl, inr,
}
use xdl.SortedPairs.{IndexEntry, Pair, lookup, sorted_erase, linear_erase}
use xdl.SortedPairs.Laws.{
  lookup-sorted_erase, sorted_erase-Sorted, lookup-linear_erase, linear_erase-Distinct,
}
use xdl.SortedPairs.MergeLaws.{Apart}
use xdl.Index.{IndexManager, set_erase, at_page, find, remove}
use xdl.Index.Valid.{IsValid, is_some}
use xdl.Index.Sets.{contains-set_erase, listed-erase}
use xdl.Index.Lookup.{view, find_sorted-lookup, find-view}

Apart-linear_erase : (id : ℕ) (ps qs : List Pair) → Apart ps qs → Apart ps (linear_erase id qs)
unfolding linear_erase
Apart-linear_erase id ps [] a = tt
Apart-linear_erase id ps (q ∷ qs) a = ground (arith, Apart-linear_erase id ps qs a.1)

Apart-sorted_erase :
    (id : ℕ) (e : IndexEntry) (ps qs : List Pair)
    → ((j : ℕ) → lookup j (sorted_erase id ps) ≡ (if j == id then none else lookup j ps))
    → Apart ps qs
    → Apart (sorted_erase id ps) qs
Apart-sorted_erase id e ps [] h a = tt
Apart-sorted_erase id e ps (q ∷ qs) h a =
    (ground (arith, h q.id), Apart-sorted_erase id e ps qs h a.1)

-- No id of the buffer is in the sorted vector.
pub Apart-lookup :
    (j : ℕ) (ps qs : List Pair) (e : IndexEntry)
    → Apart ps qs
    → lookup j ps ≡ some e
    → lookup j qs ≡ none
unfolding lookup
Apart-lookup j ps [] e a h = refl
Apart-lookup j ps (q ∷ qs) e a h = elim (Bool-cases (q.id == j)) [
  | inl same ↦
      absurd
        (let p : q.id ≡ j = ground arith in clash (sym a.0 ∙ ap (λ (k : ℕ). lookup k ps) p ∙ h))
  | inr other ↦ rw other (Apart-lookup j ps qs e a.1 h)
]
  where
    clash : ◌≡◌ {A = Option IndexEntry} none (some e) → ⊥
    clash q = cc

-- The index after the id was taken out of the vector, and out of the buffer.
from_entries : IndexManager → ℕ → IndexEntry → IndexManager
from_entries m id e = record m {
  entries = sorted_erase id m.entries;
  page_to_ids = at_page e.page_id (set_erase id) m.page_to_ids;
}

from_buf : IndexManager → ℕ → IndexEntry → IndexManager
from_buf m id e = record m {
  buf = linear_erase id m.buf;
  buf_ids = set_erase id m.buf_ids;
  page_to_ids = at_page e.page_id (set_erase id) m.page_to_ids;
}

-- What a removal makes of the map and what it returns.
pub record Removes (m : IndexManager) (id : ℕ) (r : IndexManager × Bool) : Type 0 where
  pub valid : IsValid r.0
  pub result : r.1 ≡ is_some (find m id)
  pub finds : (j : ℕ) → find r.0 j ≡ (if j == id then none else find m j)

module _ {m : IndexManager} (v : IsValid m) (id : ℕ) (e : IndexEntry) where
  view-from_entries :
      (j : ℕ)
      → lookup id m.entries ≡ some e
      → view (from_entries m id e) j ≡ (if j == id then none else view m j)
  unfolding from_entries
  view-from_entries j h = ground (
    arith,
    lookup-sorted_erase j id m.entries e v.sorted h,
    Apart-lookup id m.entries m.buf e v.apart h,
  )

  from_entries-IsValid : lookup id m.entries ≡ some e → IsValid (from_entries m id e)
  unfolding from_entries
  from_entries-IsValid h = record {
    sorted = sorted_erase-Sorted id m.entries v.sorted;
    distinct = v.distinct;
    apart =
        Apart-sorted_erase id e m.entries m.buf
          (λ j. lookup-sorted_erase j id m.entries e v.sorted h) v.apart;
    ids = v.ids;
    unprepared = λ u. empty (v.unprepared u);
    pages = λ page j. ground (
      arith,
      v.pages page j,
      listed-erase page e.page_id j id m.page_to_ids,
      view-from_entries j h,
    );
  }
    where
      empty : m.entries ≡ [] → sorted_erase id m.entries ≡ []
      empty z = rw z (unfold sorted_erase in refl)

  view-from_buf :
      (j : ℕ)
      → lookup id m.entries ≡ none
      → lookup id m.buf ≡ some e
      → view (from_buf m id e) j ≡ (if j == id then none else view m j)
  unfolding from_buf
  view-from_buf j n h = ground (arith, lookup-linear_erase j id m.buf v.distinct)

  from_buf-IsValid :
      lookup id m.entries ≡ none → lookup id m.buf ≡ some e → IsValid (from_buf m id e)
  unfolding from_buf
  from_buf-IsValid n h = record {
    sorted = v.sorted;
    distinct = linear_erase-Distinct id m.buf v.distinct;
    apart = Apart-linear_erase id m.entries m.buf v.apart;
    ids = λ j. ground (
      arith,
      v.ids j,
      contains-set_erase j id m.buf_ids,
      lookup-linear_erase j id m.buf v.distinct,
    );
    unprepared = v.unprepared;
    pages = λ page j. ground (
      arith,
      v.pages page j,
      listed-erase page e.page_id j id m.page_to_ids,
      view-from_buf j n h,
    );
  }

-- On a valid index, `remove` says whether the id was present; afterwards the id is not found,
-- every other id is found as before, and the index is valid.
pub remove_lem : (m : IndexManager) (id : ℕ) → IsValid m → Removes m id (remove m id)
remove_lem m id v = elim (Option-cases (lookup id m.entries)) [
  | inr (e, h) ↦ rw (sorted e h) (record {
    valid = from_entries-IsValid v id e h;
    result = rw (find-view v id, h);
    finds = λ j.
        rw (find-view (from_entries-IsValid v id e h) j, find-view v j)
          (view-from_entries v id e j h);
  })
  | inl n ↦ elim (Option-cases (lookup id m.buf)) [
    | inr (e, h) ↦ rw (buffered e n h) (record {
      valid = from_buf-IsValid v id e n h;
      result = rw (find-view v id, n, h);
      finds = λ j.
          rw (find-view (from_buf-IsValid v id e n h) j, find-view v j)
            (view-from_buf v id e j n h);
    })
    | inl n' ↦ rw (absent n n') (record {
      valid = v;
      result = rw (find-view v id, n, n');
      finds = λ j. rw find-view (nothing n n' j);
    })
  ]
]
  where
    sorted :
        (e : IndexEntry) → lookup id m.entries ≡ some e → remove m id ≡ (from_entries m id e, true)
    sorted e h = unfold remove from_entries in ground (arith, find_sorted-lookup v id)

    buffered :
        (e : IndexEntry)
        → lookup id m.entries ≡ none
        → lookup id m.buf ≡ some e
        → remove m id ≡ (from_buf m id e, true)
    buffered e n h = unfold remove from_buf in ground (arith, find_sorted-lookup v id)

    absent : lookup id m.entries ≡ none → lookup id m.buf ≡ none → remove m id ≡ (m, false)
    absent n n' = unfold remove in ground (arith, find_sorted-lookup v id)

    nothing :
        lookup id m.entries ≡ none
        → lookup id m.buf ≡ none
        → (j : ℕ) → view m j ≡ (if j == id then none else view m j)
    nothing n n' j = elim (Bool-cases (j == id)) [
      | inl same ↦ rw same (let p : j ≡ id = ground arith in ap (view m) p ∙ rw (n, n'))
      | inr other ↦ rw other
    ]
