-- ===== src/SortedPairs.antt =====
-- The vectors of `IndexManager` in include/xdl/index.h: entries under ids, sorted by id, and the
-- algorithms of the standard library that the class applies to them.
pub mod Laws
pub mod MergeLaws
use xdl.Prelude.{
  ℕ, zero, suc, Bool, true, false, Option, none, some, List, [], ◌∷◌, get_elem?, erase_at, ltb,
  ◌==◌, if◌then◌else◌,
}

pub record IndexEntry : Type 0 where
  pub page_id : ℕ
  pub page_offset : ℕ
  pub row_slot : ℕ

pub record Pair : Type 0 where
  pub id : ℕ
  pub entry : IndexEntry

-- The first pair with the id: the loop over `buf_`.
unfoldable pub lookup : ℕ → List Pair → Option IndexEntry
lookup id [] = none
lookup id (p ∷ ps) = if p.id == id then some p.entry else lookup id ps

-- `std::lower_bound` on a sorted vector, as a position: how many ids stand before `id`.
unfoldable pub lower_bound : ℕ → List Pair → ℕ
lower_bound id [] = 0
lower_bound id (p ∷ ps) = if ltb p.id id then suc (lower_bound id ps) else 0

abbrev entry_if : ℕ → Option Pair → Option IndexEntry
entry_if id none = none
entry_if id (some p) = if p.id == id then some p.entry else none

-- `it != entries_.end() && it->id == id` for the `it` of `lower_bound`, with the entry.
unfoldable pub sorted_find : ℕ → List Pair → Option IndexEntry
unfolding lower_bound
sorted_find id ps = entry_if id (get_elem? ps (lower_bound id ps))

-- `entries_.erase(it)`.
unfoldable pub sorted_erase : ℕ → List Pair → List Pair
unfolding lower_bound
sorted_erase id ps = erase_at ps (lower_bound id ps)

abbrev pub change_at : ℕ → (IndexEntry → IndexEntry) → List Pair → List Pair
change_at i f [] = []
change_at zero f (p ∷ ps) = record p { entry = f p.entry } ∷ ps
change_at (suc i) f (p ∷ ps) = p ∷ change_at i f ps

-- `it->entry.field = value`.
unfoldable pub sorted_change : ℕ → (IndexEntry → IndexEntry) → List Pair → List Pair
unfolding lower_bound
sorted_change id f ps = change_at (lower_bound id ps) f ps

-- The loops over `buf_` that erase or change the first pair with the id.
unfoldable pub linear_erase : ℕ → List Pair → List Pair
linear_erase id [] = []
linear_erase id (p ∷ ps) = if p.id == id then ps else p ∷ linear_erase id ps

unfoldable pub linear_change : ℕ → (IndexEntry → IndexEntry) → List Pair → List Pair
linear_change id f [] = []
linear_change id f (p ∷ ps) =
    if p.id == id then record p { entry = f p.entry } ∷ ps else p ∷ linear_change id f ps

unfoldable pub insert_sorted : Pair → List Pair → List Pair
insert_sorted p [] = p ∷ []
insert_sorted p (q ∷ qs) = if ltb p.id q.id then p ∷ q ∷ qs else q ∷ insert_sorted p qs

-- `std::sort` by id.
unfoldable pub sort : List Pair → List Pair
unfolding insert_sorted
sort [] = []
sort (p ∷ ps) = insert_sorted p (sort ps)

-- `std::merge` by id; it takes from the first vector unless the second has a smaller id.
unfoldable pub merge : List Pair → List Pair → List Pair
merge [] qs = qs
merge (p ∷ ps) [] = p ∷ ps
merge (p ∷ ps) (q ∷ qs) = elim (ltb q.id p.id) [
  | true ↦ q ∷ merge (p ∷ ps) qs
  | false ↦ p ∷ merge ps (q ∷ qs)
]
