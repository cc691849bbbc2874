-- ===== src/Index.antt =====
-- `IndexManager` of include/xdl/index.h: the primary index. A sorted vector holds the ids that were
-- merged, and a small buffer the new ones. A method that may throw returns the state beside its
-- result, since what it changed before the throw stays changed.
pub mod Valid
pub mod PageOffsets
pub mod Change
pub mod Remove
pub mod Insert
pub mod Sets
pub mod Lookup
use xdl.Prelude.{
  ℕ, ◌+◌, Bool, true, false, Option, none, some, List, [], ◌∷◌, ◌++◌, Result, ok, err,
  duplicate_key, length, leb, ◌==◌, ◌&&◌, if◌then◌else◌,
}
use xdl.SortedPairs.{
  IndexEntry, Pair, lookup, sorted_find, sorted_erase, sorted_change, linear_erase, linear_change,
  sort, merge,
}

-- `std::unordered_set<uint32_t>`; its order of iteration is not specified.
unfoldable pub contains : ℕ → List ℕ → Bool
contains id [] = false
contains id (x ∷ xs) = if x == id then true else contains id xs

unfoldable pub set_insert : ℕ → List ℕ → List ℕ
unfolding contains
set_insert id ids = if contains id ids then ids else id ∷ ids

unfoldable pub set_erase : ℕ → List ℕ → List ℕ
set_erase id [] = []
set_erase id (x ∷ xs) = let rest = set_erase id xs in if x == id then rest else x ∷ rest

abbrev pub PageIds : Type 0
PageIds = List (ℕ × List ℕ)

-- `page_to_ids_.find(page)`.
unfoldable pub page_ids : ℕ → PageIds → Option (List ℕ)
page_ids page [] = none
page_ids page ((p, ids) ∷ m) = if p == page then some ids else page_ids page m

-- A change of `page_to_ids_[page]`, which the subscript creates if it is absent.
unfoldable pub at_page : ℕ → (List ℕ → List ℕ) → PageIds → PageIds
at_page page f [] = (page, f []) ∷ []
at_page page f ((p, ids) ∷ m) = if p == page then (p, f ids) ∷ m else (p, ids) ∷ at_page page f m

abbrev pub merge_threshold : ℕ
merge_threshold = 1024

pub record IndexManager : Type 0 where
  pub entries : List Pair
  pub buf : List Pair
  pub buf_ids : List ℕ
  pub prepared : Bool
  pub page_to_ids : PageIds

abbrev pub empty_index : IndexManager
empty_index = record { entries = []; buf = []; buf_ids = []; prepared = false; page_to_ids = [] }

-- The private `merge()`; on an empty buffer it returns early, with the same result.
unfoldable pub merge_buf : IndexManager → IndexManager
unfolding sort merge
merge_buf m = record m { entries = merge m.entries (sort m.buf); buf = []; buf_ids = [] }

-- The search in the sorted vector, which is made only once the index is prepared.
unfoldable pub find_sorted : IndexManager → ℕ → Option IndexEntry
unfolding sorted_find
find_sorted m id = if m.prepared then sorted_find id m.entries else none

unfoldable pub insert_new : IndexManager → ℕ → IndexEntry → IndexManager × Result (Unit {0})
unfolding find_sorted contains set_insert at_page
insert_new m id entry = elim (find_sorted m id) [
  | some _ ↦ (m, err duplicate_key)
  | none ↦ if contains id m.buf_ids then (m, err duplicate_key) else (
    record m {
      buf = m.buf ++ record { id = id; entry = entry } ∷ [];
      buf_ids = set_insert id m.buf_ids;
      page_to_ids = at_page entry.page_id (set_insert id) m.page_to_ids;
    },
    ok tt,
  )
]

unfoldable pub insert : IndexManager → ℕ → IndexEntry → IndexManager × Result (Unit {0})
unfolding insert_new merge_buf
insert m id entry =
    insert_new (if m.prepared && leb merge_threshold (length m.buf) then merge_buf m else m) id
      entry

-- `none` is a null pointer.
unfoldable pub find : IndexManager → ℕ → Option IndexEntry
unfolding find_sorted contains lookup
find m id = elim (find_sorted m id) [
  | some e ↦ some e
  | none ↦ if contains id m.buf_ids then lookup id m.buf else none
]

unfoldable pub remove : IndexManager → ℕ → IndexManager × Bool
unfolding find_sorted sorted_erase linear_erase lookup at_page set_erase
remove m id = elim (find_sorted m id) [
  | some e ↦ (
    record m {
      entries = sorted_erase id m.entries;
      page_to_ids = at_page e.page_id (set_erase id) m.page_to_ids;
    },
    true,
  )
  | none ↦ elim (lookup id m.buf) [
    | some e ↦ (
      record m {
        buf = linear_erase id m.buf;
        buf_ids = set_erase id m.buf_ids;
        page_to_ids = at_page e.page_id (set_erase id) m.page_to_ids;
      },
      true,
    )
    | none ↦ (m, false)
  ]
]

-- What `update_offset` and `update_slot` share: the entry of the id is changed where it stands.
unfoldable pub change : (IndexEntry → IndexEntry) → IndexManager → ℕ → IndexManager
unfolding find_sorted sorted_change linear_change
change f m id = elim (find_sorted m id) [
  | some _ ↦ record m { entries = sorted_change id f m.entries }
  | none ↦ record m { buf = linear_change id f m.buf }
]

unfoldable pub update_offset : IndexManager → ℕ → ℕ → IndexManager
unfolding change
update_offset m id offset = change (λ e. record e { page_offset = offset }) m id

unfoldable pub update_slot : IndexManager → ℕ → ℕ → IndexManager
unfolding change
update_slot m id slot = change (λ e. record e { row_slot = slot }) m id

unfoldable pub ids_for_page : IndexManager → ℕ → Option (List ℕ)
unfolding page_ids
ids_for_page m page = page_ids page m.page_to_ids

unfoldable pub update_each : ℕ → IndexManager → List ℕ → IndexManager
unfolding update_offset
update_each offset m [] = m
update_each offset m (id ∷ ids) = update_each offset (update_offset m id offset) ids

unfoldable pub update_offsets_for_page : IndexManager → ℕ → ℕ → IndexManager
unfolding ids_for_page update_each
update_offsets_for_page m page offset = elim (ids_for_page m page) [
  | none ↦ m
  | some ids ↦ update_each offset m ids
]

unfoldable pub size : IndexManager → ℕ
size m = length m.entries + length m.buf

unfoldable pub prepare : IndexManager → IndexManager
unfolding merge_buf
prepare m = record (merge_buf m) { prepared = true }
