-- ===== src/BpTree.antt =====
-- `BPTree` of include/xdl/bptree.h and src/bptree.cpp: a secondary index, which is a vector of
-- entries sorted by key; an entry has the ids of the rows with the key.
pub mod Keyed
pub mod Values
pub mod RangeScan
pub mod Updates
use Prim.Native.Nat.{Ordering}
use xdl.Prelude.{
  ℕ, zero, suc, ◌+◌, Bool, true, false, Option, none, some, List, [], ◌∷◌, ◌++◌, Result, ok,
  get_elem?, drop, erase_at, if◌then◌else◌, ◌&&◌, ◌||◌, not, ◌>>=◌,
}
use xdl.Schema.{FieldType}
use xdl.Row.{FieldValue}
use xdl.Index.{contains, set_erase}
use xdl.Keys.{bptree_key_compare, bptree_key_encode_vec}

pub record Entry : Type 0 where
  pub key_data : List ℕ
  pub ids : List ℕ

pub record BpTree : Type 0 where
  pub entries : List Entry

abbrev pub empty_tree : BpTree
empty_tree = record { entries = [] }

abbrev pub is_lt : Ordering → Bool
is_lt Ordering.lt = true
is_lt _ = false

abbrev pub is_eq : Ordering → Bool
is_eq Ordering.eq = true
is_eq _ = false

abbrev pub is_gt : Ordering → Bool
is_gt Ordering.gt = true
is_gt _ = false

abbrev pub set_ids_at : ℕ → List ℕ → List Entry → List Entry
set_ids_at i ids [] = []
set_ids_at zero ids (e ∷ es) = record e { ids = ids } ∷ es
set_ids_at (suc i) ids (e ∷ es) = e ∷ set_ids_at i ids es

-- `entries_.insert(it, e)`.
abbrev pub insert_at : ℕ → Entry → List Entry → List Entry
insert_at zero e es = e ∷ es
insert_at (suc i) e [] = e ∷ []
insert_at (suc i) e (f ∷ es) = f ∷ insert_at i e es

-- `std::lower_bound` on the sorted vector, as a position.
unfoldable pub lower_bound : List ℕ → List Entry → ℕ
lower_bound key [] = 0
lower_bound key (e ∷ es) =
    if is_lt (bptree_key_compare e.key_data key) then suc (lower_bound key es) else 0

abbrev entry_if : List ℕ → Option Entry → Option Entry
entry_if key none = none
entry_if key (some e) = if is_eq (bptree_key_compare e.key_data key) then some e else none

unfoldable pub find_entry : List ℕ → List Entry → Option Entry
unfolding lower_bound
find_entry key es = entry_if key (get_elem? es (lower_bound key es))

-- `ids.push_back(row_id)` unless it is there.
unfoldable pub add_id : ℕ → List ℕ → List ℕ
add_id id ids = if contains id ids then ids else ids ++ id ∷ []

unfoldable pub insert_key : List ℕ → ℕ → List Entry → List Entry
insert_key key id es = elim (find_entry key es) [
  | some e ↦ set_ids_at (lower_bound key es) (add_id id e.ids) es
  | none ↦ insert_at (lower_bound key es) (record { key_data = key; ids = id ∷ [] }) es
]

-- The entry without the id, or no entry if no id is left.
abbrev pub drop_or_set : ℕ → List ℕ → List Entry → List Entry
drop_or_set i [] es = erase_at es i
drop_or_set i (id ∷ ids) es = set_ids_at i (id ∷ ids) es

unfoldable pub erase_key : List ℕ → ℕ → List Entry → List Entry
erase_key key id es = elim (find_entry key es) [
  | none ↦ es
  | some e ↦ drop_or_set (lower_bound key es) (set_erase id e.ids) es
]

unfoldable pub insert : BpTree → FieldValue → FieldType → ℕ → Result BpTree
unfolding insert_key find_entry
insert tree key type row_id = do
  kb ← bptree_key_encode_vec key type
  ok (record tree { entries = insert_key kb row_id tree.entries })

unfoldable pub erase : BpTree → FieldValue → FieldType → ℕ → Result BpTree
unfolding erase_key find_entry
erase tree key type row_id = do
  kb ← bptree_key_encode_vec key type
  ok (record tree { entries = erase_key kb row_id tree.entries })

abbrev pub ids_of : Option Entry → Option (List ℕ)
ids_of none = none
ids_of (some e) = some e.ids

-- `none` is a null pointer.
unfoldable pub find : BpTree → FieldValue → FieldType → Result (Option (List ℕ))
unfolding find_entry
find tree key type = do
  kb ← bptree_key_encode_vec key type
  ok (ids_of (find_entry kb tree.entries))

abbrev skip_equal : Bool → ℕ → Option Entry → ℕ
skip_equal inclusive i none = i
skip_equal inclusive i (some _) = if inclusive then i else suc i

-- Where `range_scan` starts: an exclusive bound skips the entry with that key.
unfoldable pub scan_start : Option (List ℕ) → Bool → List Entry → ℕ
unfolding find_entry
scan_start none inclusive es = 0
scan_start (some lo) inclusive es = skip_equal inclusive (lower_bound lo es) (find_entry lo es)

-- Does the upper bound stop the loop at this key?
abbrev pub stops : Option (List ℕ) → Bool → List ℕ → Bool
stops none inclusive key = false
stops (some hi) inclusive key =
    is_gt (bptree_key_compare key hi) || (is_eq (bptree_key_compare key hi) && not inclusive)

-- The loop of `range_scan`: the entries that the visitor is called on.
unfoldable pub scan_loop : Option (List ℕ) → Bool → List Entry → List Entry
scan_loop hi inclusive [] = []
scan_loop hi inclusive (e ∷ es) =
    let rest = scan_loop hi inclusive es in if stops hi inclusive e.key_data then [] else e ∷ rest

unfoldable pub scan_keys : Option (List ℕ) → Bool → Option (List ℕ) → Bool → List Entry → List Entry
unfolding scan_start scan_loop
scan_keys lo lo_inclusive hi hi_inclusive es =
    scan_loop hi hi_inclusive (drop (scan_start lo lo_inclusive es) es)

-- The key of a bound that is given.
abbrev pub encode_bound : Option FieldValue → FieldType → Result (Option (List ℕ))
encode_bound none type = ok none
encode_bound (some v) type = do kb ← bptree_key_encode_vec v type; ok (some kb)

unfoldable pub range_scan :
    BpTree
    → Option FieldValue
    → FieldType
    → Bool
    → Option FieldValue
    → FieldType
    → Bool
    → Result (List Entry)
unfolding scan_keys
range_scan tree lo lo_type lo_inclusive hi hi_type hi_inclusive = do
  lo_kb ← encode_bound lo lo_type
  hi_kb ← encode_bound hi hi_type
  ok (scan_keys lo_kb lo_inclusive hi_kb hi_inclusive tree.entries)
