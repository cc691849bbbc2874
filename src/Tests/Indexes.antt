-- ===== src/Tests/Indexes.antt =====
-- The primary index with two ids, and a secondary index over a number.
use xdl.Prelude.{
  ℕ, ◌≡◌, refl, true, false, none, some, List, [], ◌∷◌, ok, if◌then◌else◌, arith, ◌&&◌,
}
use xdl.Schema.{FieldType}
use xdl.Row.{FieldValue}
use xdl.SortedPairs.{IndexEntry}
use xdl.Index.{IndexManager, empty_index, insert, find, remove, update_offsets_for_page}
use xdl.Index.Valid.{IsValid, on_page, empty_index-IsValid}
use xdl.Index.Insert.{Inserts, insert_lem}
use xdl.Index.Remove.{Removes, remove_lem}
use xdl.Index.Change.{changed}
use xdl.Index.PageOffsets.{moved, update_offsets_for_page_lem}
use xdl.Keys.{bptree_key_compare, bptree_key_encode_vec}
use xdl.Keys.Numbers.{value_order, bptree_key_encode_vec-value_order}
use xdl.BpTree.{Entry, BpTree, add_id, is_eq, range_scan}
use xdl.BpTree as T
use xdl.BpTree.Keyed.{Sorted}
use xdl.BpTree.Updates.{ids_or_none, erased_ids}
use xdl.BpTree.Values.{mapped, value_above, value_below, find-insert, find-erase, find-range_scan}

abbrev place : IndexEntry
place = record { page_id = 2; page_offset = 40; row_slot = 0 }

abbrev index : IndexManager
index = (insert (insert empty_index 9 place).0 4 place).0

index-IsValid : IsValid index
index-IsValid =
    (insert_lem (insert empty_index 9 place).0 4 place
      (insert_lem empty_index 9 place empty_index-IsValid).valid).valid

insert_lem_example : Inserts index 6 place (insert index 6 place)
insert_lem_example = insert_lem index 6 place index-IsValid

remove_lem_example : Removes index 4 (remove index 4)
remove_lem_example = remove_lem index 4 index-IsValid

update_offsets_for_page_lem_example :
    IsValid (update_offsets_for_page index 2 80)
    × ((j : ℕ)
        → find (update_offsets_for_page index 2 80) j
          ≡ (if on_page 2 (find index j) then changed (moved 80) (find index j) else find index j))
update_offsets_for_page_lem_example = update_offsets_for_page_lem index 2 80 index-IsValid

abbrev seven : FieldValue
seven = FieldValue.uint32 7

abbrev nine : FieldValue
nine = FieldValue.uint32 9

abbrev tree : BpTree
tree = record {
  entries =
      record { key_data = 0 ∷ 0 ∷ 0 ∷ 7 ∷ []; ids = 1 ∷ [] }
      ∷ record { key_data = 0 ∷ 0 ∷ 0 ∷ 9 ∷ []; ids = 2 ∷ 5 ∷ [] }
      ∷ [];
}

tree-Sorted : Sorted tree.entries
unfolding bptree_key_compare
tree-Sorted = ((refl, tt), (tt, tt))

find-insert_example :
    (tree' : BpTree) × (T.insert tree seven FieldType.uint32 8 ≡ ok tree')
    × Sorted tree'.entries
    × (T.find tree' nine FieldType.uint32 ≡ (
        if is_eq (value_order seven nine)
        then mapped (λ o. some (add_id 8 (ids_or_none o))) (T.find tree seven FieldType.uint32)
        else T.find tree nine FieldType.uint32))
find-insert_example =
    find-insert tree FieldType.uint32 seven nine 8 tree-Sorted (omega arith) (omega arith)

find-erase_example :
    (tree' : BpTree) × (T.erase tree nine FieldType.uint32 2 ≡ ok tree')
    × Sorted tree'.entries
    × (T.find tree' nine FieldType.uint32 ≡ (
        if is_eq (value_order nine nine)
        then mapped (erased_ids 2) (T.find tree nine FieldType.uint32)
        else T.find tree nine FieldType.uint32))
find-erase_example =
    find-erase tree FieldType.uint32 nine nine 2 tree-Sorted (omega arith) (omega arith)

find-range_scan_example :
    (es : List Entry) × (range_scan tree
        (some seven)
        FieldType.uint32
        false
        none
        FieldType.uint32
        true
      ≡ ok es)
    × Sorted es
    × (T.find (record { entries = es }) nine FieldType.uint32 ≡ (
        if value_above (some seven) false nine && value_below none true nine
        then T.find tree nine FieldType.uint32
        else ok none))
find-range_scan_example =
    find-range_scan tree FieldType.uint32 (some seven) false none true nine tree-Sorted
      (omega arith) tt (omega arith)

bptree_key_encode_vec-value_order_example :
    (a : List ℕ) × (b : List ℕ) × (bptree_key_encode_vec seven FieldType.uint32 ≡ ok a)
    × (bptree_key_encode_vec nine FieldType.uint32 ≡ ok b)
    × (bptree_key_compare a b ≡ value_order seven nine)
bptree_key_encode_vec-value_order_example =
    bptree_key_encode_vec-value_order FieldType.uint32 seven nine (omega arith) (omega arith)
