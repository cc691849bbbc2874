-- ===== src/BpTree/Values.antt =====
-- The secondary index in terms of field values: `find` after `insert` and `erase`.
use xdl.Prelude.{
  ℕ, ◌≡◌, refl, ap, Bool, true, false, Option, none, some, List, Result, ok, if◌then◌else◌, ◌>>=◌,
  ◌&&◌, ◌||◌,
}
use xdl.Schema.{FieldType}
use xdl.Row.{FieldValue}
use xdl.RowCodec.Fields.{FieldFits}
use xdl.Keys.{bptree_key_encode_vec}
use xdl.Keys.Numbers.{value_order, bptree_key_encode_vec-value_order}
use xdl.BpTree.{
  Entry, BpTree, is_lt, is_eq, is_gt, encode_bound, range_scan, add_id, insert_key, erase_key,
  insert, erase, find,
}
use xdl.BpTree.Keyed.{cmp, Sorted, lookup, find_entry-lookup}
use xdl.BpTree.RangeScan.{
  above_key, below_key, above, below, select, scan_keys-select, select-Sorted, lookup-select,
}
use xdl.BpTree.Updates.{ids_or_none, erased_ids, insert_key_lem, erase_key_lem}

module _ (tree : BpTree) (t : FieldType) (s : Sorted tree.entries) where
  find_key :
      (v : FieldValue) (kb : List ℕ)
      → bptree_key_encode_vec v t ≡ ok kb
      → find tree v t ≡ ok (lookup kb tree.entries)
  unfolding find
  find_key v kb e = rw e (ap ok (find_entry-lookup kb tree.entries s))

-- A change of the ids that `find` returned.
abbrev pub mapped :
    (Option (List ℕ) → Option (List ℕ)) → Result (Option (List ℕ)) → Result (Option (List ℕ))
mapped f r = do o ← r; ok (f o)

branch :
    (c : Bool) (f : Option (List ℕ) → Option (List ℕ)) (o p : Option (List ℕ))
    → ◌≡◌ {A = Result (Option (List ℕ))}
        (ok (if c then f o else p))
        (if c then mapped f (ok o) else ok p)
branch true f o p = refl
branch false f o p = refl

pushed_in :
    (c : Bool) (o : Option (List ℕ))
    → ◌≡◌ {A = Result (Option (List ℕ))} (ok (if c then o else none)) (if c then ok o else ok none)
pushed_in true o = refl
pushed_in false o = refl

same_order :
    (t : FieldType) (v w : FieldValue) (a b : List ℕ)
    → FieldFits t v
    → FieldFits t w
    → bptree_key_encode_vec v t ≡ ok a
    → bptree_key_encode_vec w t ≡ ok b
    → cmp a b ≡ value_order v w
same_order t v w a b h k ea eb =
    let (a', b', ea', eb', o) = bptree_key_encode_vec-value_order t v w h k in
    let p : a ≡ a' = cc in let q : b ≡ b' = cc in rw (p, q) o

-- `insert` of a value that fits its field returns a sorted tree in which `find` gives, under the
-- value, the ids that were there with the new one once, and under every other value what it gave.
pub find-insert :
    (tree : BpTree) (t : FieldType) (v w : FieldValue) (id : ℕ)
    → Sorted tree.entries
    → FieldFits t v
    → FieldFits t w
    → (tree' : BpTree) × (insert tree v t id ≡ ok tree')
      × Sorted tree'.entries
      × (find tree' w t ≡ (
          if is_eq (value_order v w)
          then mapped (λ o. some (add_id id (ids_or_none o))) (find tree v t)
          else find tree w t))
find-insert tree t v w id s h k =
    let (a, b, ea, eb, _) = bptree_key_encode_vec-value_order t v w h k in
    let (s', finds) = insert_key_lem a id tree.entries s in
    let tree' = record tree { entries = insert_key a id tree.entries } in
    (
      tree',
      unfold insert in rw ea,
      s',
      rw
          (
            find_key tree' t s' w b eb,
            find_key tree t s w b eb,
            find_key tree t s v a ea,
            ← same_order t v w a b h k ea eb,
            finds b,
          )
          (branch (is_eq (cmp a b)) (λ o. some (add_id id (ids_or_none o))) (lookup a tree.entries)
            (lookup b tree.entries)),
    )

-- `erase` takes the id out of the ids under its value, and the value out of the tree with its last
-- id; under every other value `find` gives what it gave, and the tree stays sorted.
pub find-erase :
    (tree : BpTree) (t : FieldType) (v w : FieldValue) (id : ℕ)
    → Sorted tree.entries
    → FieldFits t v
    → FieldFits t w
    → (tree' : BpTree) × (erase tree v t id ≡ ok tree')
      × Sorted tree'.entries
      × (find tree' w t ≡ (
          if is_eq (value_order v w)
          then mapped (erased_ids id) (find tree v t)
          else find tree w t))
find-erase tree t v w id s h k =
    let (a, b, ea, eb, _) = bptree_key_encode_vec-value_order t v w h k in
    let (s', finds) = erase_key_lem a id tree.entries s in
    let tree' = record tree { entries = erase_key a id tree.entries } in
    (
      tree',
      unfold erase in rw ea,
      s',
      rw
          (
            find_key tree' t s' w b eb,
            find_key tree t s w b eb,
            find_key tree t s v a ea,
            ← same_order t v w a b h k ea eb,
            finds b,
          )
          (branch (is_eq (cmp a b)) (erased_ids id) (lookup a tree.entries)
            (lookup b tree.entries)),
    )

-- Does a value satisfy a bound? An absent bound is satisfied by all.
abbrev pub value_above : Option FieldValue → Bool → FieldValue → Bool
value_above none inclusive w = true
value_above (some lo) inclusive w =
    is_gt (value_order w lo) || (is_eq (value_order w lo) && inclusive)

abbrev pub value_below : Option FieldValue → Bool → FieldValue → Bool
value_below none inclusive w = true
value_below (some hi) inclusive w =
    is_lt (value_order w hi) || (is_eq (value_order w hi) && inclusive)

abbrev pub BoundFits : FieldType → Option FieldValue → Type 0
BoundFits t none = Unit
BoundFits t (some v) = FieldFits t v

-- The key of a bound, against which a key in the vector compares as its value does.
encode_bound-above :
    (t : FieldType) (lo : Option FieldValue) (inclusive : Bool) (w : FieldValue) (kb : List ℕ)
    → BoundFits t lo
    → FieldFits t w
    → bptree_key_encode_vec w t ≡ ok kb
    → (o : Option (List ℕ)) × (encode_bound lo t ≡ ok o)
      × (above_key o inclusive kb ≡ value_above lo inclusive w)
      × (below_key o inclusive kb ≡ value_below lo inclusive w)
encode_bound-above t none inclusive w kb h k e = (none, refl, refl, refl)
encode_bound-above t (some v) inclusive w kb h k e =
    let (a, _, ea, _, _) = bptree_key_encode_vec-value_order t v v h h in
    let same = same_order t w v kb a k h e ea in (some a, rw ea, rw same, rw same)

-- A scan between bounds that fit the field returns sorted entries; in them `find` gives what it
-- gives in the tree for the values that satisfy both bounds, and nothing for the other values.
pub find-range_scan :
    (tree : BpTree) (t : FieldType) (lo : Option FieldValue) (lo_inclusive : Bool)
    (hi : Option FieldValue) (hi_inclusive : Bool) (w : FieldValue)
    → Sorted tree.entries
    → BoundFits t lo
    → BoundFits t hi
    → FieldFits t w
    → (es : List Entry) × (range_scan tree lo t lo_inclusive hi t hi_inclusive ≡ ok es)
      × Sorted es
      × (find (record { entries = es }) w t ≡ (
          if value_above lo lo_inclusive w && value_below hi hi_inclusive w
          then find tree w t
          else ok none))
find-range_scan tree t lo lo_inclusive hi hi_inclusive w s h k f =
    let (kb, _, e, _, _) = bptree_key_encode_vec-value_order t w w f f in
    let (lo', elo, above_w, _) = encode_bound-above t lo lo_inclusive w kb h f e in
    let (hi', ehi, _, below_w) = encode_bound-above t hi hi_inclusive w kb k f e in
    let p : Entry → Bool = λ x. above lo' lo_inclusive x && below hi' hi_inclusive x in
    let q : List ℕ → Bool =
      λ key. above_key lo' lo_inclusive key && below_key hi' hi_inclusive key in
    let es = select p tree.entries in
    let s' = select-Sorted p tree.entries s in
    (
      es,
      unfold range_scan in
          rw (elo, ehi, scan_keys-select lo' lo_inclusive hi' hi_inclusive tree.entries s),
      s',
      rw
          (
            find_key (record { entries = es }) t s' w kb e,
            find_key tree t s w kb e,
            ← above_w,
            ← below_w,
            lookup-select q kb tree.entries,
          )
          (pushed_in (q kb) (lookup kb tree.entries)),
    )
