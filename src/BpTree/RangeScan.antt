-- ===== src/BpTree/RangeScan.antt =====
-- `range_scan` visits exactly the entries in the range, in key order.
use xdl.Prelude.{
  ℕ, zero, suc, ◌≡◌, ◌∙◌, sym, refl, ap, Bool, true, Option, none, some, List, [], ◌∷◌, drop,
  if◌then◌else◌, arith, ◌&&◌, ◌||◌,
}
use xdl.BpTree.{
  Entry, is_lt, is_eq, is_gt, lower_bound, find_entry, scan_start, stops, scan_loop, scan_keys,
}
use xdl.BpTree.Keyed.{cmp, cmp_eq, cmp_flip, cmp_trans, Below, Sorted, lookup, Below-lt}

-- The entries that pass a test, in order.
unfoldable pub select : (Entry → Bool) → List Entry → List Entry
select p [] = []
select p (e ∷ es) = let rest = select p es in if p e then e ∷ rest else rest

-- The lower bound: greater keys pass, and the key itself if the bound is inclusive.
abbrev pub above_key : Option (List ℕ) → Bool → List ℕ → Bool
above_key none inclusive key = true
above_key (some lo) inclusive key = is_gt (cmp key lo) || (is_eq (cmp key lo) && inclusive)

abbrev pub above : Option (List ℕ) → Bool → Entry → Bool
above lo inclusive e = above_key lo inclusive e.key_data

abbrev pub below_key : Option (List ℕ) → Bool → List ℕ → Bool
below_key none inclusive key = true
below_key (some hi) inclusive key = is_lt (cmp key hi) || (is_eq (cmp key hi) && inclusive)

abbrev pub below : Option (List ℕ) → Bool → Entry → Bool
below hi inclusive e = below_key hi inclusive e.key_data

select_all : (es : List Entry) → select (λ e. true) es ≡ es
unfolding select
select_all [] = refl
select_all (e ∷ es) = ap (◌∷◌ e) (select_all es)

select-above-Below :
    (lo : List ℕ) (inclusive : Bool) (es : List Entry)
    → Below lo es
    → select (above (some lo) inclusive) es ≡ es
unfolding select
select-above-Below lo inclusive [] h = refl
select-above-Below lo inclusive (e ∷ es) h =
    ground (arith, select-above-Below lo inclusive es h.1, cmp_flip lo e.key_data)

-- Dropping what stands before the start leaves the entries above the lower bound.
drop-scan_start :
    (lo : List ℕ) (inclusive : Bool) (es : List Entry)
    → Sorted es
    → drop (scan_start (some lo) inclusive es) es ≡ select (above (some lo) inclusive) es
unfolding scan_start find_entry lower_bound select
drop-scan_start lo inclusive [] s = ground arith
drop-scan_start lo inclusive (e ∷ es) s = ground (
  arith,
  drop-scan_start lo inclusive es s.1,
  cmp_eq e.key_data lo,
  cmp_flip lo e.key_data,
  Below-lt lo e.key_data es,
  select-above-Below lo inclusive es,
)

Below-drop : (b : List ℕ) (n : ℕ) (es : List Entry) → Below b es → Below b (drop n es)
Below-drop b zero es h = h
Below-drop b (suc n) [] h = tt
Below-drop b (suc n) (e ∷ es) h = Below-drop b n es h.1

drop-Sorted : (n : ℕ) (es : List Entry) → Sorted es → Sorted (drop n es)
drop-Sorted zero es s = s
drop-Sorted (suc n) [] s = tt
drop-Sorted (suc n) (e ∷ es) s = drop-Sorted n es s.1

-- Behind a key that the upper bound excludes nothing is in range.
select-below-Below :
    (hi key : List ℕ) (inclusive : Bool) (es : List Entry)
    → stops (some hi) inclusive key ≡ true
    → Below key es
    → select (below (some hi) inclusive) es ≡ []
unfolding select
select-below-Below hi key inclusive [] h b = refl
select-below-Below hi key inclusive (e ∷ es) h b = ground (
  arith,
  select-below-Below hi key inclusive es h b.1,
  cmp_trans key e.key_data hi,
  cmp_eq e.key_data hi,
  cmp_eq key hi,
  cmp_flip key e.key_data,
)

scan_loop-select :
    (hi : Option (List ℕ)) (inclusive : Bool) (es : List Entry)
    → Sorted es
    → scan_loop hi inclusive es ≡ select (below hi inclusive) es
unfolding scan_loop select
scan_loop-select none inclusive [] s = refl
scan_loop-select none inclusive (e ∷ es) s = ground (arith, scan_loop-select none inclusive es s.1)
scan_loop-select (some hi) inclusive [] s = refl
scan_loop-select (some hi) inclusive (e ∷ es) s = ground (
  arith,
  scan_loop-select (some hi) inclusive es s.1,
  select-below-Below hi e.key_data inclusive es,
)

select-select :
    (p q : Entry → Bool) (es : List Entry) → select p (select q es) ≡ select (λ e. q e && p e) es
unfolding select
select-select p q [] = refl
select-select p q (e ∷ es) = ground (arith, select-select p q es)

drop_start :
    (lo : Option (List ℕ)) (inclusive : Bool) (es : List Entry)
    → Sorted es
    → drop (scan_start lo inclusive es) es ≡ select (above lo inclusive) es
drop_start none inclusive es s = unfold scan_start in sym (select_all es)
drop_start (some lo) inclusive es s = drop-scan_start lo inclusive es s

-- On a sorted vector the scan visits, in key order, exactly the entries whose keys lie in the range
-- given by the bounds, each of which may be absent, inclusive or exclusive.
pub scan_keys-select :
    (lo : Option (List ℕ)) (lo_inclusive : Bool) (hi : Option (List ℕ)) (hi_inclusive : Bool)
    (es : List Entry)
    → Sorted es
    → scan_keys lo lo_inclusive hi hi_inclusive es
      ≡ select (λ e. above lo lo_inclusive e && below hi hi_inclusive e) es
unfolding scan_keys
scan_keys-select lo lo_inclusive hi hi_inclusive es s =
    scan_loop-select hi hi_inclusive (drop (scan_start lo lo_inclusive es) es)
      (drop-Sorted (scan_start lo lo_inclusive es) es s)
    ∙ ap (select (below hi hi_inclusive)) (drop_start lo lo_inclusive es s)
    ∙ select-select (below hi hi_inclusive) (above lo lo_inclusive) es

select-Below :
    (p : Entry → Bool) (key : List ℕ) (es : List Entry) → Below key es → Below key (select p es)
unfolding select
select-Below p key [] h = tt
select-Below p key (e ∷ es) h = ground (arith, select-Below p key es h.1)

pub select-Sorted : (p : Entry → Bool) (es : List Entry) → Sorted es → Sorted (select p es)
unfolding select
select-Sorted p [] s = tt
select-Sorted p (e ∷ es) s = ground (arith, select-Sorted p es, select-Below p e.key_data es)

-- Choosing by the key keeps what is found under the keys that are chosen.
pub lookup-select :
    (q : List ℕ → Bool) (key : List ℕ) (es : List Entry)
    → lookup key (select (λ e. q e.key_data) es) ≡ (if q key then lookup key es else none)
unfolding select lookup
lookup-select q key [] = ground arith
lookup-select q key (e ∷ es) = ground (arith, lookup-select q key es, cmp_eq e.key_data key)
