-- ===== src/SortedPairs/MergeLaws.antt =====
-- `sort` and `merge` keep what is found, and give a sorted vector.
use xdl.Prelude.{ℕ, ◌<◌, ◌≡◌, refl, Option, none, some, List, [], ◌∷◌, ◌==◌, if◌then◌else◌, arith}
use xdl.SortedPairs.{IndexEntry, Pair, lookup, insert_sorted, sort, merge}
use xdl.SortedPairs.Laws.{Below, Sorted, Distinct, Below-lt, lookup-Below}

-- The first of two vectors in which the id is found.
abbrev pub either : Option IndexEntry → Option IndexEntry → Option IndexEntry
either none o = o
either (some e) o = some e

lookup-insert_sorted :
    (j : ℕ) (p : Pair) (ps : List Pair)
    → lookup p.id ps ≡ none
    → lookup j (insert_sorted p ps) ≡ (if p.id == j then some p.entry else lookup j ps)
unfolding lookup insert_sorted
lookup-insert_sorted j p [] h = refl
lookup-insert_sorted j p (q ∷ qs) h = ground (arith, lookup-insert_sorted j p qs)

Below-insert_sorted :
    (k : ℕ) (p : Pair) (ps : List Pair) → k < p.id → Below k ps → Below k (insert_sorted p ps)
unfolding insert_sorted
Below-insert_sorted k p [] h b = (h, tt)
Below-insert_sorted k p (q ∷ qs) h b = ground (arith, Below-insert_sorted k p qs h b.1)

insert_sorted-Sorted :
    (p : Pair) (ps : List Pair) → lookup p.id ps ≡ none → Sorted ps → Sorted (insert_sorted p ps)
unfolding insert_sorted lookup
insert_sorted-Sorted p [] h s = (tt, tt)
insert_sorted-Sorted p (q ∷ qs) h s =
    ground (arith, insert_sorted-Sorted p qs, Below-insert_sorted q.id p qs, Below-lt p.id q.id qs)

-- Sorting a vector in which no id stands twice changes no lookup.
pub lookup-sort : (j : ℕ) (ps : List Pair) → Distinct ps → lookup j (sort ps) ≡ lookup j ps
unfolding sort lookup
lookup-sort j [] d = refl
lookup-sort j (p ∷ ps) d =
    ground
      (arith, lookup-sort j ps d.1, lookup-sort p.id ps d.1, lookup-insert_sorted j p (sort ps))

pub sort-Sorted : (ps : List Pair) → Distinct ps → Sorted (sort ps)
unfolding sort
sort-Sorted [] d = tt
sort-Sorted (p ∷ ps) d =
    insert_sorted-Sorted p (sort ps) (rw (lookup-sort p.id ps d.1) d.0) (sort-Sorted ps d.1)

Below-merge : (k : ℕ) (ps qs : List Pair) → Below k ps → Below k qs → Below k (merge ps qs)
unfolding merge
Below-merge k [] qs b c = c
Below-merge k (p ∷ ps) [] b c = b
Below-merge k (p ∷ ps) (q ∷ qs) b c =
    ground (arith, Below-merge k (p ∷ ps) qs b c.1, Below-merge k ps (q ∷ qs) b.1 c)

-- Merging sorted vectors finds what one of them finds, the first vector first.
pub lookup-merge :
    (j : ℕ) (ps qs : List Pair)
    → Sorted ps
    → Sorted qs
    → lookup j (merge ps qs) ≡ either (lookup j ps) (lookup j qs)
unfolding merge lookup
lookup-merge j [] qs s t = refl
lookup-merge j (p ∷ ps) [] s t = ground arith
lookup-merge j (p ∷ ps) (q ∷ qs) s t = ground (
  arith,
  lookup-merge j (p ∷ ps) qs s t.1,
  lookup-merge j ps (q ∷ qs) s.1 t,
  lookup-Below j p.id ps,
)

-- No id stands in both vectors.
abbrev pub Apart : List Pair → List Pair → Type 0
Apart ps [] = Unit
Apart ps (q ∷ qs) = (lookup q.id ps ≡ none) × Apart ps qs

Apart-tail : (p : Pair) (ps qs : List Pair) → Apart (p ∷ ps) qs → Apart ps qs
unfolding lookup
Apart-tail p ps [] a = tt
Apart-tail p ps (q ∷ qs) a = (ground arith, Apart-tail p ps qs a.1)

pub merge-Sorted : (ps qs : List Pair) → Sorted ps → Sorted qs → Apart ps qs → Sorted (merge ps qs)
unfolding merge lookup
merge-Sorted [] qs s t a = t
merge-Sorted (p ∷ ps) [] s t a = s
merge-Sorted (p ∷ ps) (q ∷ qs) s t a = ground (
  arith,
  merge-Sorted (p ∷ ps) qs s t.1 a.1,
  merge-Sorted ps (q ∷ qs) s.1 t (Apart-tail p ps (q ∷ qs) a),
  Below-merge q.id (p ∷ ps) qs,
  Below-merge p.id ps (q ∷ qs),
  Below-lt q.id p.id ps,
  Below-lt p.id q.id qs,
)
