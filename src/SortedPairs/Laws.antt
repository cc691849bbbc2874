-- ===== src/SortedPairs/Laws.antt =====
-- Lookup after each operation on one vector.
use xdl.Prelude.{ℕ, suc, ◌<◌, ◌≡◌, refl, none, some, List, [], ◌∷◌, All, ◌==◌, if◌then◌else◌, arith}
use xdl.SortedPairs.{
  IndexEntry, Pair, lookup, sorted_find, sorted_erase, sorted_change, linear_erase, linear_change,
}

abbrev pub Below : ℕ → List Pair → Type 0
Below k ps = All (λ (q : Pair). k < q.id) ps

-- Strictly increasing by id.
abbrev pub Sorted : List Pair → Type 0
Sorted [] = Unit
Sorted (p ∷ ps) = Below p.id ps × Sorted ps

-- No id stands twice.
abbrev pub Distinct : List Pair → Type 0
Distinct [] = Unit
Distinct (p ∷ ps) = (lookup p.id ps ≡ none) × Distinct ps

pub Below-lt : (j k : ℕ) (ps : List Pair) → j < k → Below k ps → Below j ps
Below-lt j k [] h b = tt
Below-lt j k (p ∷ ps) h b = (omega arith, Below-lt j k ps h b.1)

-- What is below every id is not found.
pub lookup-Below : (j k : ℕ) (ps : List Pair) → j < suc k → Below k ps → lookup j ps ≡ none
unfolding lookup
lookup-Below j k [] h b = refl
lookup-Below j k (p ∷ ps) h b = ground (arith, lookup-Below j k ps h b.1)

pub sorted_find-lookup : (id : ℕ) (ps : List Pair) → Sorted ps → sorted_find id ps ≡ lookup id ps
unfolding sorted_find lookup
sorted_find-lookup id [] s = refl
sorted_find-lookup id (p ∷ ps) s =
    ground (arith, sorted_find-lookup id ps s.1, lookup-Below id p.id ps)

pub Below-sorted_erase : (k id : ℕ) (ps : List Pair) → Below k ps → Below k (sorted_erase id ps)
unfolding sorted_erase
Below-sorted_erase k id [] b = tt
Below-sorted_erase k id (p ∷ ps) b = ground (arith, Below-sorted_erase k id ps b.1)

pub sorted_erase-Sorted : (id : ℕ) (ps : List Pair) → Sorted ps → Sorted (sorted_erase id ps)
unfolding sorted_erase
sorted_erase-Sorted id [] s = tt
sorted_erase-Sorted id (p ∷ ps) s =
    ground (arith, sorted_erase-Sorted id ps s.1, Below-sorted_erase p.id id ps s.0)

pub lookup-sorted_erase :
    (j id : ℕ) (ps : List Pair) (e : IndexEntry)
    → Sorted ps
    → lookup id ps ≡ some e
    → lookup j (sorted_erase id ps) ≡ (if j == id then none else lookup j ps)
unfolding lookup sorted_erase
lookup-sorted_erase j id [] e s h = cc
lookup-sorted_erase j id (p ∷ ps) e s h =
    ground
      (arith, lookup-sorted_erase j id ps e s.1, lookup-Below j p.id ps, lookup-Below id p.id ps)

module _ (id : ℕ) (f : IndexEntry → IndexEntry) where
  pub Below-sorted_change : (k : ℕ) (ps : List Pair) → Below k ps → Below k (sorted_change id f ps)
  unfolding sorted_change
  Below-sorted_change k [] b = tt
  Below-sorted_change k (p ∷ ps) b = ground (arith, Below-sorted_change k ps b.1)

  pub sorted_change-Sorted : (ps : List Pair) → Sorted ps → Sorted (sorted_change id f ps)
  unfolding sorted_change
  sorted_change-Sorted [] s = tt
  sorted_change-Sorted (p ∷ ps) s =
      ground (arith, sorted_change-Sorted ps s.1, Below-sorted_change p.id ps s.0)

  pub lookup-sorted_change :
      (j : ℕ) (ps : List Pair) (e : IndexEntry)
      → Sorted ps
      → lookup id ps ≡ some e
      → lookup j (sorted_change id f ps) ≡ (if j == id then some (f e) else lookup j ps)
  unfolding lookup sorted_change
  lookup-sorted_change j [] e s h = cc
  lookup-sorted_change j (p ∷ ps) e s h =
      ground (arith, lookup-sorted_change j ps e s.1, lookup-Below id p.id ps)

  pub lookup-linear_change :
      (j : ℕ) (ps : List Pair) (e : IndexEntry)
      → lookup id ps ≡ some e
      → lookup j (linear_change id f ps) ≡ (if j == id then some (f e) else lookup j ps)
  unfolding lookup linear_change
  lookup-linear_change j [] e h = cc
  lookup-linear_change j (p ∷ ps) e h = ground (arith, lookup-linear_change j ps e)

  pub lookup-linear_change-none :
      (j : ℕ) (ps : List Pair) → lookup j ps ≡ none → lookup j (linear_change id f ps) ≡ none
  unfolding lookup linear_change
  lookup-linear_change-none j [] h = refl
  lookup-linear_change-none j (p ∷ ps) h = ground (arith, lookup-linear_change-none j ps)

  pub linear_change-Distinct : (ps : List Pair) → Distinct ps → Distinct (linear_change id f ps)
  unfolding linear_change
  linear_change-Distinct [] d = tt
  linear_change-Distinct (p ∷ ps) d =
      ground (arith, linear_change-Distinct ps d.1, lookup-linear_change-none p.id ps d.0)

pub lookup-linear_erase :
    (j id : ℕ) (ps : List Pair)
    → Distinct ps
    → lookup j (linear_erase id ps) ≡ (if j == id then none else lookup j ps)
unfolding lookup linear_erase
lookup-linear_erase j id [] d = ground arith
lookup-linear_erase j id (p ∷ ps) d = ground (arith, lookup-linear_erase j id ps d.1)

pub lookup-linear_erase-none :
    (j id : ℕ) (ps : List Pair) → lookup j ps ≡ none → lookup j (linear_erase id ps) ≡ none
unfolding lookup linear_erase
lookup-linear_erase-none j id [] h = refl
lookup-linear_erase-none j id (p ∷ ps) h = ground (arith, lookup-linear_erase-none j id ps)

pub linear_erase-Distinct : (id : ℕ) (ps : List Pair) → Distinct ps → Distinct (linear_erase id ps)
unfolding linear_erase
linear_erase-Distinct id [] d = tt
linear_erase-Distinct id (p ∷ ps) d =
    ground (arith, linear_erase-Distinct id ps d.1, lookup-linear_erase-none p.id id ps d.0)
