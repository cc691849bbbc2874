-- ===== src/BpTree/Keyed.antt =====
-- The order of keys, the invariant of a tree, and lookup by a scan.
use Prim.Native.Nat.{Ordering}
use xdl.Prelude.{
  ℕ, ◌≡◌, ◌∙◌, sym, refl, Option, none, some, List, [], ◌∷◌, All, if◌then◌else◌, arith,
}
use xdl.Keys.{bptree_key_compare}
use xdl.Keys.Order.{bptree_key_compare-lex, lex_refl, eq_of_lex, lex_flip, lex_trans, flipped}
use xdl.BpTree.{Entry, is_eq, find_entry, ids_of}

abbrev pub cmp : List ℕ → List ℕ → Ordering
cmp a b = bptree_key_compare a b

module _ (a b : List ℕ) where
  pub cmp_eq : cmp a b ≡ Ordering.eq → a ≡ b
  cmp_eq h = eq_of_lex a b (sym (bptree_key_compare-lex a b) ∙ h)

  pub cmp_flip : cmp b a ≡ flipped (cmp a b)
  cmp_flip = rw (bptree_key_compare-lex b a, bptree_key_compare-lex a b) (lex_flip a b)

  pub cmp_trans :
      (c : List ℕ) → cmp a b ≡ Ordering.lt → cmp b c ≡ Ordering.lt → cmp a c ≡ Ordering.lt
  cmp_trans c h k =
      bptree_key_compare-lex a c
      ∙ lex_trans a b c (sym (bptree_key_compare-lex a b) ∙ h)
          (sym (bptree_key_compare-lex b c) ∙ k)

pub cmp_refl : (a : List ℕ) → cmp a a ≡ Ordering.eq
cmp_refl a = bptree_key_compare-lex a a ∙ lex_refl a

abbrev pub Below : List ℕ → List Entry → Type 0
Below key es = All (λ (e : Entry). cmp key e.key_data ≡ Ordering.lt) es

-- Strictly increasing by key.
abbrev pub Sorted : List Entry → Type 0
Sorted [] = Unit
Sorted (e ∷ es) = Below e.key_data es × Sorted es

-- The ids under a key, by a scan of the whole vector.
unfoldable pub lookup : List ℕ → List Entry → Option (List ℕ)
lookup key [] = none
lookup key (e ∷ es) = if is_eq (cmp e.key_data key) then some e.ids else lookup key es

pub Below-lt : (a b : List ℕ) (es : List Entry) → cmp a b ≡ Ordering.lt → Below b es → Below a es
Below-lt a b [] h k = tt
Below-lt a b (e ∷ es) h k = (cmp_trans a b e.key_data h k.0, Below-lt a b es h k.1)

pub lookup-Below : (key : List ℕ) (es : List Entry) → Below key es → lookup key es ≡ none
unfolding lookup
lookup-Below key [] h = refl
lookup-Below key (e ∷ es) h = ground (arith, lookup-Below key es h.1, cmp_flip key e.key_data)

-- On a sorted vector the binary search finds the entry that a scan finds.
pub find_entry-lookup :
    (key : List ℕ) (es : List Entry) → Sorted es → ids_of (find_entry key es) ≡ lookup key es
unfolding find_entry lookup
find_entry-lookup key [] s = refl
find_entry-lookup key (e ∷ es) s = ground (
  arith,
  find_entry-lookup key es s.1,
  Below-lt key e.key_data es,
  cmp_flip key e.key_data,
  lookup-Below key es,
)
