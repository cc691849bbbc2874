-- ===== src/Keys/Order.antt =====
-- The order on keys is the lexicographic order of byte strings.
use Prim.Native.Nat.{compare, Ordering}
use xdl.Prelude.{ℕ, suc, min, ◌≡◌, refl, ap, List, [], ◌∷◌, length, arith}
use xdl.Keys.{then_by, bptree_key_compare}

-- The lexicographic order; a proper prefix comes first.
unfoldable pub lex : List ℕ → List ℕ → Ordering
lex [] [] = Ordering.eq
lex [] (y ∷ b) = Ordering.lt
lex (x ∷ a) [] = Ordering.gt
lex (x ∷ a) (y ∷ b) = then_by (compare x y) (lex a b)

then_by_assoc : (o p q : Ordering) → then_by (then_by o p) q ≡ then_by o (then_by p q)
then_by_assoc Ordering.lt p q = refl
then_by_assoc Ordering.eq p q = refl
then_by_assoc Ordering.gt p q = refl

compare-suc : (a b : ℕ) → compare (suc a) (suc b) ≡ compare a b
compare-suc a b = ground arith

min-suc : (a b : ℕ) → min (suc a) (suc b) ≡ suc (min a b)
min-suc a b = omega arith

-- `bptree_key_compare` is the lexicographic order.
pub bptree_key_compare-lex : (a b : List ℕ) → bptree_key_compare a b ≡ lex a b
unfolding bptree_key_compare lex
bptree_key_compare-lex [] [] = refl
bptree_key_compare-lex [] (y ∷ b) = ground arith
bptree_key_compare-lex (x ∷ a) [] = ground arith
bptree_key_compare-lex (x ∷ a) (y ∷ b) =
    rw (min-suc (length a) (length b), then_by_assoc, compare-suc (length a) (length b))
      (ap (then_by (compare x y)) (bptree_key_compare-lex a b))

pub lex_refl : (a : List ℕ) → lex a a ≡ Ordering.eq
unfolding lex
lex_refl [] = refl
lex_refl (x ∷ a) = ground (arith, lex_refl a)

pub eq_of_lex : (a b : List ℕ) → lex a b ≡ Ordering.eq → a ≡ b
unfolding lex
eq_of_lex [] [] h = refl
eq_of_lex (x ∷ a) (y ∷ b) h = ground (arith, eq_of_lex a b)
eq_of_lex [] (y ∷ b) h = cc
eq_of_lex (x ∷ a) [] h = cc

abbrev pub flipped : Ordering → Ordering
flipped Ordering.lt = Ordering.gt
flipped Ordering.eq = Ordering.eq
flipped Ordering.gt = Ordering.lt

pub lex_flip : (a b : List ℕ) → lex b a ≡ flipped (lex a b)
unfolding lex
lex_flip [] [] = refl
lex_flip (x ∷ a) (y ∷ b) = ground (arith, lex_flip a b)
lex_flip [] (y ∷ b) = refl
lex_flip (x ∷ a) [] = refl

pub lex_trans :
    (a b c : List ℕ) → lex a b ≡ Ordering.lt → lex b c ≡ Ordering.lt → lex a c ≡ Ordering.lt
unfolding lex
lex_trans [] [] c h k = cc
lex_trans [] (y ∷ b) [] h k = cc
lex_trans [] (y ∷ b) (z ∷ c) h k = refl
lex_trans (x ∷ a) [] c h k = cc
lex_trans (x ∷ a) (y ∷ b) [] h k = cc
lex_trans (x ∷ a) (y ∷ b) (z ∷ c) h k =
    ground (arith, lex_trans a b c, eq_of_lex a b, eq_of_lex b c)
