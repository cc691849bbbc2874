-- ===== src/Page/Buffer.antt =====
-- What the buffer operations of a page do to a buffer that is cut at the row in question.
use xdl.Prelude.{
  ℕ, zero, suc, ◌+◌, ◌-◌, ◌%◌, ◌^◌, ◌≤◌, ◌<◌, ◌≡◌, refl, ap, List, [], ◌∷◌, ◌++◌, ok, length,
  length-append, length-replicate, take, drop, replicate, erase_at, append-nil, take-append_self,
  drop-append_self, drop-append_more, le→leb, arith,
}
use xdl.Page.{resize, write_at, erase_range, shift_offsets}
use xdl.Page.Holds.{concat, starts}

take_of_length-le : (n : ℕ) (xs : List ℕ) → length xs ≤ n → take n xs ≡ xs
take_of_length-le (suc n) (b ∷ bs) enough = ap (◌∷◌ b) (take_of_length-le n bs (omega arith))
take_of_length-le (suc n) [] enough = refl
take_of_length-le zero (b ∷ bs) enough = absurd (omega arith)
take_of_length-le zero [] enough = refl

drop_of_length-le : (n : ℕ) (xs : List ℕ) → length xs ≤ n → drop n xs ≡ []
drop_of_length-le zero [] h = refl
drop_of_length-le zero (x ∷ xs) h = absurd (omega arith)
drop_of_length-le (suc n) [] h = refl
drop_of_length-le (suc n) (x ∷ xs) h = drop_of_length-le n xs (omega arith)

-- Growing a buffer by the size of `c` and writing `c` behind the old end appends `c`.
pub write_at-resize :
    (b c : List ℕ) → write_at (resize b (length b + length c)) (length b) c ≡ ok (b ++ c)
unfolding write_at resize
write_at-resize b c = rw (
  take_of_length-le (length b + length c) b (omega arith),
  le→leb (length b + length c) _ fits,
  take-append_self b pad,
  drop_of_length-le (length b + length c) (b ++ pad) tight,
  append-nil c,
)
  where
    pad : List ℕ
    pad = replicate (length b + length c - length b) 0

    length_pad : length pad ≡ length c
    length_pad = omega (arith, length-replicate {0} {A = ℕ} (length b + length c - length b) 0)

    fits : length b + length c ≤ length (b ++ pad)
    fits = omega (arith, length-append b pad, length_pad)

    tight : length (b ++ pad) ≤ length b + length c
    tight = omega (arith, length-append b pad, length_pad)

-- Erasing the middle of a buffer joins what stands before it and behind it.
pub erase_range_middle :
    (a c d : List ℕ) → erase_range (a ++ (c ++ d)) (length a) (length c) ≡ ok (a ++ d)
unfolding erase_range
erase_range_middle a c d = rw (
  le→leb (length a + length c) (length (a ++ (c ++ d)))
      (omega (arith, length-append a (c ++ d), length-append c d)),
  take-append_self a (c ++ d),
  drop-append_more a (c ++ d) (length c),
  drop-append_self c d,
)

pub erase_at-append {ℓ} :
    {A : Type ℓ} (xs : List A) (y : A) (ys : List A)
    → erase_at (xs ++ y ∷ ys) (length xs) ≡ xs ++ ys
erase_at-append [] y ys = refl
erase_at-append (x ∷ xs) y ys = ap (◌∷◌ x) (erase_at-append xs y ys)

shift_tail :
    (k total : ℕ) (bs : List (List ℕ))
    → k + total + length (concat bs) < 2 ^ 32
    → shift_offsets zero (length bs) total (starts (k + total) bs) ≡ ok (starts k bs)
unfolding shift_offsets starts concat
shift_tail k total [] h = refl
shift_tail k total (b ∷ bs) h = rw (comm, shift_tail (k + length b) total bs small, back)
  where
    comm : k + total + length b ≡ k + length b + total
    comm = omega arith

    small : k + length b + total + length (concat bs) < 2 ^ 32
    small = omega (arith, length-append b (concat bs))

    back : (k + total + 2 ^ 32 - total) % 2 ^ 32 ≡ k
    back = omega arith

shift_skip :
    (n total : ℕ) (xs ys zs : List ℕ)
    → shift_offsets zero n total ys ≡ ok zs
    → shift_offsets (length xs) n total (xs ++ ys) ≡ ok (xs ++ zs)
unfolding shift_offsets
shift_skip n total [] ys zs h = h
shift_skip zero total (x ∷ xs) ys zs h = ap (λ (l : List ℕ). ok (x ∷ (xs ++ l))) (same ys zs h)
  where
    same : (us vs : List ℕ) → shift_offsets zero zero total us ≡ ok vs → us ≡ vs
    same [] vs e = cc
    same (u ∷ us) vs e = cc
shift_skip (suc n) total (x ∷ xs) ys zs h = rw (shift_skip (suc n) total xs ys zs h)

-- After a chunk is cut out, taking its length off the later offsets gives the offsets of the rest.
pub shift_offsets-starts :
    (total : ℕ) (before after : List (List ℕ)) (k : ℕ)
    → k + total + length (concat after) < 2 ^ 32
    → (front : List ℕ) → length front ≡ length before
    → shift_offsets (length before) (length after) total (front ++ starts (k + total) after)
      ≡ ok (front ++ starts k after)
shift_offsets-starts total before after k h front e =
    rw (← e) (shift_skip (length after) total front _ _ (shift_tail k total after h))
