-- ===== src/WalFormat/Rounds.antt =====
-- The loop of `replay` ends.
use xdl.Prelude.{
  ℕ, zero, suc, ◌-◌, ◌≤◌, ◌<◌, ◌≡◌, ◌∙◌, sym, refl, ap, Bool, true, false, Option, none, some, List,
  [], ◌∷◌, length, drop, ltb, if◌then◌else◌, arith,
}
use xdl.WalFormat.Logs.{length-drop}
use xdl.WalFormat.{WalRecord, word_at, parse_body, parse_record, parse_loop}

passed :
    {A : Type 0} (a b c : Bool) (found x : A)
    → (if a then none else if b then none else if c then some found else none) ≡ some x
    → (a ≡ false) × (found ≡ x)
passed true b c found x h = cc
passed false true c found x h = cc
passed false false true found x h = (refl, cc)
passed false false false found x h = cc

-- A round that goes on takes some bytes.
parse_record-shorter :
    (bytes : List ℕ) (r : WalRecord) (rest : List ℕ)
    → parse_record bytes ≡ some (r, rest)
    → length rest < length bytes
unfolding parse_record
parse_record-shorter bytes r rest h =
    let taken = word_at 4 bytes - 4 in
    let (enough, found) =
      passed (ltb (length bytes) 8) _ _
        (parse_body (word_at 4 bytes) (drop 8 bytes), drop taken (drop 8 bytes)) (r, rest) h in
    let left : length (drop taken (drop 8 bytes)) ≡ length rest = ap (λ x. length x.1) found in
    let long : 8 ≤ length bytes = ground arith in
    omega (arith, length-drop taken (drop 8 bytes), length-drop 8 bytes)

nothing_left : (fuel : ℕ) → parse_loop fuel [] ≡ []
unfolding parse_loop parse_record
nothing_left zero = refl
nothing_left (suc fuel) = refl

same_loop :
    (m n : ℕ) (bytes : List ℕ)
    → length bytes ≤ m
    → length bytes ≤ n
    → parse_loop m bytes ≡ parse_loop n bytes
unfolding parse_loop
same_loop m n [] h k = nothing_left m ∙ sym (nothing_left n)
same_loop zero n (b ∷ bytes) h k = absurd (omega arith)
same_loop (suc m) zero (b ∷ bytes) h k = absurd (omega arith)
same_loop (suc m) (suc n) (b ∷ bytes) h k =
    split (parse_record (b ∷ bytes)) refl
      (λ rest less. same_loop m n rest (omega arith) (omega arith))
  where
    split :
        (o : Option (WalRecord × List ℕ))
        → parse_record (b ∷ bytes) ≡ o
        → ((rest : List ℕ)
            → length rest < length (b ∷ bytes)
            → parse_loop m rest ≡ parse_loop n rest)
        → elim o as (λ _. List WalRecord) [ none ↦ [] | some (r, rest) ↦ r ∷ parse_loop m rest ]
          ≡ elim o as (λ _. List WalRecord) [ none ↦ [] | some (r, rest) ↦ r ∷ parse_loop n rest ]
    split none e ih = refl
    split (some (r, rest)) e ih = ap (◌∷◌ r) (ih rest (parse_record-shorter (b ∷ bytes) r rest e))

-- The loop ends after as many rounds as there are bytes: with any larger bound on the rounds it
-- returns the same records.
pub parse_loop_enough :
    (fuel : ℕ) (bytes : List ℕ)
    → length bytes ≤ fuel
    → parse_loop fuel bytes ≡ parse_loop (length bytes) bytes
parse_loop_enough fuel bytes h = same_loop fuel (length bytes) bytes h (omega arith)
