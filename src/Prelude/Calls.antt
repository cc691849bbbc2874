-- ===== src/Prelude/Calls.antt =====
-- Calls that change a state and may throw: what was changed before the exception stays changed.
use xdl.Prelude.Results.{Result, ok, err, fault}

abbrev pub Call : Type 0 → Type 0 → Type 0
Call S A = S → S × Result A

abbrev pub after_call : {S A B : Type 0} → S × Result A → (A → Call S B) → S × Result B
after_call (s, ok a) k = k a s
after_call (s, err e) k = (s, err e)
after_call (s, fault) k = (s, fault)

infixl 5 ◌>>=◌ ◌>>◌
abbrev pub ◌>>=◌ : {S A B : Type 0} → Call S A → (A → Call S B) → Call S B
(first >>= k) s = after_call (first s) k

abbrev pub ◌>>◌ : {S B : Type 0} → Call S (Unit {0}) → Call S B → Call S B
first >> next = first >>= λ unit. next

abbrev pub return : {S A : Type 0} → A → Call S A
return a s = (s, ok a)

abbrev pub lift : {S A : Type 0} → Result A → Call S A
lift r s = (s, r)
