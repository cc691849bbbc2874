-- ===== src/Storage/Ranges.antt =====
-- Reads and writes of ranges of the file: what was written is read back, and a write changes no
-- range beside its own.
use xdl.Prelude.{
  ℕ, zero, suc, ◌+◌, ◌≤◌, ◌<◌, ◌≡◌, ◌∙◌, sym, refl, ap, false, Option, none, some, List, [], ◌∷◌,
  ◌++◌, Result, ok, err, io_error, length, length-append, drop, ◌==◌, arith, Bool-cases, inl, inr,
  ◌⊎◌,
}
use xdl.WalFormat.Logs.{length-drop}
use xdl.Storage.{take_exactly, overwrite, write_at, safe_pread, safe_pwrite}

take_exactly-overwrite : (bs disk : List ℕ) → take_exactly (length bs) (overwrite bs disk) ≡ some bs
unfolding take_exactly overwrite
take_exactly-overwrite [] disk = refl
take_exactly-overwrite (b ∷ bs) [] = rw (take_exactly-overwrite bs [])
take_exactly-overwrite (b ∷ bs) (x ∷ disk) = rw (take_exactly-overwrite bs disk)

take_exactly-write_at :
    (offset : ℕ) (bs disk : List ℕ)
    → take_exactly (length bs) (drop offset (write_at offset bs disk)) ≡ some bs
unfolding write_at
take_exactly-write_at zero bs disk = take_exactly-overwrite bs disk
take_exactly-write_at (suc offset) bs [] = take_exactly-write_at offset bs []
take_exactly-write_at (suc offset) bs (x ∷ disk) = take_exactly-write_at offset bs disk

-- The two parts of what is written.
take_exactly_front :
    (xs ys disk : List ℕ) → take_exactly (length xs) (overwrite (xs ++ ys) disk) ≡ some xs
unfolding take_exactly overwrite
take_exactly_front [] ys disk = refl
take_exactly_front (x ∷ xs) ys [] = rw (take_exactly_front xs ys [])
take_exactly_front (x ∷ xs) ys (d ∷ disk) = rw (take_exactly_front xs ys disk)

take_exactly_back :
    (xs ys disk : List ℕ)
    → take_exactly (length ys) (drop (length xs) (overwrite (xs ++ ys) disk)) ≡ some ys
unfolding overwrite
take_exactly_back [] ys disk = take_exactly-overwrite ys disk
take_exactly_back (x ∷ xs) ys [] = take_exactly_back xs ys []
take_exactly_back (x ∷ xs) ys (d ∷ disk) = take_exactly_back xs ys disk

front_written :
    (offset : ℕ) (xs ys disk : List ℕ)
    → take_exactly (length xs) (drop offset (write_at offset (xs ++ ys) disk)) ≡ some xs
unfolding write_at
front_written zero xs ys disk = take_exactly_front xs ys disk
front_written (suc offset) xs ys [] = front_written offset xs ys []
front_written (suc offset) xs ys (d ∷ disk) = front_written offset xs ys disk

back_written :
    (n offset : ℕ) (xs ys disk : List ℕ)
    → n ≡ offset + length xs
    → take_exactly (length ys) (drop n (write_at offset (xs ++ ys) disk)) ≡ some ys
unfolding write_at
back_written n zero xs ys disk h =
    let e : n ≡ length xs = omega arith in rw e (take_exactly_back xs ys disk)
back_written zero (suc offset) xs ys disk h = absurd (omega arith)
back_written (suc n) (suc offset) xs ys [] h = back_written n offset xs ys [] (omega arith)
back_written (suc n) (suc offset) xs ys (d ∷ disk) h =
    back_written n offset xs ys disk (omega arith)

-- Behind the bytes written.
drop-overwrite :
    (n : ℕ) (bs disk : List ℕ) → length bs ≤ n → drop n (overwrite bs disk) ≡ drop n disk
unfolding overwrite
drop-overwrite n [] disk h = refl
drop-overwrite zero (b ∷ bs) disk h = absurd (omega arith)
drop-overwrite (suc n) (b ∷ bs) [] h = drop-overwrite n bs [] (omega arith) ∙ drop_nil n
  where
    drop_nil : (k : ℕ) → ◌≡◌ {A = List ℕ} (drop k []) []
    drop_nil zero = refl
    drop_nil (suc k) = refl
drop-overwrite (suc n) (b ∷ bs) (x ∷ disk) h = drop-overwrite n bs disk (omega arith)

drop-write_at :
    (n offset : ℕ) (bs disk : List ℕ)
    → offset + length bs ≤ n
    → drop n (write_at offset bs disk) ≡ drop n disk
unfolding write_at
drop-write_at n zero bs disk h = drop-overwrite n bs disk (omega arith)
drop-write_at zero (suc offset) bs disk h = absurd (omega arith)
drop-write_at (suc n) (suc offset) bs [] h = drop-write_at n offset bs [] (omega arith) ∙ drop_nil n
  where
    drop_nil : (k : ℕ) → ◌≡◌ {A = List ℕ} (drop k []) []
    drop_nil zero = refl
    drop_nil (suc k) = refl
drop-write_at (suc n) (suc offset) bs (x ∷ disk) h = drop-write_at n offset bs disk (omega arith)

-- In front of the bytes written.
take_exactly-before :
    (n offset : ℕ) (bs disk : List ℕ)
    → n ≤ offset
    → n ≤ length disk
    → take_exactly n (write_at offset bs disk) ≡ take_exactly n disk
unfolding take_exactly write_at
take_exactly-before zero offset bs disk h k = refl
take_exactly-before (suc n) zero bs disk h k = absurd (omega arith)
take_exactly-before (suc n) (suc offset) bs [] h k = absurd (omega arith)
take_exactly-before (suc n) (suc offset) bs (x ∷ disk) h k =
    rw (take_exactly-before n offset bs disk (omega arith) (omega arith))

range_before :
    (n start offset : ℕ) (bs disk : List ℕ)
    → start + n ≤ offset
    → start + n ≤ length disk
    → take_exactly n (drop start (write_at offset bs disk)) ≡ take_exactly n (drop start disk)
unfolding write_at
range_before n zero offset bs disk h k =
    take_exactly-before n offset bs disk (omega arith) (omega arith)
range_before n (suc start) zero bs disk h k = absurd (omega arith)
range_before n (suc start) (suc offset) bs [] h k = absurd (omega arith)
range_before n (suc start) (suc offset) bs (x ∷ disk) h k =
    range_before n start offset bs disk (omega arith) (omega arith)

take_exactly-length :
    (n : ℕ) (disk bs : List ℕ) → take_exactly n disk ≡ some bs → (n ≤ length disk) × (length bs ≡ n)
unfolding take_exactly
take_exactly-length zero disk bs h = (omega arith, ground arith)
take_exactly-length (suc n) [] bs h = cc
take_exactly-length (suc n) (x ∷ disk) bs h =
    split (take_exactly n disk) (take_exactly-length n disk) h
  where
    split :
        (o : Option (List ℕ))
        → ((ds : List ℕ) → o ≡ some ds → (n ≤ length disk) × (length ds ≡ n))
        → elim o [ none ↦ none | some ds ↦ some (x ∷ ds) ] ≡ some bs
        → (suc n ≤ suc (length disk)) × (length bs ≡ suc n)
    split none ih e = cc
    split (some ds) ih e = let (a, b) = ih ds refl in (omega arith, ground arith)

-- What `safe_pread` returned is there in the file.
pub taken_of_read :
    (disk : List ℕ) (n start : ℕ) (bs : List ℕ)
    → safe_pread disk n start ≡ ok bs
    → take_exactly n (drop start disk) ≡ some bs
unfolding safe_pread
taken_of_read disk n start bs h = given (take_exactly n (drop start disk)) h
  where
    given :
        (o : Option (List ℕ))
        → elim o as (λ _. Result (List ℕ)) [ none ↦ err io_error | some ys ↦ ok ys ] ≡ ok bs
        → o ≡ some bs
    given none e = cc
    given (some ys) e = cc

pub length_of_read :
    (disk : List ℕ) (n start : ℕ) (bs : List ℕ) → safe_pread disk n start ≡ ok bs → length bs ≡ n
length_of_read disk n start bs h =
    (take_exactly-length n (drop start disk) bs (taken_of_read disk n start bs h)).1

none_taken : (disk : List ℕ) → take_exactly 0 disk ≡ some []
unfolding take_exactly
none_taken disk = refl

module _ (disk bs : List ℕ) (offset : ℕ) where
  -- `safe_pread` of a range that was written returns what was written.
  pub safe_pread-safe_pwrite :
      0 < length bs → safe_pread (safe_pwrite disk bs offset) (length bs) offset ≡ ok bs
  unfolding safe_pread safe_pwrite
  safe_pread-safe_pwrite h = ground (arith, take_exactly-write_at offset bs disk)

  range_apart :
      (n start : ℕ) {xs : List ℕ}
      → (start + n ≤ offset) ⊎ (offset + length bs ≤ start)
      → take_exactly n (drop start disk) ≡ some xs
      → take_exactly n (drop start (write_at offset bs disk)) ≡ some xs
  range_apart zero start apart read =
      none_taken (drop start (write_at offset bs disk)) ∙ sym (none_taken (drop start disk)) ∙ read
  range_apart (suc n) start (inl before) read =
      let inside = (take_exactly-length (suc n) (drop start disk) _ read).0 in
      range_before (suc n) start offset bs disk before (omega (arith, length-drop start disk))
      ∙ read
  range_apart (suc n) start (inr behind) read =
      ap (take_exactly (suc n)) (drop-write_at start offset bs disk behind) ∙ read

  -- A range that does not meet the bytes written is read as before.
  pub safe_pread_apart :
      (n start : ℕ) {xs : List ℕ}
      → (start + n ≤ offset) ⊎ (offset + length bs ≤ start)
      → safe_pread disk n start ≡ ok xs
      → safe_pread (safe_pwrite disk bs offset) n start ≡ ok xs
  unfolding safe_pread safe_pwrite
  safe_pread_apart n start {xs} apart read = elim (Bool-cases (length bs == 0)) [
    | inl nothing ↦ rw nothing read
    | inr something ↦
        let there : take_exactly n (drop start disk) ≡ some xs =
          taken_of_read disk n start xs read in
        rw (something, safe_pread, range_apart n start apart there)
  ]

module _ (disk xs ys : List ℕ) (offset : ℕ) (some_bytes : 0 < length xs) where
  written : safe_pwrite disk (xs ++ ys) offset ≡ write_at offset (xs ++ ys) disk
  unfolding safe_pwrite
  written = let e : (length (xs ++ ys) == 0) ≡ false = ground (arith, length-append xs ys) in rw e

  -- The front and the back of a range that was written in one go.
  pub safe_pread_front : safe_pread (safe_pwrite disk (xs ++ ys) offset) (length xs) offset ≡ ok xs
  unfolding safe_pread
  safe_pread_front = rw (written, safe_pread, front_written offset xs ys disk)

  pub safe_pread_back :
      safe_pread (safe_pwrite disk (xs ++ ys) offset) (length ys) (offset + length xs) ≡ ok ys
  unfolding safe_pread
  safe_pread_back =
      rw (written, safe_pread, back_written (offset + length xs) offset xs ys disk refl)
