-- ===== src/WalFormat/Logs.antt =====
-- A log of many records, torn at its end.
use xdl.Prelude.{
  ℕ, zero, suc, ◌+◌, ◌-◌, ◌≤◌, ◌≡◌, ◌∙◌, sym, refl, ap, false, none, some, List, [], ◌∷◌, ◌++◌,
  length, length-append, drop, append_assoc, append-nil, All, ltb, Bool-cases, inl, inr, arith,
}
use xdl.Bytes.{read_le, with_low}
use xdl.WalFormat.{WalRecord, encode_record, word, word_at, parse_record, parse_loop}
use xdl.WalFormat.Records.{
  RecordFits, length-encode_record, record_len_read, parse_record-encode_record,
}

unfoldable pub encode_all : List WalRecord → List ℕ
encode_all [] = []
encode_all (r ∷ rs) = encode_record r ++ encode_all rs

pub encode_all-append :
    (rs ss : List WalRecord) → encode_all (rs ++ ss) ≡ encode_all rs ++ encode_all ss
unfolding encode_all
encode_all-append [] ss = refl
encode_all-append (r ∷ rs) ss =
    rw (encode_all-append rs ss)
      (sym (append_assoc (encode_record r) (encode_all rs) (encode_all ss)))

pub length-encode_all :
    (rs : List WalRecord) → All RecordFits rs → length rs ≤ length (encode_all rs)
unfolding encode_all
length-encode_all [] h = omega arith
length-encode_all (r ∷ rs) h = omega (
  arith,
  length-encode_all rs h.1,
  length-append (encode_record r) (encode_all rs),
  length-encode_record r [] h.0,
)

module _ (fuel : ℕ) (bytes : List ℕ) where
  loop_stop : parse_record bytes ≡ none → parse_loop (suc fuel) bytes ≡ []
  unfolding parse_loop
  loop_stop h = ground arith

  loop_step :
      (r : WalRecord) (rest : List ℕ)
      → parse_record bytes ≡ some (r, rest)
      → parse_loop (suc fuel) bytes ≡ r ∷ parse_loop fuel rest
  unfolding parse_loop
  loop_step r rest h = ground arith

-- The loop of `replay` reads every whole record, and stops where no record can be read.
pub parse_loop-encode_all :
    (rs : List WalRecord) (tail : List ℕ) (fuel : ℕ)
    → All RecordFits rs
    → parse_record tail ≡ none
    → length rs ≤ fuel
    → parse_loop fuel (encode_all rs ++ tail) ≡ rs
parse_loop-encode_all [] tail zero h t f = unfold parse_loop encode_all in refl
parse_loop-encode_all [] tail (suc fuel) h t f = unfold encode_all in loop_stop fuel tail t
parse_loop-encode_all (r ∷ rs) tail zero h t f = absurd (omega arith)
parse_loop-encode_all (r ∷ rs) tail (suc fuel) h t f =
    let cut : encode_all (r ∷ rs) ++ tail ≡ encode_record r ++ (encode_all rs ++ tail) =
      unfold encode_all in append_assoc (encode_record r) (encode_all rs) tail in
    ap (parse_loop (suc fuel)) cut
    ∙ loop_step fuel _ r (encode_all rs ++ tail)
        (parse_record-encode_record r (encode_all rs ++ tail) h.0)
    ∙ ap (◌∷◌ r) (parse_loop-encode_all rs tail fuel h.1 t (omega arith))

read_le-append : (n : ℕ) (xs ys : List ℕ) → n ≤ length xs → read_le n (xs ++ ys) ≡ read_le n xs
unfolding read_le
read_le-append zero xs ys h = refl
read_le-append (suc n) [] ys h = absurd (omega arith)
read_le-append (suc n) (x ∷ xs) ys h = ap (with_low x) (read_le-append n xs ys (omega arith))

drop-append : (n : ℕ) (xs ys : List ℕ) → n ≤ length xs → drop n (xs ++ ys) ≡ drop n xs ++ ys
drop-append zero xs ys h = refl
drop-append (suc n) [] ys h = absurd (omega arith)
drop-append (suc n) (x ∷ xs) ys h = drop-append n xs ys (omega arith)

pub length-drop : (n : ℕ) (xs : List ℕ) → length (drop n xs) ≡ length xs - n
length-drop zero xs = omega arith
length-drop (suc n) [] = omega arith
length-drop (suc n) (x ∷ xs) = omega (arith, length-drop n xs)

-- A record of which only a proper part was written is not read.
pub parse_record_torn :
    (r : WalRecord) (front : List ℕ) (x : ℕ) (back : List ℕ)
    → RecordFits r
    → encode_record r ≡ front ++ x ∷ back
    → parse_record front ≡ none
unfolding parse_record
parse_record_torn r front x back h e = elim (Bool-cases (ltb (length front) 8)) [
  | inl short ↦ rw short
  | inr long ↦ ground (arith, len long, length-drop 8 front, size)
]
  where
    size : length front + suc (length back) ≡ 21 + length r.row_data
    size = omega (arith, ap length e, length-append front (x ∷ back), length-encode_record r [] h)

    len : ltb (length front) 8 ≡ false → word_at 4 front ≡ 17 + length r.row_data
    len long =
        let room : 8 ≤ length front = ground arith in
        let inside : 4 ≤ length (drop 4 front) = omega (arith, length-drop 4 front) in
        let whole : encode_record r ++ [] ≡ front ++ x ∷ back = append-nil (encode_record r) ∙ e in
        ap word (
          sym (read_le-append 4 (drop 4 front) (x ∷ back) inside)
          ∙ ap (read_le 4) (sym (drop-append 4 front (x ∷ back) (omega arith))))
        ∙ sym (ap (word_at 4) whole)
        ∙ record_len_read r [] h
