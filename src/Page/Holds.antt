-- ===== src/Page/Holds.antt =====
-- The abstract view of a page: the list of the rows that it holds, in slot order.
use xdl.Prelude.{
  ℕ, zero, suc, ◌+◌, ◌*◌, ◌≤◌, ◌≡◌, refl, ap, sym, some, List, [], ◌∷◌, ◌++◌, length, length-append,
  erase_at, get_elem?, append_assoc, arith,
}
use xdl.Schema.{Schema}
use xdl.Row.{Row}
use xdl.RowCodec.{page_size}
use xdl.RowCodec.RoundTrip.{Image}
use xdl.Page.{Page}

unfoldable pub concat : List (List ℕ) → List ℕ
concat [] = []
concat (b ∷ bs) = b ++ concat bs

-- Where the chunks start, if the first one starts at `k`.
unfoldable pub starts : ℕ → List (List ℕ) → List ℕ
starts k [] = []
starts k (b ∷ bs) = k ∷ starts (k + length b) bs

abbrev pub Images : Schema → List Row → List (List ℕ) → Type 0
Images s [] [] = Unit
Images s (r ∷ rows) (b ∷ bs) = Image s r b × Images s rows bs
Images s _ _ = ⊥

-- The page holds these rows: its bytes are their serialised forms one behind another, and its
-- offsets and its count say where and how many they are.
pub record Holds (s : Schema) (p : Page) (rows : List Row) : Type 0 where
  pub chunks : List (List ℕ)
  pub images : Images s rows chunks
  pub packed : p.bytes ≡ concat chunks
  pub offsets : p.row_offsets ≡ starts 0 chunks
  pub count : p.row_count ≡ length chunks
  pub within : length p.bytes ≤ page_size

pub length-images :
    (s : Schema) (rows : List Row) (bs : List (List ℕ)) → Images s rows bs → length rows ≡ length bs
length-images s [] [] h = refl
length-images s (r ∷ rows) (b ∷ bs) h = ap suc (length-images s rows bs h.1)
length-images s [] (b ∷ bs) h = absurd h
length-images s (r ∷ rows) [] h = absurd h

pub images-append :
    (s : Schema) (rows : List Row) (bs : List (List ℕ)) (rows' : List Row) (bs' : List (List ℕ))
    → Images s rows bs
    → Images s rows' bs'
    → Images s (rows ++ rows') (bs ++ bs')
images-append s [] [] rows' bs' h k = k
images-append s (r ∷ rows) (b ∷ bs) rows' bs' h k = (h.0, images-append s rows bs rows' bs' h.1 k)
images-append s [] (b ∷ bs) rows' bs' h k = absurd h
images-append s (r ∷ rows) [] rows' bs' h k = absurd h

pub concat-append : (as' bs : List (List ℕ)) → concat (as' ++ bs) ≡ concat as' ++ concat bs
unfolding concat
concat-append [] bs = refl
concat-append (a ∷ as') bs =
    rw (concat-append as' bs) (sym (append_assoc a (concat as') (concat bs)))

pub starts-append :
    (k : ℕ) (as' bs : List (List ℕ))
    → starts k (as' ++ bs) ≡ starts k as' ++ starts (k + length (concat as')) bs
unfolding starts concat
starts-append k [] bs = ap (λ j. starts j bs) (omega arith)
starts-append k (a ∷ as') bs =
    rw (starts-append (k + length a) as' bs)
      (ap (λ j. k ∷ (starts (k + length a) as' ++ starts j bs)) (regroup (concat as')))
  where
    regroup : (xs : List ℕ) → k + length a + length xs ≡ k + length (a ++ xs)
    regroup xs = omega (arith, length-append a xs)

pub length-starts : (k : ℕ) (bs : List (List ℕ)) → length (starts k bs) ≡ length bs
unfolding starts
length-starts k [] = refl
length-starts k (b ∷ bs) = ap suc (length-starts (k + length b) bs)

-- Each row takes eight bytes at least.
pub chunks_bound :
    (s : Schema) (rows : List Row) (bs : List (List ℕ))
    → Images s rows bs
    → 8 * length bs ≤ length (concat bs)
unfolding concat
chunks_bound s [] [] h = omega arith
chunks_bound s (r ∷ rows) (b ∷ bs) h =
    omega (arith, chunks_bound s rows bs h.1, h.0.low, length-append b (concat bs))
chunks_bound s [] (b ∷ bs) h = absurd h
chunks_bound s (r ∷ rows) [] h = absurd h

-- The chunk at a slot, and where it stands.
pub record At (s : Schema) (rows : List Row) (bs : List (List ℕ)) (i : ℕ) (r : Row) : Type 0 where
  pub before : List (List ℕ)
  pub chunk : List ℕ
  pub after : List (List ℕ)
  pub split : bs ≡ before ++ chunk ∷ after
  pub slot : length before ≡ i
  pub image : Image s r chunk
  pub erased : Images s (erase_at rows i) (before ++ after)

pub get-At :
    (s : Schema) (rows : List Row) (bs : List (List ℕ)) (i : ℕ) {r : Row}
    → Images s rows bs
    → get_elem? rows i ≡ some r
    → At s rows bs i r
get-At s (x ∷ rows) (b ∷ bs) zero {r} h e = record {
  before = [];
  chunk = b;
  after = bs;
  split = refl;
  slot = refl;
  image = rw (← some_inj) h.0;
  erased = h.1;
}
  where
    some_inj : x ≡ r
    some_inj = cc
get-At s (x ∷ rows) (b ∷ bs) (suc i) h e =
    let a = get-At s rows bs i h.1 e in
    record {
      before = b ∷ a.before;
      chunk = a.chunk;
      after = a.after;
      split = ap (◌∷◌ b) a.split;
      slot = ap suc a.slot;
      image = a.image;
      erased = (h.0, a.erased);
    }
get-At s [] bs i h e = cc
get-At s (x ∷ rows) [] i h e = absurd h
