-- ===== src/Pager/Writes.antt =====
-- The pager seen from its clients that change pages.
use xdl.Prelude.{
  ℕ, ◌+◌, ◌%◌, ◌^◌, ◌<◌, ◌≡◌, ◌∙◌, sym, refl, ap, ◌≢◌, inl, inr, ◌⊎◌, true, none, some, List, [],
  ◌∷◌, ok, length, ◌==◌, if◌then◌else◌, Bool-cases, Option-cases, arith,
}
use mathlib.Core.Path.{subst}
use xdl.Schema.{Schema}
use xdl.Row.{Row}
use xdl.Page.{Page}
use xdl.Page.Holds.{Holds}
use xdl.Page.Refinement.{new_page-Holds}
use xdl.Index.{IndexManager}
use xdl.Compression.{Lz4}
use xdl.Cache.{find_page}
use xdl.Cache.Keeps.{Distinct}
use xdl.Pager.{Pager, new_page, set_page, replace_page}
use xdl.Pager.Blocks.{IsOnDisk}
use xdl.Pager.Serves.{IsPool}
use xdl.Pager.Reads.{IsServing, put_page-IsPlaced, same_page}

-- The rows of one page are others.
abbrev pub with_rows : ℕ → List Row → (ℕ → List Row) → ℕ → List Row
with_rows id rows pages j = if j == id then rows else pages j

with_rows_own :
    (id : ℕ) (rows : List Row) (pages : ℕ → List Row) → with_rows id rows pages id ≡ rows
with_rows_own id rows pages = ground arith

with_rows_other :
    (id j : ℕ) (rows : List Row) (pages : ℕ → List Row)
    → j ≢ id
    → with_rows id rows pages j ≡ pages j
with_rows_other id j rows pages differ = ground (arith, differ)

pub replaced_other :
    (j : ℕ) (p : Page) (ps : List Page)
    → j ≢ p.id
    → find_page j (replace_page p ps) ≡ find_page j ps
unfolding find_page replace_page
replaced_other j p [] differ = refl
replaced_other j p (q ∷ ps) differ = ground (arith, differ, replaced_other j p ps differ)

pub replaced_own :
    (p old : Page) (ps : List Page)
    → find_page p.id ps ≡ some old
    → find_page p.id (replace_page p ps) ≡ some p
unfolding find_page replace_page
replaced_own p old [] h = cc
replaced_own p old (q ∷ ps) h = ground (arith, replaced_own p old ps)

replaced_absent :
    (j : ℕ) (p : Page) (ps : List Page)
    → find_page j ps ≡ none
    → find_page j (replace_page p ps) ≡ none
unfolding find_page replace_page
replaced_absent j p [] h = refl
replaced_absent j p (q ∷ ps) h = ground (arith, replaced_absent j p ps)

replaced_Distinct : (p : Page) (ps : List Page) → Distinct ps → Distinct (replace_page p ps)
unfolding replace_page
replaced_Distinct p [] d = tt
replaced_Distinct p (q ∷ ps) d = elim (Bool-cases (q.id == p.id)) [
  | inl same ↦
      rw same (let e : q.id ≡ p.id = ground arith in subst (λ i. find_page i ps ≡ none) e d.0, d.1)
  | inr differ ↦ rw differ (replaced_absent q.id p ps d.0, replaced_Distinct p ps d.1)
]

length-replace_page : (p : Page) (ps : List Page) → length (replace_page p ps) ≡ length ps
unfolding replace_page
length-replace_page p [] = refl
length-replace_page p (q ∷ ps) = ground (arith, length-replace_page p ps)

module _ (z : Lz4) (schema : Schema) where
  module _ (g : Pager) (pages : ℕ → List Row) (k : IsServing z schema g pages) where
    -- A change of a cached page to one that is dirty, or that is in the file with its rows.
    pub changed_IsServing :
        (p old : Page) (rows : List Row)
        → find_page p.id g.cache.lru ≡ some old
        → (p.dirty ≡ true) ⊎ IsOnDisk z schema g.storage g.page_offsets p.id rows
        → Holds schema p rows
        → IsServing z schema (set_page g p) (with_rows p.id rows pages)
          × (find_page p.id (set_page g p).cache.lru ≡ some p)
    unfolding set_page
    changed_IsServing p old rows cached backed holds = (
      record {
        pool = record {
          formatted = k.pool.formatted;
          plain = k.pool.plain;
          valid = record {
            positive = k.pool.valid.positive;
            bounded = omega (arith, k.pool.valid.bounded, length-replace_page p g.cache.lru);
            distinct = replaced_Distinct p g.cache.lru k.pool.valid.distinct;
          };
          small = λ j q found. small j (known j q found);
          held = held;
        };
        few = k.few;
        known = known;
        stored = λ j low gone. elim (same_page z schema j p) [
          | inl e ↦ cc (gone, own, ap (λ i. find_page i (replace_page p g.cache.lru)) e)
          | inr differ ↦
              rw (with_rows_other p.id j rows pages differ)
                (k.stored j low (sym (replaced_other j p g.cache.lru differ) ∙ gone))
        ];
      },
      own,
    )
      where
        own : find_page p.id (replace_page p g.cache.lru) ≡ some p
        own = replaced_own p old g.cache.lru cached

        known :
            (j : ℕ) (q : Page)
            → find_page j (replace_page p g.cache.lru) ≡ some q
            → j < g.next_page_id
        known j q found = elim (same_page z schema j p) [
          | inl e ↦ omega (arith, k.known p.id old cached)
          | inr differ ↦ k.known j q (sym (replaced_other j p g.cache.lru differ) ∙ found)
        ]

        small : (j : ℕ) → j < g.next_page_id → j < 2 ^ 32
        small j low = omega (arith, k.few)

        held :
            (j : ℕ) (q : Page)
            → find_page j (replace_page p g.cache.lru) ≡ some q
            → Holds schema q (with_rows p.id rows pages j)
              × ((q.dirty ≡ true)
                  ⊎ IsOnDisk z schema g.storage g.page_offsets j (with_rows p.id rows pages j))
        held j q found = elim (same_page z schema j p) [
          | inl e ↦
              let same : p ≡ q =
                cc (found, own, ap (λ i. find_page i (replace_page p g.cache.lru)) e) in
              (
                subst (λ r. Holds schema q r)
                    (sym (ap (with_rows p.id rows pages) e ∙ with_rows_own p.id rows pages))
                    (subst (λ x. Holds schema x rows) same holds),
                elim backed [
                  | inl dirty ↦ inl (sym (ap (λ x. x.dirty) same) ∙ dirty)
                  | inr d ↦ inr (
                      subst
                        (λ i.
                          IsOnDisk z schema g.storage g.page_offsets i
                            (with_rows p.id rows pages i))
                        (sym e)
                        (subst (IsOnDisk z schema g.storage g.page_offsets p.id)
                          (sym (with_rows_own p.id rows pages)) d))
                ],
              )
          | inr differ ↦
              rw (with_rows_other p.id j rows pages differ)
                (k.pool.held j q (sym (replaced_other j p g.cache.lru differ) ∙ found))
        ]

    -- A cached page is replaced by one that is marked dirty.
    pub set_page-IsServing :
        (p old : Page) (rows : List Row)
        → find_page p.id g.cache.lru ≡ some old
        → p.dirty ≡ true
        → Holds schema p rows
        → IsServing z schema (set_page g p) (with_rows p.id rows pages)
          × (find_page p.id (set_page g p).cache.lru ≡ some p)
    set_page-IsServing p old rows cached dirty holds =
        changed_IsServing p old rows cached (inl dirty) holds

    fresh : Page
    fresh = record {
      id = g.next_page_id;
      bytes = [];
      row_count = 0;
      dirty = true;
      row_offsets = [];
    }

    fresh-Holds : Holds schema fresh []
    unfolding fresh
    fresh-Holds =
        let h = new_page-Holds schema g.next_page_id in
        record {
          chunks = h.chunks;
          images = h.images;
          packed = h.packed;
          offsets = h.offsets;
          count = h.count;
          within = h.within;
        }

    rows_after : ℕ → List Row
    rows_after = with_rows g.next_page_id [] pages

    grown : Pager
    grown = record g { next_page_id = (g.next_page_id + 1) % 2 ^ 32 }

    kept_rows : (j : ℕ) → j < g.next_page_id → rows_after j ≡ pages j
    unfolding rows_after
    kept_rows j low = with_rows_other g.next_page_id j [] pages (ground arith)

    grown-IsPool : IsPool z schema grown rows_after
    unfolding grown
    grown-IsPool = record {
      formatted = k.pool.formatted;
      plain = k.pool.plain;
      valid = k.pool.valid;
      small = k.pool.small;
      held = λ j q found. rw (kept_rows j (k.known j q found)) (k.pool.held j q found);
    }

    not_yet : find_page g.next_page_id g.cache.lru ≡ none
    not_yet = elim (Option-cases (find_page g.next_page_id g.cache.lru)) [
      | inl absent ↦ absent
      | inr (q, found) ↦ absurd (omega (arith, k.known g.next_page_id q found))
    ]

    -- In a well-formed pager whose pages are stored without compression, `new_page` returns an empty
    -- page under a new id, marked dirty and cached, and the pages that were there before stand for the
    -- same rows, as long as the page ids do not wrap around.
    pub new_page-IsServing :
        g.next_page_id + 1 < 2 ^ 32
        → (g' : Pager) × (p : Page) × (new_page z g ≡ (g', ok p))
          × Holds schema p []
          × (p.id ≡ g.next_page_id)
          × (p.dirty ≡ true)
          × (find_page g.next_page_id g'.cache.lru ≡ some p)
          × (g'.next_page_id ≡ g.next_page_id + 1)
          × (g'.index ≡ g.index)
          × IsServing z schema g' (with_rows g.next_page_id [] pages)
    unfolding new_page grown fresh rows_after
    new_page-IsServing room =
        let own = with_rows_own g.next_page_id [] pages in
        let (g', put, placed) =
          put_page-IsPlaced z schema grown rows_after grown-IsPool fresh not_yet (omega arith)
            (rw own fresh-Holds) (inl refl) in
        let next : g'.next_page_id ≡ g.next_page_id + 1 = omega (arith, placed.same_next) in
        (
          g',
          fresh,
          put,
          fresh-Holds,
          refl,
          refl,
          placed.found,
          next,
          placed.same_index,
          record {
            pool = placed.pool;
            few = omega arith;
            known = λ j q found. elim (same_page z schema j fresh) [
              | inl e ↦ omega arith
              | inr differ ↦ omega (arith, k.known j q (placed.still j q differ found))
            ];
            stored = λ j low gone. elim (same_page z schema j fresh) [
              | inl e ↦ cc (gone, placed.found, ap (λ i. find_page i g'.cache.lru) e)
              | inr differ ↦ placed.stored j differ gone (λ absent.
                  let below : j < g.next_page_id = ground (arith, differ) in
                  rw (kept_rows j below) (k.stored j below absent))
            ];
          },
        )

    -- The index is no part of what is served.
    pub reindexed_IsServing : (m : IndexManager) → IsServing z schema (record g { index = m }) pages
    reindexed_IsServing m = record {
      pool = record {
        formatted = k.pool.formatted;
        plain = k.pool.plain;
        valid = k.pool.valid;
        small = k.pool.small;
        held = k.pool.held;
      };
      few = k.few;
      known = k.known;
      stored = k.stored;
    }
