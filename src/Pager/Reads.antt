-- ===== src/Pager/Reads.antt =====
-- The pager seen from its clients: a page id stands for a list of rows, wherever they are kept.
use xdl.Prelude.{
  ℕ, ◌^◌, ◌<◌, ◌≡◌, ◌∙◌, sym, refl, ap, ◌≢◌, inl, inr, ◌⊎◌, true, none, some, List, ◌∷◌, ok, ◌==◌,
  Bool-cases, Option-cases, arith,
}
use mathlib.Core.Path.{subst}
use xdl.Schema.{Schema}
use xdl.Row.{Row}
use xdl.Page.{Page}
use xdl.Page.Holds.{Holds}
use xdl.Compression.{Lz4}
use xdl.Cache.{PageCache, find_page, get, put_shared}
use xdl.Cache.Keeps.{IsValid}
use xdl.Cache.Bounds.{find_page_id, get_lem}
use xdl.Pager.{Pager, put_page, get_page}
use xdl.Pager.Blocks.{IsOnDisk, load_from_disk-IsOnDisk}
use xdl.Pager.Serves.{IsPool, IsAdmitted, admit-IsAdmitted}

find_page-head :
    (j : ℕ) (p q : Page) (ps : List Page)
    → find_page j (p ∷ ps) ≡ some q
    → ((p.id ≡ j) × (p ≡ q)) ⊎ ((j ≢ p.id) × (find_page j ps ≡ some q))
unfolding find_page
find_page-head j p q ps h = elim (Bool-cases (p.id == j)) [
  | inl same ↦ inl (ground arith, ground arith)
  | inr differ ↦ inr (ground arith, ground arith)
]

find_page-behind :
    (j : ℕ) (p : Page) (ps : List Page) → j ≢ p.id → find_page j (p ∷ ps) ≡ find_page j ps
unfolding find_page
find_page-behind j p ps differ = ground (arith, differ)

find_page-front : (p : Page) (ps : List Page) → find_page p.id (p ∷ ps) ≡ some p
unfolding find_page
find_page-front p ps = ground arith

module _ (z : Lz4) (schema : Schema) where
  -- The well-formed pager, over a formatted file whose pages are stored without compression: each
  -- page below `next_page_id` has its rows, in the cache or in the file.
  pub record IsServing (g : Pager) (pages : ℕ → List Row) : Type 0 where
    pub pool : IsPool z schema g pages
    pub few : g.next_page_id < 2 ^ 32
    pub known : (id : ℕ) (p : Page) → find_page id g.cache.lru ≡ some p → id < g.next_page_id
    pub stored :
        (id : ℕ)
        → id < g.next_page_id
        → find_page id g.cache.lru ≡ none
        → IsOnDisk z schema g.storage g.page_offsets id (pages id)

  pub record IsPlaced (g g' : Pager) (page : Page) (pages : ℕ → List Row) : Type 0 where
    pub pool : IsPool z schema g' pages
    pub same_next : g'.next_page_id ≡ g.next_page_id
    pub same_index : g'.index ≡ g.index
    pub found : find_page page.id g'.cache.lru ≡ some page
    pub still :
        (j : ℕ) (q : Page)
        → j ≢ page.id
        → find_page j g'.cache.lru ≡ some q
        → find_page j g.cache.lru ≡ some q
    pub stored :
        (j : ℕ)
        → j ≢ page.id
        → find_page j g'.cache.lru ≡ none
        → (find_page j g.cache.lru ≡ none → IsOnDisk z schema g.storage g.page_offsets j (pages j))
        → IsOnDisk z schema g'.storage g'.page_offsets j (pages j)

  module _ (g : Pager) (pages : ℕ → List Row) (k : IsPool z schema g pages) (page : Page)
      (absent : find_page page.id g.cache.lru ≡ none) (small : page.id < 2 ^ 32)
      (holds : Holds schema page (pages page.id))
      (backed : (page.dirty ≡ true)
        ⊎ IsOnDisk z schema g.storage g.page_offsets page.id (pages page.id)) where
    placing : IsAdmitted z schema g pages k page absent
    placing = admit-IsAdmitted z schema g pages k page absent

    after : Pager
    unfolding placing
    after = record placing.after { cache = record g.cache { lru = page ∷ placing.rest } }

    pooled : IsPool z schema after pages
    unfolding after
    pooled = record {
      formatted = placing.evicted.formatted;
      plain = placing.evicted.plain;
      valid = placing.valid;
      small = λ j q found. elim (find_page-head j page q placing.rest found) [
        | inl (e, same) ↦ omega arith
        | inr (differ, there) ↦ k.small j q (placing.evicted.still j q there)
      ];
      held = λ j q found. elim (find_page-head j page q placing.rest found) [
        | inl (e, same) ↦
            rw (← e, ← same)
              (
                holds,
                elim backed [
                  | inl dirty ↦ inl dirty
                  | inr d ↦ inr (placing.evicted.stays page.id d)
                ],
              )
        | inr (differ, there) ↦
            let (h, b) = k.held j q (placing.evicted.still j q there) in
            (h, elim b [ inl dirty ↦ inl dirty | inr d ↦ inr (placing.evicted.stays j d) ])
      ];
    }

    pub put_page-IsPlaced :
        (g' : Pager) × (put_page z page g ≡ (g', ok page)) × IsPlaced g g' page pages
    unfolding after put_page put_shared
    put_page-IsPlaced = (
      after,
      rw (absent, placing.made),
      record {
        pool = pooled;
        same_next = placing.evicted.same_next;
        same_index = placing.evicted.same_index;
        found = find_page-front page placing.rest;
        still = λ j q differ found.
            placing.evicted.still j q (sym (find_page-behind j page placing.rest differ) ∙ found);
        stored = λ j differ gone before.
            let gone' = sym (find_page-behind j page placing.rest differ) ∙ gone in
            elim (Option-cases (find_page j g.cache.lru)) [
              | inl nowhere ↦ placing.evicted.stays j (before nowhere)
              | inr (q, cached) ↦ placing.evicted.out j q cached gone'
            ];
      },
    )

  pub same_page : (j : ℕ) (p : Page) → (j ≡ p.id) ⊎ (j ≢ p.id)
  same_page j p = elim (Bool-cases (j == p.id)) [
    | inl same ↦ inl (ground arith)
    | inr differ ↦ inr (ground arith)
  ]

  module _ (g : Pager) (pages : ℕ → List Row) (k : IsServing g pages) where
    -- A cache that finds the same pages serves the same.
    pub moved_IsServing :
        (c : PageCache)
        → IsValid c
        → ((j : ℕ) → find_page j c.lru ≡ find_page j g.cache.lru)
        → IsServing (record g { cache = c }) pages
    moved_IsServing c v same = record {
      pool = record {
        formatted = k.pool.formatted;
        plain = k.pool.plain;
        valid = v;
        small = λ j p found. k.pool.small j p (sym (same j) ∙ found);
        held = λ j p found. k.pool.held j p (sym (same j) ∙ found);
      };
      few = k.few;
      known = λ j p found. k.known j p (sym (same j) ∙ found);
      stored = λ j low gone. k.stored j low (sym (same j) ∙ gone);
    }

    placed_IsServing :
        (g' : Pager) (page : Page)
        → page.id < g.next_page_id
        → IsPlaced g g' page pages
        → IsServing g' pages
    placed_IsServing g' page low placed = record {
      pool = placed.pool;
      few = rw placed.same_next k.few;
      known = λ j q found. elim (same_page j page) [
        | inl e ↦ omega (arith, placed.same_next)
        | inr differ ↦ rw placed.same_next (k.known j q (placed.still j q differ found))
      ];
      stored = λ j below gone. elim (same_page j page) [
        | inl e ↦ cc (gone, placed.found, ap (λ i. find_page i g'.cache.lru) e)
        | inr differ ↦ placed.stored j differ gone (k.stored j (omega (arith, placed.same_next)))
      ];
    }

    -- In a well-formed pager whose pages are stored without compression, `get_page` and
    -- `get_mutable_page` of a page that was allocated return it with the rows that it stands for,
    -- cached or read from the file, even if another page has to be evicted for it; the page is in the
    -- cache then, and every page still stands for the same rows.
    pub get_page-IsServing :
        (id : ℕ)
        → id < g.next_page_id
        → (g' : Pager) × (p : Page) × (get_page z id g ≡ (g', ok p))
          × Holds schema p (pages id)
          × (p.id ≡ id)
          × (find_page id g'.cache.lru ≡ some p)
          × (g'.next_page_id ≡ g.next_page_id)
          × (g'.index ≡ g.index)
          × IsServing g' pages
    unfolding get_page
    get_page-IsServing id low =
        let (v, got, same) = get_lem g.cache id k.pool.valid in
        elim (Option-cases (find_page id g.cache.lru)) [
          | inr (p, present) ↦
              let here : get g.cache id ≡ (some p, (get g.cache id).1) =
                ap (λ o. (o, (get g.cache id).1)) (got ∙ present) in
              (
                record g { cache = (get g.cache id).1 },
                p,
                rw here,
                (k.pool.held id p present).0,
                find_page_id id g.cache.lru p present,
                same id ∙ present,
                refl,
                refl,
                moved_IsServing (get g.cache id).1 v same,
              )
          | inl absent ↦
              let d = k.stored id low absent in
              let miss : get g.cache id ≡ (none, (get g.cache id).1) =
                ap (λ o. (o, (get g.cache id).1)) (got ∙ absent) in
              let (g', put, placed) =
                put_page-IsPlaced g pages k.pool d.page (rw d.named absent)
                  (omega (arith, d.named, k.few))
                  (subst (λ i. Holds schema d.page (pages i)) (sym d.named) d.holds)
                  (inr (
                    subst (λ i. IsOnDisk z schema g.storage g.page_offsets i (pages i))
                      (sym d.named) d)) in
              (
                g',
                d.page,
                rw (miss, load_from_disk-IsOnDisk z schema g id (pages id) d) put,
                d.holds,
                d.named,
                subst (λ i. find_page i g'.cache.lru ≡ some d.page) d.named placed.found,
                placed.same_next,
                placed.same_index,
                placed_IsServing g' d.page (omega (arith, d.named)) placed,
              )
        ]
