-- ===== src/Cache/Bounds.antt =====
-- The capacity, and what the cache finds.
use xdl.Prelude.{
  ℕ, suc, ◌<◌, ◌≡◌, ◌∙◌, refl, ap, Option, none, some, List, [], ◌∷◌, length, leb, ◌==◌,
  if◌then◌else◌, arith, Bool-cases, Option-cases, inl, inr,
}
use xdl.Page.{Page}
use xdl.Cache.{PageCache, find_page, unlink, get, pop_back, last_page, evict_lru, admit, put}
use xdl.Cache.Keeps.{
  IsValid, length-unlink, find_page-unlink, unlink-Distinct, find_page-pop_back, pop_back-Distinct,
}

pub find_page_id : (id : ℕ) (ps : List Page) (p : Page) → find_page id ps ≡ some p → p.id ≡ id
unfolding find_page
find_page_id id [] p h = cc
find_page_id id (q ∷ ps) p h = ground (arith, find_page_id id ps p)

pub last_page-some :
    (ps : List Page)
    → 0 < length ps
    → (p : Page) × (last_page ps ≡ some p) × (suc (length (pop_back ps)) ≡ length ps)
unfolding last_page pop_back
last_page-some [] h = absurd (omega arith)
last_page-some (p ∷ []) h = (p, refl, refl)
last_page-some (p ∷ q ∷ ps) h =
    let (r, e, n) = last_page-some (q ∷ ps) (omega arith) in (r, e, ap suc n)

-- `get` returns the page of the id, if it is cached, makes it the most recently used one, and
-- changes nothing of what is found.
pub get_lem :
    (c : PageCache) (id : ℕ)
    → IsValid c
    → IsValid (get c id).1
      × ((get c id).0 ≡ find_page id c.lru)
      × ((j : ℕ) → find_page j (get c id).1.lru ≡ find_page j c.lru)
unfolding get
get_lem c id v = elim (Option-cases (find_page id c.lru)) [
  | inl absent ↦ rw absent (v, refl, λ j. refl)
  | inr (p, present) ↦
      let named : p.id ≡ id = find_page_id id c.lru p present in
      rw present (
        record {
          positive = v.positive;
          bounded = rw named (omega (arith, v.bounded, length-unlink id c.lru p present));
          distinct = (
            find_page-unlink p.id p.id c.lru v.distinct ∙ ground arith,
            unlink-Distinct p.id c.lru v.distinct,
          );
        },
        refl,
        λ j. moved p present named j,
      )
]
  where
    moved :
        (p : Page)
        → find_page id c.lru ≡ some p
        → p.id ≡ id
        → (j : ℕ) → find_page j (p ∷ unlink p.id c.lru) ≡ find_page j c.lru
    moved p present named j =
        unfold find_page in
        elim (Bool-cases (p.id == j)) [
          | inl same ↦ rw same (let e : j ≡ id = ground arith in rw (e, present))
          | inr differ ↦ rw differ (find_page-unlink j p.id c.lru v.distinct ∙ rw differ)
        ]

module _ {ℓ} {S : Type ℓ} (on_evict : Option (S → Page → S)) (s : S) (c : PageCache) (page : Page)
    (v : IsValid c) where
  -- The pages that stay when a page is admitted.
  unfoldable pub rest_of : List Page
  rest_of = if leb c.capacity (length c.lru) then pop_back c.lru else c.lru

  admitted : (admit on_evict s c page).1 ≡ record c { lru = page ∷ rest_of }
  unfolding admit rest_of evict_lru
  admitted = elim (Bool-cases (leb c.capacity (length c.lru))) [
    | inl full ↦ let (r, e, _) = last_page-some c.lru (ground (arith, v.positive)) in rw (full, e)
    | inr room ↦ rw room
  ]

  pub admitted-IsValid :
      find_page page.id c.lru ≡ none → IsValid (record c { lru = page ∷ rest_of })
  unfolding rest_of
  admitted-IsValid absent = elim (Bool-cases (leb c.capacity (length c.lru))) [
    | inl full ↦
        let (r, e, n) = last_page-some c.lru (ground (arith, v.positive)) in
        rw full (record {
          positive = v.positive;
          bounded = omega (arith, n, v.bounded);
          distinct = (find_page-pop_back page.id c.lru absent, pop_back-Distinct c.lru v.distinct);
        })
    | inr room ↦
        rw room (record {
          positive = v.positive;
          bounded = ground arith;
          distinct = (absent, v.distinct);
        })
  ]

-- `put` keeps the cache within its capacity and without an id twice, and the page is found under
-- its id, whether it was cached, admitted to a free place or took the place of another page.
pub put_lem {ℓ} :
    {S : Type ℓ} (on_evict : Option (S → Page → S)) (s : S) (c : PageCache) (page : Page)
    → IsValid c
    → IsValid (put on_evict s c page).1
      × (find_page page.id (put on_evict s c page).1.lru ≡ some page)
unfolding put
put_lem on_evict s c page v = elim (Option-cases (find_page page.id c.lru)) [
  | inl absent ↦
      rw (absent, admitted on_evict s c page v)
        (admitted-IsValid on_evict s c page v absent, found (rest_of on_evict s c page v))
  | inr (old, present) ↦ rw present (
    record {
      positive = v.positive;
      bounded = omega (arith, v.bounded, length-unlink page.id c.lru old present);
      distinct = (
        find_page-unlink page.id page.id c.lru v.distinct ∙ ground arith,
        unlink-Distinct page.id c.lru v.distinct,
      );
    },
    found (unlink page.id c.lru),
  )
]
  where
    found : (ps : List Page) → find_page page.id (page ∷ ps) ≡ some page
    found ps = unfold find_page in ground arith
