-- ===== src/Cache/Keeps.antt =====
-- The cache never exceeds its capacity and never drops a dirty page in silence.
use xdl.Prelude.{
  ℕ, suc, ◌≤◌, ◌<◌, ◌≡◌, ◌∙◌, refl, ap, true, Option, none, some, List, [], ◌∷◌, length, leb, ◌==◌,
  if◌then◌else◌, arith, Bool-cases, Option-cases, inl, inr, ◌⊎◌,
}
use xdl.Page.{Page}
use xdl.Cache.{
  PageCache, find_page, unlink, pop_back, last_page, notify, evict_lru, admit, put, evict,
  notify_all, flush_all,
}

abbrev pub IsIn : Page → List Page → Type 0
IsIn p [] = ⊥
IsIn p (q ∷ ps) = (q ≡ p) ⊎ IsIn p ps

-- No id twice.
abbrev pub Distinct : List Page → Type 0
Distinct [] = Unit
Distinct (p ∷ ps) = (find_page p.id ps ≡ none) × Distinct ps

pub record IsValid (c : PageCache) : Type 0 where
  pub positive : 0 < c.capacity
  pub bounded : length c.lru ≤ c.capacity
  pub distinct : Distinct c.lru

pub length-unlink :
    (id : ℕ) (ps : List Page) (p : Page)
    → find_page id ps ≡ some p
    → suc (length (unlink id ps)) ≡ length ps
unfolding find_page unlink
length-unlink id [] p h = cc
length-unlink id (q ∷ ps) p h = ground (arith, length-unlink id ps p)

length-pop_back : (ps : List Page) → length (pop_back ps) ≤ length ps
unfolding pop_back
length-pop_back [] = omega arith
length-pop_back (p ∷ []) = omega arith
length-pop_back (p ∷ q ∷ ps) = omega (arith, length-pop_back (q ∷ ps))

pub find_page-unlink :
    (j id : ℕ) (ps : List Page)
    → Distinct ps
    → find_page j (unlink id ps) ≡ (if id == j then none else find_page j ps)
unfolding find_page unlink
find_page-unlink j id [] d = ground arith
find_page-unlink j id (q ∷ ps) d = ground (arith, find_page-unlink j id ps d.1)

pub unlink-Distinct : (id : ℕ) (ps : List Page) → Distinct ps → Distinct (unlink id ps)
unfolding unlink
unlink-Distinct id [] d = tt
unlink-Distinct id (q ∷ ps) d = elim (Bool-cases (q.id == id)) [
  | inl same ↦ rw same d.1
  | inr differ ↦
      rw differ (find_page-unlink q.id id ps d.1 ∙ ground arith, unlink-Distinct id ps d.1)
]

pub find_page-pop_back :
    (j : ℕ) (ps : List Page) → find_page j ps ≡ none → find_page j (pop_back ps) ≡ none
unfolding find_page pop_back
find_page-pop_back j [] h = refl
find_page-pop_back j (p ∷ []) h = refl
find_page-pop_back j (p ∷ q ∷ ps) h = ground (arith, find_page-pop_back j (q ∷ ps))

pub pop_back-Distinct : (ps : List Page) → Distinct ps → Distinct (pop_back ps)
unfolding pop_back
pop_back-Distinct [] d = tt
pop_back-Distinct (p ∷ []) d = tt
pop_back-Distinct (p ∷ q ∷ ps) d =
    (find_page-pop_back p.id (q ∷ ps) d.0, pop_back-Distinct (q ∷ ps) d.1)

IsIn-unlink :
    (p : Page) (id : ℕ) (ps : List Page)
    → IsIn p ps
    → (find_page id ps ≡ some p) ⊎ IsIn p (unlink id ps)
unfolding find_page unlink
IsIn-unlink p id [] h = absurd h
IsIn-unlink p id (q ∷ ps) h = elim (Bool-cases (q.id == id)) [
  | inl same ↦ rw same (elim h [ inl e ↦ inl (ap some e) | inr k ↦ inr k ])
  | inr differ ↦ rw differ (elim h [
    | inl e ↦ inr (inl e)
    | inr k ↦ elim (IsIn-unlink p id ps k) [ inl f ↦ inl f | inr m ↦ inr (inr m) ]
  ])
]

IsIn-pop_back :
    (p : Page) (ps : List Page) → IsIn p ps → (last_page ps ≡ some p) ⊎ IsIn p (pop_back ps)
unfolding pop_back last_page
IsIn-pop_back p [] h = absurd h
IsIn-pop_back p (q ∷ []) h = elim h [ inl e ↦ inl (ap some e) | inr k ↦ absurd k ]
IsIn-pop_back p (q ∷ r ∷ ps) h = elim h [
  | inl e ↦ inr (inl e)
  | inr k ↦ elim (IsIn-pop_back p (r ∷ ps) k) [ inl f ↦ inl f | inr m ↦ inr (inr m) ]
]

-- The state of the callback that the theorems watch: the pages that it was called on.
abbrev pub logging : Option (List Page → Page → List Page)
logging = some (λ log p. p ∷ log)

-- A dirty page is in the cache or was handed to the callback.
abbrev pub IsKept : Page → List Page × PageCache → Type 0
IsKept p (log, c) = IsIn p log ⊎ IsIn p c.lru

notify_dirty : (log : List Page) (p : Page) → p.dirty ≡ true → notify logging log p ≡ p ∷ log
notify_dirty log p d = rw d

IsIn-notify : (p q : Page) (log : List Page) → IsIn p log → IsIn p (notify logging log q)
IsIn-notify p q log h = elim (Bool-cases q.dirty) [ inl d ↦ rw d (inr h) | inr c ↦ rw c h ]

module _ (p : Page) (dirty : p.dirty ≡ true) (log : List Page) (c : PageCache) where
  evict_lru-IsKept : IsKept p (log, c) → IsKept p (evict_lru logging log c)
  unfolding evict_lru
  evict_lru-IsKept h = elim (Option-cases (last_page c.lru)) [
    | inl nobody ↦ rw nobody h
    | inr (v, victim) ↦ rw victim (elim h [
      | inl k ↦ inl (IsIn-notify p v log k)
      | inr k ↦ elim (IsIn-pop_back p c.lru k) [
        | inl e ↦ inl (let same : v ≡ p = cc in rw (same, dirty) (inl refl))
        | inr m ↦ inr m
      ]
    ])
  ]

  admit-IsKept : (page : Page) → IsKept p (log, c) → IsKept p (admit logging log c page)
  unfolding admit
  admit-IsKept page h = elim (Bool-cases (leb c.capacity (length c.lru))) [
    | inl full ↦ rw full (elim (evict_lru-IsKept h) [ inl k ↦ inl k | inr k ↦ inr (inr k) ])
    | inr room ↦ rw room (elim h [ inl k ↦ inl k | inr k ↦ inr (inr k) ])
  ]

  -- A dirty page that is cached before `put` is still cached after it, or was handed to the
  -- eviction callback; one that was handed to it stays so.
  pub put-IsKept : (page : Page) → IsKept p (log, c) → IsKept p (put logging log c page)
  unfolding put
  put-IsKept page h = elim (Option-cases (find_page page.id c.lru)) [
    | inl absent ↦ rw absent (admit-IsKept page h)
    | inr (old, present) ↦ rw present (elim h [
      | inl k ↦ inl (IsIn-notify p old log k)
      | inr k ↦ elim (IsIn-unlink p page.id c.lru k) [
        | inl e ↦ inl (let same : old ≡ p = cc in rw (same, dirty) (inl refl))
        | inr m ↦ inr (inr m)
      ]
    ])
  ]

  -- A dirty page that is cached when another one is evicted by its id stays, and a dirty page that
  -- is evicted is handed to the callback.
  pub evict-IsKept : (page_id : ℕ) → IsKept p (log, c) → IsKept p (evict logging log c page_id)
  unfolding evict
  evict-IsKept page_id h = elim (Option-cases (find_page page_id c.lru)) [
    | inl absent ↦ rw absent h
    | inr (old, present) ↦ rw present (elim h [
      | inl k ↦ inl (IsIn-notify p old log k)
      | inr k ↦ elim (IsIn-unlink p page_id c.lru k) [
        | inl e ↦ inl (let same : old ≡ p = cc in rw (same, dirty) (inl refl))
        | inr m ↦ inr m
      ]
    ])
  ]

notify_all-IsIn :
    (p : Page) (ps log : List Page)
    → p.dirty ≡ true
    → IsIn p log ⊎ IsIn p ps
    → IsIn p (notify_all logging log ps)
unfolding notify_all
notify_all-IsIn p [] log d h = elim h [ inl k ↦ k | inr k ↦ absurd k ]
notify_all-IsIn p (q ∷ ps) log d h = notify_all-IsIn p ps (notify logging log q) d (elim h [
  | inl k ↦ inl (IsIn-notify p q log k)
  | inr (inl e) ↦ inl (rw (e, d) (inl refl))
  | inr (inr k) ↦ inr k
])

-- `flush_all` hands every dirty page to the callback and leaves the cache empty.
pub flush_all-IsIn :
    (p : Page) (log : List Page) (c : PageCache)
    → p.dirty ≡ true
    → IsIn p c.lru
    → IsIn p (flush_all logging log c).0 × ((flush_all logging log c).1.lru ≡ [])
unfolding flush_all
flush_all-IsIn p log c d h = (notify_all-IsIn p c.lru log d (inr h), refl)
