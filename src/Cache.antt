-- ===== src/Cache.antt =====
-- src/cache.cpp: the page cache. `lru` is the list with the most recently used page at its front;
-- `map_` finds the list's node of an id, and is the search for that id. The eviction callback, if
-- there is one, acts on a state that the cache does not see.
pub mod Keeps
pub mod Bounds
use xdl.Prelude.{
  ℕ, zero, suc, ◌+◌, Bool, true, false, Option, none, some, List, [], ◌∷◌, length, leb, ◌==◌,
  if◌then◌else◌,
}
use xdl.Page.{Page}

pub record PageCache : Type 0 where
  pub capacity : ℕ
  pub lru : List Page

abbrev pub new_cache : ℕ → PageCache
new_cache capacity = record { capacity = if capacity == 0 then 1 else capacity; lru = [] }

-- `map_.find(page_id)`.
unfoldable pub find_page : ℕ → List Page → Option Page
find_page id [] = none
find_page id (p ∷ ps) = if p.id == id then some p else find_page id ps

-- The list without the node of the id.
unfoldable pub unlink : ℕ → List Page → List Page
unlink id [] = []
unlink id (p ∷ ps) = let rest = unlink id ps in if p.id == id then ps else p ∷ rest

abbrev pub hit : PageCache → Option Page → Option Page × PageCache
hit c none = (none, c)
hit c (some p) = (some p, record c { lru = p ∷ unlink p.id c.lru })

-- `get`, `get_shared` and `get_mut` differ in what they hand out of the page.
unfoldable pub get : PageCache → ℕ → Option Page × PageCache
get c page_id = hit c (find_page page_id c.lru)

-- `lru_.pop_back()`.
unfoldable pub pop_back : List Page → List Page
pop_back [] = []
pop_back (p ∷ []) = []
pop_back (p ∷ q ∷ ps) = p ∷ pop_back (q ∷ ps)

unfoldable pub last_page : List Page → Option Page
last_page [] = none
last_page (p ∷ []) = some p
last_page (p ∷ q ∷ ps) = last_page (q ∷ ps)

module _ {ℓ} {S : Type ℓ} (on_evict : Option (S → Page → S)) where
  -- `if (on_evict_ && page->dirty) on_evict_(*page)`.
  abbrev pub notify : S → Page → S
  notify s p = elim on_evict [ none ↦ s | some f ↦ if p.dirty then f s p else s ]

  abbrev pub evict_victim : S → PageCache → Option Page → S × PageCache
  evict_victim s c none = (s, c)
  evict_victim s c (some victim) = (notify s victim, record c { lru = pop_back c.lru })

  unfoldable pub evict_lru : S → PageCache → S × PageCache
  evict_lru s c = evict_victim s c (last_page c.lru)

  abbrev push_front : Page → S × PageCache → S × PageCache
  push_front page (s, c) = (s, record c { lru = page ∷ c.lru })

  -- The path of a page that is not cached.
  unfoldable pub admit : S → PageCache → Page → S × PageCache
  admit s c page = push_front page (if leb c.capacity (length c.lru) then evict_lru s c else (s, c))

  abbrev put_found : S → PageCache → Page → Option Page → S × PageCache
  put_found s c page none = admit s c page
  put_found s c page (some old) = (notify s old, record c { lru = page ∷ unlink page.id c.lru })

  unfoldable pub put : S → PageCache → Page → S × PageCache
  put s c page = put_found s c page (find_page page.id c.lru)

  abbrev shared_found : S → PageCache → Page → Option Page → (S × PageCache) × Page
  shared_found s c page none = (admit s c page, page)
  shared_found s c page (some resident) =
      ((s, record c { lru = resident ∷ unlink page.id c.lru }), resident)

  unfoldable pub put_shared : S → PageCache → Page → (S × PageCache) × Page
  put_shared s c page = shared_found s c page (find_page page.id c.lru)

  abbrev evict_found : S → PageCache → ℕ → Option Page → S × PageCache
  evict_found s c page_id none = (s, c)
  evict_found s c page_id (some p) = (notify s p, record c { lru = unlink page_id c.lru })

  unfoldable pub evict : S → PageCache → ℕ → S × PageCache
  evict s c page_id = evict_found s c page_id (find_page page_id c.lru)

  unfoldable pub notify_all : S → List Page → S
  notify_all s [] = s
  notify_all s (p ∷ ps) = notify_all (notify s p) ps

  unfoldable pub flush_all : S → PageCache → S × PageCache
  flush_all s c = (notify_all s c.lru, record c { lru = [] })

abbrev pub cache_size : PageCache → ℕ
cache_size c = length c.lru
