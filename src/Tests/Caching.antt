-- ===== src/Tests/Caching.antt =====
-- A full cache of one dirty page.
use xdl.Prelude.{◌≡◌, refl, true, false, some, [], ◌∷◌, inl, inr, arith}
use xdl.Page.{Page}
use xdl.Cache.{PageCache, find_page, put}
use xdl.Cache.Keeps.{IsValid, IsKept, logging, put-IsKept}
use xdl.Cache.Bounds.{put_lem}

abbrev dirty_page : Page
dirty_page = record { id = 1; bytes = []; row_count = 0; dirty = true; row_offsets = [] }

abbrev next_page : Page
next_page = record { id = 2; bytes = []; row_count = 0; dirty = false; row_offsets = [] }

abbrev full_cache : PageCache
full_cache = record { capacity = 1; lru = dirty_page ∷ [] }

full-IsValid : IsValid full_cache
unfolding find_page
full-IsValid = record { positive = omega arith; bounded = omega arith; distinct = (refl, tt) }

put_lem_example :
    IsValid (put logging [] full_cache next_page).1
    × (find_page 2 (put logging [] full_cache next_page).1.lru ≡ some next_page)
put_lem_example = put_lem logging [] full_cache next_page full-IsValid

put-IsKept_example : IsKept dirty_page (put logging [] full_cache next_page)
put-IsKept_example = put-IsKept dirty_page refl [] full_cache next_page (inr (inl refl))
