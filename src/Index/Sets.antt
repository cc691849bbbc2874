-- ===== src/Index/Sets.antt =====
-- The sets of ids and the map from pages to them.
use xdl.Prelude.{ℕ, ◌≡◌, none, some, List, [], ◌∷◌, if◌then◌else◌, arith, ◌==◌, ◌||◌, ◌&&◌, not}
use xdl.Index.{PageIds, contains, set_insert, set_erase, page_ids, at_page}
use xdl.Index.Valid.{listed}

pub contains-set_insert :
    (j id : ℕ) (ids : List ℕ) → contains j (set_insert id ids) ≡ ((id == j) || contains j ids)
unfolding set_insert
contains-set_insert j id ids = ground arith

pub contains-set_erase :
    (j id : ℕ) (ids : List ℕ) → contains j (set_erase id ids) ≡ (not (id == j) && contains j ids)
unfolding set_erase contains
contains-set_erase j id [] = ground arith
contains-set_erase j id (x ∷ xs) = ground (arith, contains-set_erase j id xs)

-- A change of one page's set shows at that page alone.
pub page_ids-at_page :
    (p page : ℕ) (f : List ℕ → List ℕ) (m : PageIds) (id : ℕ)
    → listed id (page_ids p (at_page page f m)) ≡ (
        if page == p
        then contains id (f (elim (page_ids p m) [ none ↦ [] | some ids ↦ ids ]))
        else listed id (page_ids p m))
unfolding page_ids at_page
page_ids-at_page p page f [] id = ground arith
page_ids-at_page p page f ((q, ids) ∷ m) id = ground (arith, page_ids-at_page p page f m id)

pub listed-insert :
    (p page j id : ℕ) (m : PageIds)
    → listed j (page_ids p (at_page page (set_insert id) m))
      ≡ (((page == p) && (id == j)) || listed j (page_ids p m))
unfolding contains
listed-insert p page j id m = ground (
  arith,
  page_ids-at_page p page (set_insert id) m j,
  contains-set_insert j id (elim (page_ids p m) [ none ↦ [] | some ids ↦ ids ]),
)

pub listed-erase :
    (p page j id : ℕ) (m : PageIds)
    → listed j (page_ids p (at_page page (set_erase id) m))
      ≡ (not ((page == p) && (id == j)) && listed j (page_ids p m))
unfolding contains
listed-erase p page j id m = ground (
  arith,
  page_ids-at_page p page (set_erase id) m j,
  contains-set_erase j id (elim (page_ids p m) [ none ↦ [] | some ids ↦ ids ]),
)
