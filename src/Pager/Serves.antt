-- ===== src/Pager/Serves.antt =====
-- The buffer pool: what the eviction of a page leaves in the cache and in the file.
use xdl.Prelude.{
  ℕ, ◌^◌, ◌<◌, ◌≡◌, refl, ap, inl, inr, ◌⊎◌, true, false, none, some, List, [], ◌∷◌, ok, length,
  leb, ◌==◌, if◌then◌else◌, Bool-cases, arith,
}
use xdl.Schema.{Schema}
use xdl.Row.{Row}
use xdl.Page.{Page}
use xdl.Page.Holds.{Holds}
use xdl.Compression.{Lz4, no_compression}
use xdl.Cache.{find_page, pop_back, last_page, evict_lru, admit}
use xdl.Cache.Keeps.{IsValid, Distinct}
use xdl.Cache.Bounds.{last_page-some, rest_of, admitted-IsValid}
use xdl.Pager.{Pager, on_cache_evict}
use xdl.Pager.Blocks.{
  IsFormatted, IsOnDisk, IsWritten, no_compression-FitsSlot, write_page_to_disk-IsWritten,
}

find_page-last_page :
    (ps : List Page) (v : Page) → Distinct ps → last_page ps ≡ some v → find_page v.id ps ≡ some v
unfolding find_page last_page
find_page-last_page [] v d h = cc
find_page-last_page (p ∷ []) v d h = let e : p ≡ v = cc in rw e (ground arith)
find_page-last_page (p ∷ q ∷ ps) v d h =
    let ih = find_page-last_page (q ∷ ps) v d.1 h in
    elim (Bool-cases (p.id == v.id)) [
      | inl same ↦
          (let e : p.id ≡ v.id = ground arith in cc (ap (λ i. find_page i (q ∷ ps)) e, d.0, ih))
      | inr differ ↦ rw differ ih
    ]

find_page-without :
    (j : ℕ) (ps : List Page) (v : Page)
    → Distinct ps
    → last_page ps ≡ some v
    → find_page j (pop_back ps) ≡ (if v.id == j then none else find_page j ps)
unfolding find_page last_page pop_back
find_page-without j [] v d h = cc
find_page-without j (p ∷ []) v d h = let e : p ≡ v = cc in rw (← e) (ground arith)
find_page-without j (p ∷ q ∷ ps) v d h =
    let ih = find_page-without j (q ∷ ps) v d.1 h in
    let last = find_page-last_page (q ∷ ps) v d.1 h in
    elim (Bool-cases (p.id == j)) [
      | inl same ↦
          let e : p.id ≡ j = ground arith in
          elim (Bool-cases (v.id == j)) [
            | inl too ↦
                (let e' : p.id ≡ v.id = ground arith in
                  cc (ap (λ i. find_page i (q ∷ ps)) e', d.0, last))
            | inr other ↦ rw (same, other)
          ]
      | inr differ ↦ rw differ ih
    ]

module _ (z : Lz4) (schema : Schema) where
  -- The pages are stored without compression, each cached page holds its rows, and if it is clean,
  -- then so does its block in the file.
  pub record IsPool (g : Pager) (pages : ℕ → List Row) : Type 0 where
    pub formatted : IsFormatted g.storage
    pub plain : g.storage.compression ≡ no_compression
    pub valid : IsValid g.cache
    pub small : (id : ℕ) (p : Page) → find_page id g.cache.lru ≡ some p → id < 2 ^ 32
    pub held :
        (id : ℕ) (p : Page)
        → find_page id g.cache.lru ≡ some p
        → Holds schema p (pages id)
          × ((p.dirty ≡ true) ⊎ IsOnDisk z schema g.storage g.page_offsets id (pages id))

  -- What has become of the pages, if those of `rest` are still cached.
  pub record IsEvicted (g g' : Pager) (rest : List Page) (pages : ℕ → List Row) : Type 0 where
    pub formatted : IsFormatted g'.storage
    pub plain : g'.storage.compression ≡ no_compression
    pub same_next : g'.next_page_id ≡ g.next_page_id
    pub same_index : g'.index ≡ g.index
    pub same_cache : g'.cache ≡ g.cache
    pub stays :
        (j : ℕ)
        → IsOnDisk z schema g.storage g.page_offsets j (pages j)
        → IsOnDisk z schema g'.storage g'.page_offsets j (pages j)
    pub out :
        (j : ℕ) (q : Page)
        → find_page j g.cache.lru ≡ some q
        → find_page j rest ≡ none
        → IsOnDisk z schema g'.storage g'.page_offsets j (pages j)
    pub still : (j : ℕ) (q : Page) → find_page j rest ≡ some q → find_page j g.cache.lru ≡ some q

  nothing-IsEvicted :
      (g : Pager) (pages : ℕ → List Row) → IsPool g pages → IsEvicted g g g.cache.lru pages
  nothing-IsEvicted g pages k = record {
    formatted = k.formatted;
    plain = k.plain;
    same_next = refl;
    same_index = refl;
    same_cache = refl;
    stays = λ j d. d;
    out = λ j q found absent. cc;
    still = λ j q found. found;
  }

  module _ (g : Pager) (pages : ℕ → List Row) (k : IsPool g pages) (v : Page)
      (last : last_page g.cache.lru ≡ some v) where
    there : find_page v.id g.cache.lru ≡ some v
    there = find_page-last_page g.cache.lru v k.valid.distinct last

    only_victim :
        (j : ℕ) (q : Page)
        → find_page j g.cache.lru ≡ some q
        → find_page j (pop_back g.cache.lru) ≡ none
        → j ≡ v.id
    only_victim j q found absent =
        ground (arith, find_page-without j g.cache.lru v k.valid.distinct last)

    fewer :
        (j : ℕ) (q : Page)
        → find_page j (pop_back g.cache.lru) ≡ some q
        → find_page j g.cache.lru ≡ some q
    fewer j q found = ground (arith, find_page-without j g.cache.lru v k.valid.distinct last)

    -- A clean victim is in the file already.
    clean-IsEvicted : v.dirty ≡ false → IsEvicted g g (pop_back g.cache.lru) pages
    clean-IsEvicted clean = record {
      formatted = k.formatted;
      plain = k.plain;
      same_next = refl;
      same_index = refl;
      same_cache = refl;
      stays = λ j d. d;
      out = λ j q found absent.
          rw (only_victim j q found absent)
            (elim ((k.held v.id v there).1) [ inl dirty ↦ cc | inr d ↦ d ]);
      still = fewer;
    }

    -- A dirty victim is written.
    dirty-IsEvicted :
        (g' : Pager)
        → IsWritten z schema g g' v.id (pages v.id)
        → IsEvicted g g' (pop_back g.cache.lru) pages
    dirty-IsEvicted g' w = record {
      formatted = w.formatted;
      plain = rw w.same_type k.plain;
      same_next = w.same_next;
      same_index = w.same_index;
      same_cache = w.same_cache;
      stays = λ j d. elim (Bool-cases (j == v.id)) [
        | inl same ↦ (let e : j ≡ v.id = ground arith in rw e w.own)
        | inr differ ↦ w.others j (pages j) (ground arith) d
      ];
      out = λ j q found absent. rw (only_victim j q found absent) w.own;
      still = fewer;
    }

  module _ (g : Pager) (pages : ℕ → List Row) (k : IsPool g pages) (page : Page)
      (absent : find_page page.id g.cache.lru ≡ none) where
    -- The path of `put_shared` for a page that is not cached.
    pub record IsAdmitted : Type 0 where
      pub after : Pager
      pub rest : List Page
      pub made :
          admit (some (on_cache_evict z)) (ok g) g.cache page
          ≡ (ok after, record g.cache { lru = page ∷ rest })
      pub evicted : IsEvicted g after rest pages
      pub valid : IsValid (record g.cache { lru = page ∷ rest })

    valid_after : IsValid (record g.cache {
      lru = page ∷ rest_of (some (on_cache_evict z)) (ok g) g.cache page k.valid;
    })
    valid_after = admitted-IsValid (some (on_cache_evict z)) (ok g) g.cache page k.valid absent

    staying : List Page
    unfolding rest_of
    staying = rest_of (some (on_cache_evict z)) (ok g) g.cache page k.valid

    rest-IsValid :
        (rest : List Page) → staying ≡ rest → IsValid (record g.cache { lru = page ∷ rest })
    unfolding staying
    rest-IsValid rest e = rw (← e) valid_after

    staying_full : leb g.cache.capacity (length g.cache.lru) ≡ true → staying ≡ pop_back g.cache.lru
    unfolding staying rest_of
    staying_full full = rw full

    staying_room : leb g.cache.capacity (length g.cache.lru) ≡ false → staying ≡ g.cache.lru
    unfolding staying rest_of
    staying_room room = rw room

    full_IsAdmitted : leb g.cache.capacity (length g.cache.lru) ≡ true → IsAdmitted
    unfolding admit evict_lru on_cache_evict
    full_IsAdmitted full =
        let (v, last, n) = last_page-some g.cache.lru (ground (arith, k.valid.positive)) in
        let valid = rest-IsValid (pop_back g.cache.lru) (staying_full full) in
        let cached = there g pages k v last in
        elim (Bool-cases v.dirty) [
          | inl dirty ↦
              let (g', wrote, w) =
                write_page_to_disk-IsWritten z schema g v (pages v.id) k.formatted
                  (no_compression-FitsSlot z g.storage.compression v.bytes k.plain
                    (k.held v.id v cached).0.within)
                  (k.held v.id v cached).0 (k.small v.id v cached) in
              record {
                after = g';
                rest = pop_back g.cache.lru;
                made = rw (full, last, dirty, wrote);
                evicted = dirty-IsEvicted g pages k v last g' w;
                valid = valid;
              }
          | inr clean ↦ record {
            after = g;
            rest = pop_back g.cache.lru;
            made = rw (full, last, clean);
            evicted = clean-IsEvicted g pages k v last clean;
            valid = valid;
          }
        ]

    pub admit-IsAdmitted : IsAdmitted
    unfolding admit
    admit-IsAdmitted = elim (Bool-cases (leb g.cache.capacity (length g.cache.lru))) [
      | inl full ↦ full_IsAdmitted full
      | inr room ↦ record {
        after = g;
        rest = g.cache.lru;
        made = rw room;
        evicted = nothing-IsEvicted g pages k;
        valid = rest-IsValid g.cache.lru (staying_room room);
      }
    ]
