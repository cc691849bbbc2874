-- ===== src/Pager/Flush.antt =====
-- What the flushes of the pager leave in the cache and in the file.
use xdl.Prelude.{
  ℕ, ◌≡◌, ◌∙◌, sym, refl, ap, ◌≢◌, inl, inr, Bool, true, false, none, some, List, [], ◌∷◌, Result,
  ok, All, ◌==◌, if◌then◌else◌, Bool-cases, Option-cases, arith,
}
use mathlib.Core.Path.{subst, fun_ext}
use xdl.Schema.{Schema}
use xdl.Row.{Row}
use xdl.Page.{Page}
use xdl.Page.Holds.{Holds}
use xdl.Storage.{DbHeader, read_db_header}
use xdl.Compression.{Lz4}
use xdl.Index.{IndexManager}
use xdl.Cache.{PageCache, find_page, get}
use xdl.Cache.Bounds.{find_page_id, get_lem}
use xdl.Pager.{Pager, set_page, replace_page, write_page_to_disk, flush_found, flushed}
use xdl.Pager.Blocks.{IsOnDisk, IsWritten, no_compression-FitsSlot, write_page_to_disk-IsWritten}
use xdl.Pager.Reads.{IsServing, moved_IsServing, same_page}
use xdl.Pager.Writes.{
  with_rows, changed_IsServing, reindexed_IsServing, replaced_other, replaced_own,
}

same_rows : (id : ℕ) (pages : ℕ → List Row) → with_rows id (pages id) pages ≡ pages
same_rows id pages = fun_ext (λ j. elim (Bool-cases (j == id)) [
  | inl same ↦ rw same (let e : id ≡ j = ground arith in ap pages e)
  | inr differ ↦ rw differ
])

abbrev pub IsDirty : Pager → ℕ → Type 0
IsDirty g j = (p : Page) × (find_page j g.cache.lru ≡ some p) × (p.dirty ≡ true)

not_both : (p q : Page) → p ≡ q → p.dirty ≡ false → q.dirty ≡ true → ⊥
not_both p q e clean dirty = cc (ap (λ x. x.dirty) e, clean, dirty)

module _ (z : Lz4) (schema : Schema) (pages : ℕ → List Row) where
  -- A flush that returned: the pages stand for the same rows, no page has become dirty, and those of
  -- `ids` are clean.
  pub record IsFlushed (g : Pager) (ids : List ℕ) (r : Pager × Result (Unit {0})) : Type 0 where
    pub after : Pager
    pub result : r ≡ (after, ok tt)
    pub serving : IsServing z schema after pages
    pub same_next : after.next_page_id ≡ g.next_page_id
    pub header :
        (hdr : DbHeader) → read_db_header g.storage ≡ ok hdr → read_db_header after.storage ≡ ok hdr
    pub cleaned : (j : ℕ) → IsDirty after j → All (λ i. j ≢ i) ids × IsDirty g j

  -- A page that was written, with the pager after it.
  written_IsServing :
      (g g' : Pager) (id : ℕ)
      → IsServing z schema g pages
      → IsWritten z schema g g' id (pages id)
      → IsServing z schema g' pages
  written_IsServing g g' id k w = record {
    pool = record {
      formatted = w.formatted;
      plain = rw w.same_type k.pool.plain;
      valid = rw w.same_cache k.pool.valid;
      small =
          λ j p found. k.pool.small j p (ap (λ c. find_page j c.lru) (sym w.same_cache) ∙ found);
      held = λ j p found.
          let (holds, backed) =
            k.pool.held j p (ap (λ c. find_page j c.lru) (sym w.same_cache) ∙ found) in
          (holds, elim backed [ inl dirty ↦ inl dirty | inr d ↦ inr (moved j d) ]);
    };
    few = rw w.same_next k.few;
    known = λ j p found.
        rw w.same_next (k.known j p (ap (λ c. find_page j c.lru) (sym w.same_cache) ∙ found));
    stored = λ j low gone. moved j (
        k.stored j (omega (arith, w.same_next))
          (ap (λ c. find_page j c.lru) (sym w.same_cache) ∙ gone));
  }
    where
      moved :
          (j : ℕ)
          → IsOnDisk z schema g.storage g.page_offsets j (pages j)
          → IsOnDisk z schema g'.storage g'.page_offsets j (pages j)
      moved j d = elim (Bool-cases (j == id)) [
        | inl same ↦
            (let e : id ≡ j = ground arith in
              subst (λ i. IsOnDisk z schema g'.storage g'.page_offsets i (pages i)) e w.own)
        | inr differ ↦ w.others j (pages j) (ground arith) d
      ]

  -- The page of the pager is made clean after it was written.
  clean_IsServing :
      (g : Pager) (page : Page)
      → IsServing z schema g pages
      → find_page page.id g.cache.lru ≡ some page
      → Holds schema page (pages page.id)
      → IsOnDisk z schema g.storage g.page_offsets page.id (pages page.id)
      → IsServing z schema (set_page g (record page { dirty = false })) pages
  clean_IsServing g page k found holds d =
      subst (IsServing z schema (set_page g (record page { dirty = false })))
        (same_rows page.id pages)
        (changed_IsServing z schema g pages k (record page { dirty = false }) page (pages page.id)
          found (inr d)
          (record {
            chunks = holds.chunks;
            images = holds.images;
            packed = holds.packed;
            offsets = holds.offsets;
            count = holds.count;
            within = holds.within;
          })).0

  module _ (g : Pager) (k : IsServing z schema g pages) (id : ℕ) where
    moved : Pager
    moved = record g { cache = (get g.cache id).1 }

    same : (j : ℕ) → find_page j (get g.cache id).1.lru ≡ find_page j g.cache.lru
    same = (get_lem g.cache id k.pool.valid).2

    got : (get g.cache id).0 ≡ find_page id g.cache.lru
    got = (get_lem g.cache id k.pool.valid).1

    moved-IsServing : IsServing z schema moved pages
    unfolding moved
    moved-IsServing =
        moved_IsServing z schema g pages k (get g.cache id).1 (get_lem g.cache id k.pool.valid).0
          same

    module _ (page : Page) (present : find_page id g.cache.lru ≡ some page) where
      named : page.id ≡ id
      named = find_page_id id g.cache.lru page present

      in_moved : find_page page.id moved.cache.lru ≡ some page
      unfolding moved
      in_moved =
          subst (λ i. find_page i (get g.cache id).1.lru ≡ some page) (sym named)
            (same id ∙ present)

      clean_IsFlushed : page.dirty ≡ false → IsFlushed g (id ∷ []) (moved, ok tt)
      unfolding moved
      clean_IsFlushed clean = record {
        after = moved;
        result = refl;
        serving = moved-IsServing;
        same_next = refl;
        header = λ hdr read. read;
        cleaned = λ j (p, found, dirty).
            let there = sym (same j) ∙ found in
            (
              (
                λ e.
                    not_both page p (cc (present, there, ap (λ i. find_page i g.cache.lru) e)) clean
                      dirty,
                tt,
              ),
              (p, there, dirty),
            );
      }

      module _ (g' : Pager) (w : IsWritten z schema moved g' page.id (pages page.id))
          (m : IndexManager) where
        in_written : find_page page.id g'.cache.lru ≡ some page
        in_written = ap (λ (c : PageCache). find_page page.id c.lru) w.same_cache ∙ in_moved

        dirty_IsFlushed :
            IsFlushed g
              (id ∷ [])
              (set_page (record g' { index = m }) (record page { dirty = false }), ok tt)
        unfolding set_page moved
        dirty_IsFlushed = record {
          after = set_page (record g' { index = m }) (record page { dirty = false });
          result = refl;
          serving =
              clean_IsServing (record g' { index = m }) page
                (reindexed_IsServing z schema g' pages
                  (written_IsServing moved g' page.id moved-IsServing w) m)
                in_written (moved-IsServing.pool.held page.id page in_moved).0 w.own;
          same_next = w.same_next;
          header = w.header;
          cleaned = λ j (p, found, dirty). elim (same_page z schema j page) [
            | inl e ↦
                let set =
                  replaced_own (record page { dirty = false }) page g'.cache.lru in_written in
                absurd (
                  not_both (record page { dirty = false }) p
                    (cc (
                      set,
                      found,
                      ap
                          (λ i.
                            find_page i (replace_page (record page { dirty = false }) g'.cache.lru))
                          e,
                    ))
                    refl dirty)
            | inr differ ↦
                let there =
                  sym (same j)
                  ∙ (sym (ap (λ (c : PageCache). find_page j c.lru) w.same_cache)
                      ∙ (sym (replaced_other j (record page { dirty = false }) g'.cache.lru differ)
                          ∙ found)) in
                ((λ e. differ (e ∙ sym named), tt), (p, there, dirty))
          ];
        }

    either_IsFlushed :
        (page : Page) (present : find_page id g.cache.lru ≡ some page) (g' : Pager)
        → IsWritten z schema moved g' page.id (pages page.id)
        → (c : Bool) (m : IndexManager)
        → IsFlushed g (id ∷ []) (
          set_page (if c then record g' { index = m } else g') (record page { dirty = false }),
          ok tt,
        )
    either_IsFlushed page present g' w true m = dirty_IsFlushed page present g' w m
    either_IsFlushed page present g' w false m = dirty_IsFlushed page present g' w g'.index

    -- One round of a flush.
    pub flush_found-IsFlushed :
        (always : Bool) → IsFlushed g (id ∷ []) (flush_found z always g (get g.cache id))
    flush_found-IsFlushed always = elim (Option-cases (find_page id g.cache.lru)) [
      | inl absent ↦
          let miss : get g.cache id ≡ (none, (get g.cache id).1) =
            ap (λ o. (o, (get g.cache id).1)) (got ∙ absent) in
          subst (λ x. IsFlushed g (id ∷ []) (flush_found z always g x)) (sym miss)
            (record {
              after = g;
              result = refl;
              serving = k;
              same_next = refl;
              header = λ hdr read. read;
              cleaned = λ j (p, found, dirty). (
                (λ e. cc (absent, found, ap (λ i. find_page i g.cache.lru) e), tt),
                (p, found, dirty),
              );
            })
      | inr (page, present) ↦
          let hit : get g.cache id ≡ (some page, (get g.cache id).1) =
            ap (λ o. (o, (get g.cache id).1)) (got ∙ present) in
          subst (λ x. IsFlushed g (id ∷ []) (flush_found z always g x)) (sym hit)
            (found_IsFlushed page present)
    ]
      where
        found_IsFlushed :
            (page : Page)
            → find_page id g.cache.lru ≡ some page
            → IsFlushed g (id ∷ []) (flush_found z always g (some page, (get g.cache id).1))
        found_IsFlushed page present = elim (Bool-cases page.dirty) [
          | inl dirty ↦
              unfold moved in
              let here = in_moved page present in
              let s = moved-IsServing in
              let (g', wrote, w) =
                write_page_to_disk-IsWritten z schema moved page (pages page.id) s.pool.formatted
                  (no_compression-FitsSlot z moved.storage.compression page.bytes s.pool.plain
                    (s.pool.held page.id page here).0.within)
                  (s.pool.held page.id page here).0 (s.pool.small page.id page here) in
              subst
                (λ (b : Bool). IsFlushed g (id ∷ []) (
                  if b
                  then flushed z always moved page (write_page_to_disk z moved page)
                  else (moved, ok tt)))
                (sym dirty)
                (subst (λ x. IsFlushed g (id ∷ []) (flushed z always moved page x)) (sym wrote)
                  (either_IsFlushed page present g' w _ _))
          | inr clean ↦ rw clean (unfold moved in clean_IsFlushed page present clean)
        ]
