-- ===== src/Index/PageOffsets.antt =====
-- `update_offsets_for_page`: the reverse map finds exactly the entries of the page.
use xdl.Prelude.{
  ℕ, ◌≡◌, ◌∙◌, refl, true, false, Option, none, some, List, [], ◌∷◌, if◌then◌else◌, arith, ◌==◌,
  Option-cases, inl, inr,
}
use xdl.SortedPairs.{IndexEntry}
use xdl.Index.{
  IndexManager, contains, find, update_offset, ids_for_page, update_each, update_offsets_for_page,
}
use xdl.Index.Valid.{IsValid, listed, on_page}
use xdl.Index.Lookup.{find-view}
use xdl.Index.Change.{changed, update_offset_lem}

-- The entry with another page offset.
abbrev pub moved : ℕ → IndexEntry → IndexEntry
moved offset e = record e { page_offset = offset }

record Moves (offset : ℕ) (m : IndexManager) (ids : List ℕ) (r : IndexManager) : Type 0 where
  valid : IsValid r
  finds :
      (j : ℕ) → find r j ≡ (if contains j ids then changed (moved offset) (find m j) else find m j)

moved_twice :
    (offset : ℕ) (o : Option IndexEntry)
    → changed (moved offset) (changed (moved offset) o) ≡ changed (moved offset) o
moved_twice offset none = refl
moved_twice offset (some e) = refl

update_each_lem :
    (offset : ℕ) (m : IndexManager) (ids : List ℕ)
    → IsValid m
    → Moves offset m ids (update_each offset m ids)
unfolding update_each contains
update_each_lem offset m [] v = record { valid = v; finds = λ j. refl }
update_each_lem offset m (id ∷ ids) v =
    let c = update_offset_lem m id offset v in
    let r = update_each_lem offset (update_offset m id offset) ids c.valid in
    record { valid = r.valid; finds = λ j. r.finds j ∙ step j (c.finds j) }
  where
    step :
        (j : ℕ)
        → find (update_offset m id offset) j
          ≡ (if j == id then changed (moved offset) (find m j) else find m j)
        → (if contains j ids
            then changed (moved offset) (find (update_offset m id offset) j)
            else find (update_offset m id offset) j)
          ≡ (if (if id == j then true else contains j ids)
              then changed (moved offset) (find m j)
              else find m j)
    step j e = rw e (ground (arith, moved_twice offset (find m j)))

-- On a valid index, exactly the entries that are found on the page get the new offset, every other
-- id is found as before, and the index stays valid.
pub update_offsets_for_page_lem :
    (m : IndexManager) (page offset : ℕ)
    → IsValid m
    → IsValid (update_offsets_for_page m page offset)
      × ((j : ℕ)
          → find (update_offsets_for_page m page offset) j
            ≡ (if on_page page (find m j) then changed (moved offset) (find m j) else find m j))
update_offsets_for_page_lem m page offset v = elim (Option-cases (ids_for_page m page)) [
  | inl no_ids ↦ rw (unlisted no_ids) (v, λ j. rw (off_page no_ids j))
  | inr (ids, set) ↦
      let r = update_each_lem offset m ids v in
      rw (each ids set) (r.valid, λ j. rw (← members ids set j) (r.finds j))
]
  where
    reverse : (j : ℕ) → listed j (ids_for_page m page) ≡ on_page page (find m j)
    reverse j = rw (find-view v j) (unfold ids_for_page in v.pages page j)

    off_page : ids_for_page m page ≡ none → (j : ℕ) → on_page page (find m j) ≡ false
    off_page e j = rw (← reverse j, e)

    members :
        (ids : List ℕ)
        → ids_for_page m page ≡ some ids
        → (j : ℕ) → contains j ids ≡ on_page page (find m j)
    members ids e j = rw (← reverse j, e)

    unlisted : ids_for_page m page ≡ none → update_offsets_for_page m page offset ≡ m
    unlisted e = unfold update_offsets_for_page in ground arith

    each :
        (ids : List ℕ)
        → ids_for_page m page ≡ some ids
        → update_offsets_for_page m page offset ≡ update_each offset m ids
    each ids e = unfold update_offsets_for_page in ground arith
