-- ===== src/Index/Change.antt =====
-- `update_slot` and `update_offset` against the map that the index stands for.
use xdl.Prelude.{
  ℕ, ◌≡◌, ◌∙◌, sym, refl, ap, Option, none, some, List, [], ◌∷◌, if◌then◌else◌, arith, ◌==◌,
  Bool-cases, Option-cases, inl, inr,
}
use xdl.SortedPairs.{IndexEntry, Pair, lookup, sorted_change, linear_change}
use xdl.SortedPairs.Laws.{
  lookup-sorted_change, sorted_change-Sorted, lookup-linear_change, linear_change-Distinct,
}
use xdl.SortedPairs.MergeLaws.{Apart}
use xdl.Index.{IndexManager, find, change, update_offset, update_slot}
use xdl.Index.Valid.{IsValid, is_some, on_page}
use xdl.Index.Lookup.{view, find_sorted-lookup, find-view}

-- The map after the entry of one id was changed.
abbrev pub changed : (IndexEntry → IndexEntry) → Option IndexEntry → Option IndexEntry
changed f none = none
changed f (some e) = some (f e)

Apart-linear_change :
    (id : ℕ) (f : IndexEntry → IndexEntry) (ps qs : List Pair)
    → Apart ps qs
    → Apart ps (linear_change id f qs)
unfolding linear_change
Apart-linear_change id f ps [] a = tt
Apart-linear_change id f ps (q ∷ qs) a = ground (arith, Apart-linear_change id f ps qs a.1)

Apart-sorted_change :
    (id : ℕ) (f : IndexEntry → IndexEntry) (e : IndexEntry) (ps qs : List Pair)
    → ((j : ℕ) → lookup j (sorted_change id f ps) ≡ (if j == id then some (f e) else lookup j ps))
    → lookup id ps ≡ some e
    → Apart ps qs
    → Apart (sorted_change id f ps) qs
Apart-sorted_change id f e ps [] h k a = tt
Apart-sorted_change id f e ps (q ∷ qs) h k a = (
  elim (Bool-cases (q.id == id)) [
    | inl same ↦
        absurd
          (let p : q.id ≡ id = ground arith in clash (sym a.0 ∙ ap (λ (i : ℕ). lookup i ps) p ∙ k))
    | inr other ↦ rw (h q.id, other) a.0
  ],
  Apart-sorted_change id f e ps qs h k a.1,
)
  where
    clash : ◌≡◌ {A = Option IndexEntry} none (some e) → ⊥
    clash q = cc

module _ (f : IndexEntry → IndexEntry) (keeps : (e : IndexEntry) → (f e).page_id ≡ e.page_id)
    {m : IndexManager} (v : IsValid m) (id : ℕ) where
  in_entries : IndexManager
  in_entries = record m { entries = sorted_change id f m.entries }

  in_buf : IndexManager
  in_buf = record m { buf = linear_change id f m.buf }

  view-in_entries :
      (j : ℕ) (e : IndexEntry)
      → lookup id m.entries ≡ some e
      → view in_entries j ≡ (if j == id then some (f e) else view m j)
  unfolding in_entries
  view-in_entries j e h = ground (arith, lookup-sorted_change id f j m.entries e v.sorted h)

  in_entries-IsValid : (e : IndexEntry) → lookup id m.entries ≡ some e → IsValid in_entries
  unfolding in_entries
  in_entries-IsValid e h = record {
    sorted = sorted_change-Sorted id f m.entries v.sorted;
    distinct = v.distinct;
    apart =
        Apart-sorted_change id f e m.entries m.buf
          (λ j. lookup-sorted_change id f j m.entries e v.sorted h) h v.apart;
    ids = v.ids;
    unprepared = λ u. empty (v.unprepared u);
    pages = λ page j. v.pages page j ∙ ap (on_page page) refl ∙ page_same page j;
  }
    where
      empty : m.entries ≡ [] → sorted_change id f m.entries ≡ []
      empty z = rw z (unfold sorted_change in refl)

      page_same : (page j : ℕ) → on_page page (view m j) ≡ on_page page (view in_entries j)
      page_same page j = elim (Bool-cases (j == id)) [
        | inl same ↦
            let p : j ≡ id = ground arith in rw (view-in_entries j e h, same, p, h, keeps e)
        | inr other ↦ rw (view-in_entries j e h, other)
      ]

  view-in_buf :
      (j : ℕ) (e : IndexEntry)
      → lookup id m.entries ≡ none
      → lookup id m.buf ≡ some e
      → view in_buf j ≡ (if j == id then some (f e) else view m j)
  unfolding in_buf
  view-in_buf j e n h = elim (Bool-cases (j == id)) [
    | inl same ↦
        let p : j ≡ id = ground arith in rw (lookup-linear_change id f j m.buf e h, same, p, n)
    | inr other ↦ rw (lookup-linear_change id f j m.buf e h, other)
  ]

  in_buf-IsValid :
      (e : IndexEntry) → lookup id m.entries ≡ none → lookup id m.buf ≡ some e → IsValid in_buf
  unfolding in_buf
  in_buf-IsValid e n h = record {
    sorted = v.sorted;
    distinct = linear_change-Distinct id f m.buf v.distinct;
    apart = Apart-linear_change id f m.entries m.buf v.apart;
    ids = λ j. v.ids j ∙ still j;
    unprepared = v.unprepared;
    pages = λ page j. v.pages page j ∙ page_same page j;
  }
    where
      still : (j : ℕ) → is_some (lookup j m.buf) ≡ is_some (lookup j (linear_change id f m.buf))
      still j = elim (Bool-cases (j == id)) [
        | inl same ↦
            let p : j ≡ id = ground arith in rw (lookup-linear_change id f j m.buf e h, same, p, h)
        | inr other ↦ rw (lookup-linear_change id f j m.buf e h, other)
      ]

      page_same : (page j : ℕ) → on_page page (view m j) ≡ on_page page (view in_buf j)
      page_same page j = elim (Bool-cases (j == id)) [
        | inl same ↦
            let p : j ≡ id = ground arith in rw (view-in_buf j e n h, same, p, n, h, keeps e)
        | inr other ↦ rw (view-in_buf j e n h, other)
      ]

-- What a change of one entry makes of the map.
pub record Changes (f : IndexEntry → IndexEntry) (m : IndexManager) (id : ℕ) (r : IndexManager)
    : Type 0 where
  pub valid : IsValid r
  pub finds : (j : ℕ) → find r j ≡ (if j == id then changed f (find m j) else find m j)

linear_change_absent :
    (id : ℕ) (f : IndexEntry → IndexEntry) (ps : List Pair)
    → lookup id ps ≡ none
    → linear_change id f ps ≡ ps
unfolding linear_change lookup
linear_change_absent id f [] h = refl
linear_change_absent id f (p ∷ ps) h = ground (arith, linear_change_absent id f ps)

change_lem :
    (f : IndexEntry → IndexEntry)
    → ((e : IndexEntry) → (f e).page_id ≡ e.page_id)
    → (m : IndexManager) (id : ℕ) → IsValid m
    → Changes f m id (change f m id)
change_lem f keeps m id v = elim (Option-cases (lookup id m.entries)) [
  | inr (e, h) ↦ rw (sorted e h) (record {
    valid = in_entries-IsValid f keeps v id e h;
    finds = λ j.
        rw (find-view (in_entries-IsValid f keeps v id e h) j, find-view v j)
          (view-in_entries f keeps v id j e h ∙ spell e (rw h) j);
  })
  | inl n ↦ elim (Option-cases (lookup id m.buf)) [
    | inr (e, h) ↦ rw (buffered e n) (record {
      valid = in_buf-IsValid f keeps v id e n h;
      finds = λ j.
          rw (find-view (in_buf-IsValid f keeps v id e n h) j, find-view v j)
            (view-in_buf f keeps v id j e n h ∙ spell e (rw (n, h)) j);
    })
    | inl n' ↦ rw (absent n n') (record { valid = v; finds = λ j. rw find-view (nothing n n' j) })
  ]
]
  where
    sorted :
        (e : IndexEntry) → lookup id m.entries ≡ some e → change f m id ≡ in_entries f keeps v id
    sorted e h = unfold change in_entries in ground (arith, find_sorted-lookup v id)

    buffered : (e : IndexEntry) → lookup id m.entries ≡ none → change f m id ≡ in_buf f keeps v id
    buffered e n = unfold change in_buf in ground (arith, find_sorted-lookup v id)

    absent : lookup id m.entries ≡ none → lookup id m.buf ≡ none → change f m id ≡ m
    absent n n' =
        unfold change in ground (arith, find_sorted-lookup v id, linear_change_absent id f m.buf n')

    spell :
        (e : IndexEntry)
        → view m id ≡ some e
        → (j : ℕ)
        → (if j == id then some (f e) else view m j)
          ≡ (if j == id then changed f (view m j) else view m j)
    spell e h j = elim (Bool-cases (j == id)) [
      | inl same ↦
          rw same (let p : j ≡ id = ground arith in ap (changed f) (sym h ∙ sym (ap (view m) p)))
      | inr other ↦ rw other
    ]

    nothing :
        lookup id m.entries ≡ none
        → lookup id m.buf ≡ none
        → (j : ℕ) → view m j ≡ (if j == id then changed f (view m j) else view m j)
    nothing n n' j = elim (Bool-cases (j == id)) [
      | inl same ↦ rw same (
          let p : j ≡ id = ground arith in
          let q : view m j ≡ none = ap (view m) p ∙ rw (n, n') in q ∙ sym (ap (changed f) q))
      | inr other ↦ rw other
    ]

-- `update_slot` changes the slot of one entry and nothing else of what is found.
pub update_slot_lem :
    (m : IndexManager) (id slot : ℕ)
    → IsValid m
    → Changes (λ e. record e { row_slot = slot }) m id (update_slot m id slot)
unfolding update_slot
update_slot_lem m id slot v = change_lem _ (λ e. refl) m id v

pub update_offset_lem :
    (m : IndexManager) (id offset : ℕ)
    → IsValid m
    → Changes (λ e. record e { page_offset = offset }) m id (update_offset m id offset)
unfolding update_offset
update_offset_lem m id offset v = change_lem _ (λ e. refl) m id v
