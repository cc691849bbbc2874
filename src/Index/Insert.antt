-- ===== src/Index/Insert.antt =====
-- `insert` against the map that the index stands for.
use xdl.Prelude.{
  ℕ, ◌≡◌, ◌∙◌, sym, refl, ap, Option, none, some, List, [], ◌∷◌, ◌++◌, Result, ok, err,
  duplicate_key, if◌then◌else◌, arith, ◌==◌, ◌&&◌, leb, length, Bool-cases, Option-cases, inl, inr,
}
use xdl.SortedPairs.{IndexEntry, Pair, lookup}
use xdl.SortedPairs.Laws.{Distinct}
use xdl.SortedPairs.MergeLaws.{Apart, either}
use xdl.Index.{
  IndexManager, set_insert, at_page, find, insert_new, insert, merge_buf, merge_threshold,
}
use xdl.Index.Valid.{IsValid}
use xdl.Index.Sets.{contains-set_insert, listed-insert}
use xdl.Index.Lookup.{view, find_sorted-lookup, find-view, view-merge_buf, merge_buf-IsValid}

abbrev pair : ℕ → IndexEntry → Pair
pair id e = record { id = id; entry = e }

lookup-push :
    (j id : ℕ) (e : IndexEntry) (ps : List Pair)
    → lookup j (ps ++ pair id e ∷ []) ≡ either (lookup j ps) (if id == j then some e else none)
unfolding lookup
lookup-push j id e [] = refl
lookup-push j id e (p ∷ ps) = ground (arith, lookup-push j id e ps)

push-Distinct :
    (id : ℕ) (e : IndexEntry) (ps : List Pair)
    → lookup id ps ≡ none
    → Distinct ps
    → Distinct (ps ++ pair id e ∷ [])
unfolding lookup
push-Distinct id e [] h d = (refl, tt)
push-Distinct id e (p ∷ ps) h d = ground (arith, push-Distinct id e ps, lookup-push p.id id e ps)

push-Apart :
    (id : ℕ) (e : IndexEntry) (ps qs : List Pair)
    → lookup id ps ≡ none
    → Apart ps qs
    → Apart ps (qs ++ pair id e ∷ [])
push-Apart id e ps [] h a = (h, tt)
push-Apart id e ps (q ∷ qs) h a = (a.0, push-Apart id e ps qs h a.1)

-- The index after a new id was buffered.
pushed : IndexManager → ℕ → IndexEntry → IndexManager
pushed m id e = record m {
  buf = m.buf ++ pair id e ∷ [];
  buf_ids = set_insert id m.buf_ids;
  page_to_ids = at_page e.page_id (set_insert id) m.page_to_ids;
}

module _ {m : IndexManager} (v : IsValid m) (id : ℕ) (e : IndexEntry) where
  insert_new-taken :
      {x : IndexEntry} → view m id ≡ some x → insert_new m id e ≡ (m, err duplicate_key)
  unfolding insert_new
  insert_new-taken h = ground (arith, find_sorted-lookup v id, v.ids id)

  insert_new-free : view m id ≡ none → insert_new m id e ≡ (pushed m id e, ok tt)
  unfolding insert_new pushed
  insert_new-free h = ground (arith, find_sorted-lookup v id, v.ids id)

  view-pushed :
      (j : ℕ) → view m id ≡ none → view (pushed m id e) j ≡ (if id == j then some e else view m j)
  unfolding pushed
  view-pushed j h = ground (arith, lookup-push j id e m.buf)

  pushed-IsValid : view m id ≡ none → IsValid (pushed m id e)
  unfolding pushed
  pushed-IsValid h = record {
    sorted = v.sorted;
    distinct = push-Distinct id e m.buf (ground arith) v.distinct;
    apart = push-Apart id e m.entries m.buf (ground arith) v.apart;
    ids =
        λ j. ground (arith, v.ids j, contains-set_insert j id m.buf_ids, lookup-push j id e m.buf);
    unprepared = v.unprepared;
    pages = λ page j. ground (
      arith,
      v.pages page j,
      listed-insert page e.page_id j id m.page_to_ids,
      lookup-push j id e m.buf,
    );
  }

-- What an insertion makes of the map and what it returns.
pub record Inserts (m : IndexManager) (id : ℕ) (e : IndexEntry)
    (r : IndexManager × Result (Unit {0})) : Type 0 where
  pub valid : IsValid r.0
  pub result : r.1 ≡ elim (find m id) [ none ↦ ok tt | some _ ↦ err duplicate_key ]
  pub finds :
      (j : ℕ)
      → find r.0 j
        ≡ (if id == j then some (elim (find m id) [ none ↦ e | some x ↦ x ]) else find m j)

insert_new_lem :
    (m : IndexManager) (id : ℕ) (e : IndexEntry) → IsValid m → Inserts m id e (insert_new m id e)
insert_new_lem m id e v = elim (Option-cases (view m id)) [
  | inl free ↦ rw (insert_new-free v id e free) (record {
    valid = pushed-IsValid v id e free;
    result = rw (find-view v id, free);
    finds = λ j.
        rw (find-view (pushed-IsValid v id e free) j, find-view v id, find-view v j, free)
          (view-pushed v id e j free);
  })
  | inr (x, taken) ↦ rw (insert_new-taken v id e taken) (record {
    valid = v;
    result = rw (find-view v id, taken);
    finds = λ j. rw (find-view v id, find-view v j, taken) (same x taken j);
  })
]
  where
    same :
        (x : IndexEntry)
        → view m id ≡ some x
        → (j : ℕ) → view m j ≡ (if id == j then some x else view m j)
    same x taken j = elim (Bool-cases (id == j)) [
      | inl eq ↦ rw eq (let p : j ≡ id = ground arith in ap (view m) p ∙ taken)
      | inr ne ↦ rw ne
    ]

-- On a valid index, `insert` throws exactly when the id is present, and leaves what is found as it
-- was; otherwise the id is found with its new entry and every other id as before. The index stays
-- valid in both cases.
pub insert_lem :
    (m : IndexManager) (id : ℕ) (e : IndexEntry) → IsValid m → Inserts m id e (insert m id e)
unfolding insert
insert_lem m id e v = elim (Bool-cases (m.prepared && leb merge_threshold (length m.buf))) [
  | inr small ↦ rw small (insert_new_lem m id e v)
  | inl full ↦
      let w = merge_buf-IsValid v (ground arith) in
      let i = insert_new_lem (merge_buf m) id e w in
      let same : (j : ℕ) → find (merge_buf m) j ≡ find m j =
        λ j. find-view w j ∙ view-merge_buf v j ∙ sym (find-view v j) in
      rw full (record {
        valid = i.valid;
        result =
            i.result
            ∙ ap (λ (o : Option IndexEntry). elim o [ none ↦ ok tt | some _ ↦ err duplicate_key ])
                (same id);
        finds = λ j. rw (← same id, ← same j) (i.finds j);
      })
]
