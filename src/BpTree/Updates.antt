-- ===== src/BpTree/Updates.antt =====
-- Lookup after an insertion or an erasure, and the order that they keep.
use Prim.Native.Nat.{Ordering}
use xdl.Prelude.{
  ℕ, zero, suc, ◌≡◌, ◌∙◌, sym, refl, ap, Option, none, some, List, [], ◌∷◌, if◌then◌else◌, arith,
  Option-cases, inl, inr, erase_at,
}
use xdl.Index.{contains, set_erase}
use xdl.BpTree.{
  Entry, is_eq, lower_bound, find_entry, ids_of, set_ids_at, insert_at, add_id, insert_key,
  drop_or_set, erase_key,
}
use xdl.BpTree.Keyed.{
  cmp, cmp_eq, cmp_flip, Below, Sorted, lookup, Below-lt, lookup-Below, find_entry-lookup,
}

module _ (key : List ℕ) where
  module _ (k : List ℕ) where
    lookup-set_ids_at :
        (es : List Entry) (ids old : List ℕ)
        → Sorted es
        → lookup key es ≡ some old
        → lookup k (set_ids_at (lower_bound key es) ids es)
          ≡ (if is_eq (cmp key k) then some ids else lookup k es)
    unfolding lookup lower_bound
    lookup-set_ids_at [] ids old s h = cc
    lookup-set_ids_at (e ∷ es) ids old s h = ground (
      arith,
      lookup-set_ids_at es ids old s.1,
      cmp_eq e.key_data key,
      cmp_eq e.key_data k,
      cmp_flip k key,
      cmp_flip key e.key_data,
      Below-lt key e.key_data es,
      lookup-Below key es,
    )

    lookup-insert_at :
        (es : List Entry) (ids : List ℕ)
        → lookup key es ≡ none
        → lookup k (insert_at (lower_bound key es) (record { key_data = key; ids = ids }) es)
          ≡ (if is_eq (cmp key k) then some ids else lookup k es)
    unfolding lookup lower_bound
    lookup-insert_at [] ids h = refl
    lookup-insert_at (e ∷ es) ids h =
        ground (arith, lookup-insert_at es ids, cmp_eq e.key_data k, cmp_flip k key)

    lookup-erase_at :
        (es : List Entry) (old : List ℕ)
        → Sorted es
        → lookup key es ≡ some old
        → lookup k (erase_at es (lower_bound key es))
          ≡ (if is_eq (cmp key k) then none else lookup k es)
    unfolding lookup lower_bound
    lookup-erase_at [] old s h = cc
    lookup-erase_at (e ∷ es) old s h = ground (
      arith,
      lookup-erase_at es old s.1,
      cmp_eq e.key_data key,
      cmp_eq e.key_data k,
      cmp_eq key k,
      cmp_flip k key,
      cmp_flip key e.key_data,
      Below-lt key e.key_data es,
      lookup-Below key es,
      lookup-Below k es,
    )

  Below-set_ids_at :
      (b : List ℕ) (i : ℕ) (ids : List ℕ) (es : List Entry)
      → Below b es
      → Below b (set_ids_at i ids es)
  Below-set_ids_at b i ids [] h = tt
  Below-set_ids_at b zero ids (e ∷ es) h = h
  Below-set_ids_at b (suc i) ids (e ∷ es) h = (h.0, Below-set_ids_at b i ids es h.1)

  set_ids_at-Sorted :
      (i : ℕ) (ids : List ℕ) (es : List Entry) → Sorted es → Sorted (set_ids_at i ids es)
  set_ids_at-Sorted i ids [] s = tt
  set_ids_at-Sorted zero ids (e ∷ es) s = s
  set_ids_at-Sorted (suc i) ids (e ∷ es) s =
      (Below-set_ids_at e.key_data i ids es s.0, set_ids_at-Sorted i ids es s.1)

  Below-insert_at :
      (b : List ℕ) (i : ℕ) (e : Entry) (es : List Entry)
      → cmp b e.key_data ≡ Ordering.lt
      → Below b es
      → Below b (insert_at i e es)
  Below-insert_at b zero e es h k = (h, k)
  Below-insert_at b (suc i) e [] h k = (h, tt)
  Below-insert_at b (suc i) e (f ∷ es) h k = (k.0, Below-insert_at b i e es h k.1)

  insert_at-Sorted :
      (ids : List ℕ) (es : List Entry)
      → lookup key es ≡ none
      → Sorted es
      → Sorted (insert_at (lower_bound key es) (record { key_data = key; ids = ids }) es)
  unfolding lookup lower_bound
  insert_at-Sorted ids [] h s = (tt, tt)
  insert_at-Sorted ids (e ∷ es) h s = ground (
    arith,
    insert_at-Sorted ids es,
    cmp_flip key e.key_data,
    Below-lt key e.key_data es,
    Below-insert_at e.key_data (lower_bound key es) (record { key_data = key; ids = ids }) es,
  )

Below-erase_at : (b : List ℕ) (i : ℕ) (es : List Entry) → Below b es → Below b (erase_at es i)
Below-erase_at b i [] h = tt
Below-erase_at b zero (e ∷ es) h = h.1
Below-erase_at b (suc i) (e ∷ es) h = (h.0, Below-erase_at b i es h.1)

erase_at-Sorted : (i : ℕ) (es : List Entry) → Sorted es → Sorted (erase_at es i)
erase_at-Sorted i [] s = tt
erase_at-Sorted zero (e ∷ es) s = s.1
erase_at-Sorted (suc i) (e ∷ es) s = (Below-erase_at e.key_data i es s.0, erase_at-Sorted i es s.1)

abbrev pub ids_or_none : Option (List ℕ) → List ℕ
ids_or_none none = []
ids_or_none (some ids) = ids

-- A key whose last id was erased has no entry.
abbrev pub kept : List ℕ → Option (List ℕ)
kept [] = none
kept (id ∷ ids) = some (id ∷ ids)

abbrev pub erased_ids : ℕ → Option (List ℕ) → Option (List ℕ)
erased_ids id none = none
erased_ids id (some ids) = kept (set_erase id ids)

module _ (key : List ℕ) (id : ℕ) (es : List Entry) (s : Sorted es) where
  -- An insertion keeps the vector sorted, adds the id under its key once, and leaves the ids under
  -- every other key.
  pub insert_key_lem :
      Sorted (insert_key key id es)
      × ((k : List ℕ)
          → lookup k (insert_key key id es) ≡ (
              if is_eq (cmp key k)
              then some (add_id id (ids_or_none (lookup key es)))
              else lookup k es))
  insert_key_lem = elim (Option-cases (find_entry key es)) [
    | inl absent ↦
        let gone : lookup key es ≡ none = sym (find_entry-lookup key es s) ∙ ap ids_of absent in
        rw (inserted absent, gone)
          (
            insert_at-Sorted key (id ∷ []) es gone s,
            λ k. unfold add_id contains in lookup-insert_at key k es (id ∷ []) gone,
          )
    | inr (e, present) ↦
        let there : lookup key es ≡ some e.ids =
          sym (find_entry-lookup key es s) ∙ ap ids_of present in
        rw (extended e present, there)
          (
            set_ids_at-Sorted key (lower_bound key es) (add_id id e.ids) es s,
            λ k. lookup-set_ids_at key k es (add_id id e.ids) e.ids s there,
          )
  ]
    where
      inserted :
          find_entry key es ≡ none
          → insert_key key id es
            ≡ insert_at (lower_bound key es) (record { key_data = key; ids = id ∷ [] }) es
      inserted h = unfold insert_key in ground arith

      extended :
          (e : Entry)
          → find_entry key es ≡ some e
          → insert_key key id es ≡ set_ids_at (lower_bound key es) (add_id id e.ids) es
      extended e h = unfold insert_key in ground arith

  -- An erasure keeps the vector sorted, takes the id from under its key, and the entry with it if
  -- that was the last one, and leaves the ids under every other key.
  pub erase_key_lem :
      Sorted (erase_key key id es)
      × ((k : List ℕ)
          → lookup k (erase_key key id es)
            ≡ (if is_eq (cmp key k) then erased_ids id (lookup key es) else lookup k es))
  erase_key_lem = elim (Option-cases (find_entry key es)) [
    | inl absent ↦
        let gone : lookup key es ≡ none = sym (find_entry-lookup key es s) ∙ ap ids_of absent in
        rw (same absent, gone) (s, λ k. missing gone k)
    | inr (e, present) ↦
        let there : lookup key es ≡ some e.ids =
          sym (find_entry-lookup key es s) ∙ ap ids_of present in
        rw (shrunk e present, there) (split e there (set_erase id e.ids))
  ]
    where
      same : find_entry key es ≡ none → erase_key key id es ≡ es
      same h = unfold erase_key in ground arith

      shrunk :
          (e : Entry)
          → find_entry key es ≡ some e
          → erase_key key id es ≡ drop_or_set (lower_bound key es) (set_erase id e.ids) es
      shrunk e h = unfold erase_key in ground arith

      missing :
          lookup key es ≡ none
          → (k : List ℕ) → lookup k es ≡ (if is_eq (cmp key k) then none else lookup k es)
      missing gone k = ground (arith, cmp_eq key k)

      split :
          (e : Entry)
          → lookup key es ≡ some e.ids
          → (ids : List ℕ)
          → Sorted (drop_or_set (lower_bound key es) ids es)
            × ((k : List ℕ)
                → lookup k (drop_or_set (lower_bound key es) ids es)
                  ≡ (if is_eq (cmp key k) then kept ids else lookup k es))
      split e there [] =
          (erase_at-Sorted (lower_bound key es) es s, λ k. lookup-erase_at key k es e.ids s there)
      split e there (x ∷ ids) = (
        set_ids_at-Sorted key (lower_bound key es) (x ∷ ids) es s,
        λ k. lookup-set_ids_at key k es (x ∷ ids) e.ids s there,
      )
