-- ===== src/Index/Valid.antt =====
-- The invariant of the primary index.
use xdl.Prelude.{ℕ, ◌≡◌, refl, Bool, true, false, Option, none, some, List, [], ◌==◌}
use xdl.SortedPairs.{IndexEntry, lookup}
use xdl.SortedPairs.Laws.{Sorted, Distinct}
use xdl.SortedPairs.MergeLaws.{Apart, either}
use xdl.Index.{IndexManager, contains, page_ids, empty_index}

abbrev pub is_some {ℓ} : {A : Type ℓ} → Option A → Bool
is_some none = false
is_some (some a) = true

-- Is the id in the set of the page? A page without a set has no ids.
abbrev pub listed : ℕ → Option (List ℕ) → Bool
listed id none = false
listed id (some ids) = contains id ids

abbrev pub on_page : ℕ → Option IndexEntry → Bool
on_page page none = false
on_page page (some e) = e.page_id == page

-- The vector is sorted and the buffer has no id twice, nor one of the vector; the hash set holds
-- the ids of the buffer; before `prepare` nothing was merged; the set of a page holds the ids that
-- are found on it.
pub record IsValid (m : IndexManager) : Type 0 where
  pub sorted : Sorted m.entries
  pub distinct : Distinct m.buf
  pub apart : Apart m.entries m.buf
  pub ids : (id : ℕ) → contains id m.buf_ids ≡ is_some (lookup id m.buf)
  pub unprepared : m.prepared ≡ false → m.entries ≡ []
  pub pages :
      (page id : ℕ)
      → listed id (page_ids page m.page_to_ids)
        ≡ on_page page (either (lookup id m.entries) (lookup id m.buf))

pub empty_index-IsValid : IsValid empty_index
unfolding contains lookup page_ids
empty_index-IsValid = record {
  sorted = tt;
  distinct = tt;
  apart = tt;
  ids = λ id. refl;
  unprepared = λ h. refl;
  pages = λ page id. refl;
}
