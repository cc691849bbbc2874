-- ===== src/Pager/Fresh.antt =====
-- A pager that was just made.
use xdl.Prelude.{ℕ, ◌≡◌, some, List, [], arith}
use xdl.Schema.{Schema}
use xdl.Row.{Row}
use xdl.Page.{Page}
use xdl.Storage.{Storage}
use xdl.Index.{IndexManager}
use xdl.Compression.{Lz4, no_compression}
use xdl.Cache.{find_page}
use xdl.Pager.{new_pager}
use xdl.Pager.Blocks.{IsFormatted}
use xdl.Pager.Reads.{IsServing}

nothing_cached : {A : Type 0} (id : ℕ) (p : Page) → find_page id [] ≡ some p → A
unfolding find_page
nothing_cached id p h = absurd cc

-- It serves no page yet, whatever its capacity.
pub new_pager-IsServing :
    (z : Lz4) (schema : Schema) (storage : Storage) (index : IndexManager) (capacity : ℕ)
    (pages : ℕ → List Row)
    → IsFormatted storage
    → storage.compression ≡ no_compression
    → IsServing z schema (new_pager storage index capacity) pages
new_pager-IsServing z schema storage index capacity pages f c = record {
  pool = record {
    formatted = f;
    plain = c;
    valid = record { positive = ground arith; bounded = omega arith; distinct = tt };
    small = λ id p h. nothing_cached id p h;
    held = λ id p h. nothing_cached id p h;
  };
  few = omega arith;
  known = λ id p h. nothing_cached id p h;
  stored = λ id low gone. absurd (omega arith);
}
