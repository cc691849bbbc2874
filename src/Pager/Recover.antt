-- ===== src/Pager/Recover.antt =====
-- `recover` of src/pager.cpp: the pages of the file are indexed when a database is opened.
use xdl.Prelude.{
  ℕ, zero, suc, ◌+◌, ◌%◌, ◌^◌, true, false, List, Result, ok, err, fault, leb, ltb, ◌==◌,
  if◌then◌else◌,
}
use xdl.Prelude.Calls.{Call, after_call}
use xdl.Schema.{Schema}
use xdl.Page.{Page, rebuild_row_offsets, get_row}
use xdl.Index.{insert, prepare}
use xdl.Storage.{
  PageHeader, page_header_size, read_db_header, read_page_raw, data_start_offset, file_size,
}
use xdl.Compression.{Lz4, decompress}
use xdl.Pager.{Pager, page_file_offset, set_offset, page_of}

module _ (z : Lz4) (schema : Schema) where
  -- The rows from `slot` on, with `n` to go. A duplicate id is skipped.
  unfoldable pub index_rows : ℕ → ℕ → ℕ → Page → Call Pager (Unit {0})
  index_rows offset slot zero page g = (g, ok tt)
  index_rows offset slot (suc n) page g =
      after_call (g, get_row page slot schema)
        (λ r g. index_rows offset (suc slot) n page (record g {
          index =
              (insert g.index r.id
                (record { page_id = page.id; page_offset = offset; row_slot = slot })).0;
        }))

  abbrev larger : ℕ → ℕ → ℕ
  larger a b = if leb a b then b else a

  abbrev learned : ℕ → ℕ → Call Pager (Unit {0})
  learned offset pid g = (
    record g {
      page_offsets = set_offset pid offset g.page_offsets;
      next_page_id = larger g.next_page_id ((pid + 1) % 2 ^ 32);
    },
    ok tt,
  )

  abbrev unpacked : ℕ → ℕ → PageHeader → Pager → Result (List ℕ) → Pager × Result (Unit {0})
  unpacked offset pid hdr g (ok bytes) =
      after_call (g, rebuild_row_offsets (page_of z pid hdr bytes))
        (λ page g.
          after_call (index_rows offset 0 page.row_count page g) (λ unit. learned offset pid))
  unpacked offset pid hdr g (err e) = (g, ok tt)
  unpacked offset pid hdr g fault = (g, fault)

  abbrev block_read : ℕ → ℕ → Pager → Result (PageHeader × List ℕ) → Pager × Result (Unit {0})
  block_read offset pid g (ok (hdr, blob)) =
      if hdr.page_id == pid
      then unpacked offset pid hdr g (decompress z hdr.compression_type blob hdr.uncompressed_size)
      else (g, ok tt)
  block_read offset pid g (err e) = (g, ok tt)
  block_read offset pid g fault = (g, fault)

  unfoldable pub recover_page : ℕ → ℕ → Call Pager (Unit {0})
  recover_page offset pid g = block_read offset pid g (read_page_raw g.storage offset)

  -- The page ids from `pid` on, with `n` to go.
  unfoldable pub recover_loop : ℕ → ℕ → ℕ → ℕ → Call Pager (Unit {0})
  recover_loop data_start file_sz pid zero g = (g, ok tt)
  recover_loop data_start file_sz pid (suc n) g =
      let offset = page_file_offset data_start pid in
      elim (ltb file_sz (offset + page_header_size)) [
        | true ↦ (g, ok tt)
        | false ↦
            after_call (recover_page offset pid g)
              (λ unit. recover_loop data_start file_sz (suc pid) n)
      ]

  unfoldable pub recover : Call Pager (Unit {0})
  recover g =
      after_call (g, read_db_header g.storage)
        (λ hdr g.
          after_call
            (recover_loop (data_start_offset g.storage) (file_size g.storage) 0 hdr.page_count g)
            (λ unit g. (record g { index = prepare g.index }, ok tt)))
