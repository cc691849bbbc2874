-- ===== src/Wal/Logged.antt =====
-- What the log holds: the records that were written since it was last cleared, on disk or still in
-- the buffer.
use xdl.Prelude.{
  ℕ, ◌+◌, ◌≡◌, ◌∙◌, sym, refl, ap, true, false, List, [], ◌∷◌, ◌++◌, length, length-append,
  append_assoc, append-nil, All, ◌==◌, Bool-cases, inl, inr, arith,
}
use xdl.WalFormat.{WalRecord}
use xdl.WalFormat.Records.{RecordFits}
use xdl.WalFormat.Logs.{encode_all, encode_all-append}
use xdl.Wal.{Wal, wal_header, flush_write_buffer}

-- The log is open and holds the records `safe`, `unsynced` and `buffered`, in this order: the first
-- are durable, the next were written to the file since the last fsync, the last are in the buffer.
pub record Logs (w : Wal) (rs : List WalRecord) : Type 0 where
  pub opened : w.is_open ≡ true
  pub fit : All RecordFits rs
  pub safe : List WalRecord
  pub unsynced : List WalRecord
  pub buffered : List WalRecord
  pub split : rs ≡ (safe ++ unsynced) ++ buffered
  pub on_disk : w.disk ≡ wal_header ++ encode_all (safe ++ unsynced)
  pub in_buffer : w.write_buf ≡ encode_all buffered
  pub offset : w.current_offset ≡ length w.disk
  pub durable : w.durable ≡ wal_header ++ encode_all safe
  pub clean : w.buf_dirty ≡ false → unsynced ≡ []

empty_if_zero : (xs : List ℕ) → (length xs == 0) ≡ true → xs ≡ []
empty_if_zero [] h = refl
empty_if_zero (x ∷ xs) h = absurd (ground arith)

module _ {w : Wal} {rs : List WalRecord} (l : Logs w rs) where
  -- Flushing moves the buffer behind the file.
  flush_full : Wal
  flush_full = record w {
    disk = w.disk ++ w.write_buf;
    current_offset = w.current_offset + length w.write_buf;
    write_buf = [];
    buf_dirty = true;
  }

  flush_full-Logs : Logs flush_full rs
  unfolding flush_full encode_all
  flush_full-Logs = record {
    opened = l.opened;
    fit = l.fit;
    safe = l.safe;
    unsynced = l.unsynced ++ l.buffered;
    buffered = [];
    split = whole ∙ sym (append-nil (l.safe ++ (l.unsynced ++ l.buffered)));
    on_disk =
        rw
          (
            l.on_disk,
            l.in_buffer,
            append_assoc,
            ← encode_all-append (l.safe ++ l.unsynced) l.buffered,
          )
          (ap (λ (rs : List WalRecord). wal_header ++ encode_all rs)
            (append_assoc l.safe l.unsynced l.buffered));
    in_buffer = refl;
    offset = omega (arith, l.offset, length-append w.disk w.write_buf);
    durable = l.durable;
    clean = λ h. cc;
  }
    where
      whole : rs ≡ l.safe ++ (l.unsynced ++ l.buffered)
      whole = l.split ∙ append_assoc l.safe l.unsynced l.buffered

  pub flush_write_buffer-Logs :
      Logs (flush_write_buffer w) rs × ((flush_write_buffer w).write_buf ≡ [])
  flush_write_buffer-Logs = elim (Bool-cases (length w.write_buf == 0)) [
    | inl none_left ↦ rw (idle none_left) (l, empty_if_zero w.write_buf none_left)
    | inr some_left ↦ rw (busy some_left) (flush_full-Logs, unfold flush_full in refl)
  ]
    where
      idle : (length w.write_buf == 0) ≡ true → flush_write_buffer w ≡ w
      idle h = unfold flush_write_buffer in rw h

      busy : (length w.write_buf == 0) ≡ false → flush_write_buffer w ≡ flush_full
      busy h = unfold flush_write_buffer flush_full in rw h
