-- ===== src/Wal/Sync.antt =====
-- Writing a record, `sync` and `replay` on a log.
use xdl.Prelude.{
  ℕ, ◌+◌, ◌-◌, ◌^◌, ◌≤◌, ◌<◌, ◌≡◌, ◌∙◌, sym, refl, ap, true, false, List, [], ◌∷◌, ◌++◌, Result, ok,
  length, length-append, drop, drop-append_self, append_assoc, append-nil, All-append, ltb,
  le→ltb_false, leb, Bool-cases, inl, inr, arith,
}
use xdl.Bytes.{write_u8, write_u32, write_u64}
use xdl.WalFormat.{WalRecord, record_body, encode_record, parse_record, parse_loop}
use xdl.WalFormat.Records.{RecordFits}
use xdl.WalFormat.Logs.{encode_all, encode_all-append, length-encode_all, parse_loop-encode_all}
use xdl.Wal.{
  Wal, wal_header, wal_buffer_size, fsync, flush_write_buffer, fsync_if_dirty, ensure_buffer_space,
  record_size, write_record, sync, replay,
}
use xdl.Wal.Logged.{Logs, flush_write_buffer-Logs}

pub length-wal_header : length wal_header ≡ 32
unfolding wal_header write_u64 write_u32
length-wal_header = refl

module _ {w : Wal} {rs : List WalRecord} (l : Logs w rs) where
  -- The file and the buffer together are the header and the records.
  pub content : w.disk ++ w.write_buf ≡ wal_header ++ encode_all rs
  content =
      rw (l.on_disk, l.in_buffer, l.split, encode_all-append (l.safe ++ l.unsynced) l.buffered)
        (append_assoc wal_header (encode_all (l.safe ++ l.unsynced)) (encode_all l.buffered))

  ensure-Logs : (n : ℕ) → Logs (ensure_buffer_space w n) rs
  ensure-Logs n = elim (Bool-cases (ltb wal_buffer_size (length w.write_buf + n))) [
    | inl full ↦ rw (flush full) (flush_write_buffer-Logs l).0
    | inr room ↦ rw (stay room) l
  ]
    where
      flush :
          ltb wal_buffer_size (length w.write_buf + n) ≡ true
          → ensure_buffer_space w n ≡ flush_write_buffer w
      flush h = unfold ensure_buffer_space in rw h

      stay : ltb wal_buffer_size (length w.write_buf + n) ≡ false → ensure_buffer_space w n ≡ w
      stay h = unfold ensure_buffer_space in rw h

  -- The log with one more record in the buffer.
  added : WalRecord → Wal
  added r = record w { write_buf = w.write_buf ++ encode_record r }

  added-Logs : (r : WalRecord) → RecordFits r → Logs (added r) (rs ++ r ∷ [])
  unfolding added
  added-Logs r h = record {
    opened = l.opened;
    fit = All-append RecordFits rs (r ∷ []) l.fit (h, tt);
    safe = l.safe;
    unsynced = l.unsynced;
    buffered = l.buffered ++ r ∷ [];
    split =
        ap (λ (xs : List WalRecord). xs ++ r ∷ []) l.split
        ∙ append_assoc (l.safe ++ l.unsynced) l.buffered (r ∷ []);
    on_disk = l.on_disk;
    in_buffer =
        rw (l.in_buffer, encode_all-append l.buffered (r ∷ []))
          (unfold encode_all in rw append-nil);
    offset = l.offset;
    durable = l.durable;
    clean = l.clean;
  }

-- What logging a record does: the log holds it behind the others, and the result is the offset at
-- which it stands in the file.
pub record Writes (w : Wal) (rs : List WalRecord) (r : WalRecord) (out : Result (Wal × ℕ))
    : Type 0 where
  pub w' : Wal
  pub returned : out ≡ ok (w', length (wal_header ++ encode_all rs))
  pub logs : Logs w' (rs ++ r ∷ [])

record_length : (r : WalRecord) → length (encode_record r) ≡ 21 + length r.row_data
unfolding encode_record record_body write_u32 write_u8
record_length r = omega arith

-- The buffer grows by the record's length, unless that wraps around.
pub record_size-enough :
    (r : WalRecord)
    → 21 + length r.row_data < 2 ^ 32
    → ltb (record_size (length r.row_data)) (length (encode_record r)) ≡ false
unfolding record_size
record_size-enough r short = ground (arith, record_length r)

-- `write_record` of a record whose fields fit their widths and whose 21 + n bytes, for a payload of n
-- bytes, are fewer than 2^32, on an open and well-formed log returns the offset at which the record
-- will stand in the file, and adds the record to the log.
pub write_record_lem :
    (w : Wal) (rs : List WalRecord) (r : WalRecord)
    → Logs w rs
    → RecordFits r
    → 21 + length r.row_data < 2 ^ 32
    → Writes w rs r (write_record w r)
write_record_lem w rs r l h short =
    let n = record_size (length r.row_data) in
    let e = ensure-Logs l n in
    record { w' = added e r; returned = wrote e; logs = added-Logs e r h }
  where
    place :
        {v : Wal}
        → Logs v rs
        → v.current_offset + length v.write_buf ≡ length (wal_header ++ encode_all rs)
    place {v} k = rw (← content k) (omega (arith, k.offset, length-append v.disk v.write_buf))

    wrote :
        (e : Logs (ensure_buffer_space w (record_size (length r.row_data))) rs)
        → write_record w r ≡ ok (added e r, length (wal_header ++ encode_all rs))
    wrote e =
        unfold write_record added in
        simp (l.opened, record_size-enough r short) (ap (λ (k : ℕ). ok (added e r, k)) (place e))

module _ {w : Wal} {rs : List WalRecord} (l : Logs w rs) where
  flush_and_sync :
      Logs (fsync_if_dirty (flush_write_buffer w)) rs
      × ((fsync_if_dirty (flush_write_buffer w)).durable ≡ wal_header ++ encode_all rs)
      × ((fsync_if_dirty (flush_write_buffer w)).disk ≡ wal_header ++ encode_all rs)
  flush_and_sync =
      let (f, empty) = flush_write_buffer-Logs l in
      elim (Bool-cases (flush_write_buffer w).buf_dirty) [
        | inl dirty ↦
            rw (synced (flush_write_buffer w) dirty) (fsynced f, whole f empty, whole f empty)
        | inr clean ↦
            rw (same (flush_write_buffer w) clean)
              (f, settled f (f.clean clean) ∙ whole f empty, whole f empty)
      ]
    where
      synced :
          (v : Wal) → v.buf_dirty ≡ true → fsync_if_dirty v ≡ record (fsync v) { buf_dirty = false }
      synced v h = unfold fsync_if_dirty in rw h

      same : (v : Wal) → v.buf_dirty ≡ false → fsync_if_dirty v ≡ v
      same v h = unfold fsync_if_dirty in rw h

      fsynced : {v : Wal} → Logs v rs → Logs (record (fsync v) { buf_dirty = false }) rs
      fsynced k = record {
        opened = k.opened;
        fit = k.fit;
        safe = k.safe ++ k.unsynced;
        unsynced = [];
        buffered = k.buffered;
        split = rw append-nil k.split;
        on_disk = rw append-nil k.on_disk;
        in_buffer = k.in_buffer;
        offset = k.offset;
        durable = k.on_disk;
        clean = λ h. refl;
      }

      settled : {v : Wal} (k : Logs v rs) → k.unsynced ≡ [] → v.durable ≡ v.disk
      settled k none_left = rw (k.durable, k.on_disk, none_left, append-nil)

      whole : {v : Wal} → Logs v rs → v.write_buf ≡ [] → v.disk ≡ wal_header ++ encode_all rs
      whole {v} k empty = sym (append-nil v.disk) ∙ rw (← empty) (content k)

pub sync_lem :
    (w : Wal) (rs : List WalRecord)
    → Logs w rs
    → Logs (sync w) rs × ((sync w).durable ≡ wal_header ++ encode_all rs)
sync_lem w rs l = let (k, durable, _) = flush_and_sync l in rw opened (k, durable)
  where
    opened : sync w ≡ fsync_if_dirty (flush_write_buffer w)
    opened = unfold sync in simp l.opened

-- `replay` returns exactly the records of a log with fewer than 2^32 bytes of records, in order, and
-- makes them durable.
pub replay_lem :
    (w : Wal) (rs : List WalRecord)
    → Logs w rs
    → length (encode_all rs) < 2 ^ 32
    → (w' : Wal) × (replay w ≡ ok (w', rs))
      × Logs w' rs
      × (w'.durable ≡ wal_header ++ encode_all rs)
replay_lem w rs l few =
    let (k, durable, disk) = flush_and_sync l in
    let w' = fsync_if_dirty (flush_write_buffer w) in
    let long : ltb (length w'.disk) 32 ≡ false = le→ltb_false (length w'.disk) 32 (
      omega (arith, ap length disk, length-append wal_header (encode_all rs), length-wal_header)) in
    let all : leb (2 ^ 32) (length w'.disk - 32) ≡ false =
      ground
        (arith, few, ap length disk, length-append wal_header (encode_all rs), length-wal_header) in
    let behind : drop 32 w'.disk ≡ encode_all rs ++ [] =
      rw (disk, ← length-wal_header)
        (drop-append_self wal_header (encode_all rs) ∙ sym (append-nil (encode_all rs))) in
    let fuel : length rs ≤ length w'.disk = omega (
      arith,
      length-encode_all rs l.fit,
      ap length disk,
      length-append wal_header (encode_all rs),
    ) in
    let parsed : parse_loop (length w'.disk) (drop 32 w'.disk) ≡ rs =
      rw behind
        (parse_loop-encode_all rs [] (length w'.disk) l.fit (unfold parse_record in refl) fuel) in
    (w', run long all parsed, k, durable)
  where
    w'' : Wal
    w'' = fsync_if_dirty (flush_write_buffer w)

    run :
        ltb (length w''.disk) 32 ≡ false
        → leb (2 ^ 32) (length w''.disk - 32) ≡ false
        → parse_loop (length w''.disk) (drop 32 w''.disk) ≡ rs
        → replay w ≡ ok (w'', rs)
    run long all parsed = unfold replay in simp l.opened (simp (long, all, parsed))
