-- ===== src/Wal/Recovery.antt =====
-- What survives a crash.
use xdl.Prelude.{
  ℕ, zero, suc, ◌+◌, ◌-◌, ◌^◌, ◌<◌, ◌≤◌, ◌≡◌, ◌∙◌, sym, refl, ap, true, false, List, [], ◌∷◌, ◌++◌,
  none, ok, length, length-append, length-take, take, drop, drop-append_self, append_assoc, All,
  ltb, leb, le→ltb_false, ◌==◌, Bool-cases, inl, inr, arith,
}
use xdl.WalFormat.{WalRecord, insert, encode_record, parse_record, parse_loop}
use xdl.WalFormat.Records.{RecordFits}
use xdl.WalFormat.Logs.{
  encode_all, encode_all-append, length-encode_all, parse_loop-encode_all, parse_record_torn,
}
use xdl.Wal.{
  Wal, wal_header, open_wal, sync, write_record, log_insert, replay, fsync_if_dirty,
  flush_write_buffer,
}
use xdl.Wal.Logged.{Logs}
use xdl.Wal.Sync.{length-wal_header, write_record_lem, sync_lem, Writes}

-- `log_insert` that is told to sync, of a record whose fields fit their widths and which has fewer than
-- 2^32 bytes, on an open and well-formed log returns the offset of the record and leaves a log in which
-- the record and all before it are durable.
pub log_insert_lem :
    (w : Wal) (rs : List WalRecord) (r : WalRecord)
    → Logs w rs
    → RecordFits r
    → 21 + length r.row_data < 2 ^ 32
    → r.type ≡ insert
    → (w' : Wal) × (log_insert w r.row_id r.page_id r.row_slot r.row_data true
        ≡ ok (w', length (wal_header ++ encode_all rs)))
      × Logs w' (rs ++ r ∷ [])
      × (w'.durable ≡ wal_header ++ encode_all (rs ++ r ∷ []))
log_insert_lem w rs r l h short t =
    let wr = write_record_lem w rs r l h short in
    let (k, durable) = sync_lem wr.w' (rs ++ r ∷ []) wr.logs in (sync wr.w', logged wr, k, durable)
  where
    same :
        ◌≡◌ {A = WalRecord}
          (record {
            type = insert;
            row_id = r.row_id;
            page_id = r.page_id;
            row_slot = r.row_slot;
            row_data = r.row_data;
          })
          r
    same = λ i. record {
      type = sym t i;
      row_id = r.row_id;
      page_id = r.page_id;
      row_slot = r.row_slot;
      row_data = r.row_data;
    }

    logged :
        (wr : Writes w rs r (write_record w r))
        → log_insert w r.row_id r.page_id r.row_slot r.row_data true
          ≡ ok (sync wr.w', length (wal_header ++ encode_all rs))
    logged wr = unfold log_insert in simp (same, wr.returned)

take-append_less : (n : ℕ) (xs ys : List ℕ) → n ≤ length xs → take n (xs ++ ys) ≡ take n xs
take-append_less zero xs ys h = refl
take-append_less (suc n) [] ys h = absurd (omega arith)
take-append_less (suc n) (x ∷ xs) ys h = ap (◌∷◌ x) (take-append_less n xs ys (omega arith))

take-append_more : (xs ys : List ℕ) (n : ℕ) → take (length xs + n) (xs ++ ys) ≡ xs ++ take n ys
take-append_more [] ys n = ap (λ (k : ℕ). take k ys) (omega arith)
take-append_more (x ∷ xs) ys n =
    ap (λ (k : ℕ). take k (x ∷ (xs ++ ys))) (suc_add (length xs) n)
    ∙ ap (◌∷◌ x) (take-append_more xs ys n)
  where
    suc_add : (a b : ℕ) → suc a + b ≡ suc (a + b)
    suc_add a b = omega arith

proper_prefix :
    (n : ℕ) (xs : List ℕ) → n < length xs → (x : ℕ) × (back : List ℕ) × (xs ≡ take n xs ++ x ∷ back)
proper_prefix n [] h = absurd (omega arith)
proper_prefix zero (x ∷ xs) h = (x, xs, refl)
proper_prefix (suc n) (x ∷ xs) h =
    let (y, back, e) = proper_prefix n xs (omega arith) in (y, back, ap (◌∷◌ x) e)

-- A log that is cut after `n` bytes: whole records, and a torn one that is not read.
record Cut (rs : List WalRecord) (bytes : List ℕ) : Type 0 where
  front : List WalRecord
  lost : List WalRecord
  torn : List ℕ
  split : rs ≡ front ++ lost
  cut : bytes ≡ encode_all front ++ torn
  unread : parse_record torn ≡ none

cut_lem : (rs : List WalRecord) (n : ℕ) → All RecordFits rs → Cut rs (take n (encode_all rs))
unfolding encode_all
cut_lem [] n h = record {
  front = [];
  lost = [];
  torn = [];
  split = refl;
  cut = empty n;
  unread = unfold parse_record in refl;
}
  where
    empty : (n : ℕ) → ◌≡◌ {A = List ℕ} (take n []) []
    empty zero = refl
    empty (suc n) = refl
cut_lem (r ∷ rs) n h = elim (Bool-cases (ltb n (length (encode_record r)))) [
  | inl inside ↦
      let (x, back, e) = proper_prefix n (encode_record r) (ground arith) in
      record {
        front = [];
        lost = r ∷ rs;
        torn = take n (encode_record r);
        split = refl;
        cut = first inside;
        unread = parse_record_torn r (take n (encode_record r)) x back h.0 e;
      }
  | inr outside ↦
      let c = cut_lem rs (n - length (encode_record r)) h.1 in
      record {
        front = r ∷ c.front;
        lost = c.lost;
        torn = c.torn;
        split = ap (◌∷◌ r) c.split;
        cut = later outside c.front c.torn c.cut;
        unread = c.unread;
      }
]
  where
    first :
        ltb n (length (encode_record r)) ≡ true
        → take n (encode_all (r ∷ rs)) ≡ encode_all [] ++ take n (encode_record r)
    first inside = take-append_less n (encode_record r) (encode_all rs) (ground arith)

    later :
        ltb n (length (encode_record r)) ≡ false
        → (front : List WalRecord) (torn : List ℕ)
        → take (n - length (encode_record r)) (encode_all rs) ≡ encode_all front ++ torn
        → take n (encode_all (r ∷ rs)) ≡ encode_all (r ∷ front) ++ torn
    later outside front torn e =
        let k : n ≡ length (encode_record r) + (n - length (encode_record r)) = ground arith in
        ap (λ (j : ℕ). take j (encode_all (r ∷ rs))) k
        ∙ (take-append_more (encode_record r) (encode_all rs) (n - length (encode_record r)))
        ∙ ap (◌++◌ (encode_record r)) e
        ∙ (sym (append_assoc (encode_record r) (encode_all front) torn))

-- The log after a crash: the process's buffer is gone, and of the file `n` bytes survive.
unfoldable pub crashed : ℕ → Wal → Wal
crashed n w = record {
  is_open = false;
  disk = take n w.disk;
  durable = take n w.disk;
  write_buf = [];
  buf_dirty = false;
  current_offset = 0;
}

parses :
    (n : ℕ) (w : Wal) (rs : List WalRecord) (torn : List ℕ)
    → take n w.disk ≡ wal_header ++ (encode_all rs ++ torn)
    → All RecordFits rs
    → parse_record torn ≡ none
    → length w.disk < 32 + 2 ^ 32
    → (w' : Wal) × (replay (open_wal (crashed n w)) ≡ ok (w', rs))
parses n w rs torn e h t few = (reopened, ran)
  where
    reopened : Wal
    reopened = record (crashed n w) { current_offset = length (take n w.disk); is_open = true }

    size : length (take n w.disk) ≡ 32 + length (encode_all rs ++ torn)
    size =
        omega
          (arith, ap length e, length-append wal_header (encode_all rs ++ torn), length-wal_header)

    long : ltb (length (take n w.disk)) 32 ≡ false
    long = le→ltb_false (length (take n w.disk)) 32 (omega (arith, size))

    all : leb (2 ^ 32) (length (take n w.disk) - 32) ≡ false
    all = ground (arith, few, length-take n w.disk)

    some_bytes : (length (take n w.disk) == 0) ≡ false
    some_bytes = ground (arith, size)

    behind : drop 32 (take n w.disk) ≡ encode_all rs ++ torn
    behind = rw (e, ← length-wal_header) (drop-append_self wal_header (encode_all rs ++ torn))

    fuel : length rs ≤ length (take n w.disk)
    fuel = omega (arith, size, length-encode_all rs h, length-append (encode_all rs) torn)

    parsed : parse_loop (length (take n w.disk)) (drop 32 (take n w.disk)) ≡ rs
    parsed = rw behind (parse_loop-encode_all rs torn (length (take n w.disk)) h t fuel)

    opens : open_wal (crashed n w) ≡ reopened
    opens = unfold open_wal crashed in rw some_bytes

    ran : replay (open_wal (crashed n w)) ≡ ok (reopened, rs)
    ran =
        rw opens (unfold replay crashed flush_write_buffer fsync_if_dirty in rw (long, all, parsed))

All-append_left : (xs ys : List WalRecord) → All RecordFits (xs ++ ys) → All RecordFits xs
All-append_left [] ys h = tt
All-append_left (x ∷ xs) ys h = (h.0, All-append_left xs ys h.1)

All-append_right : (xs ys : List WalRecord) → All RecordFits (xs ++ ys) → All RecordFits ys
All-append_right [] ys h = h
All-append_right (x ∷ xs) ys h = All-append_right xs ys h.1

-- After a crash of a process whose log was well-formed, that is, opened on a new or a whole file (not
-- behind a torn record), and had fewer than 2^32 bytes of records in the file: if at least the synced
-- bytes of the file survive, reopening and replaying returns every durable record and a first part of
-- those that were only written, in order. Nothing that was synced is lost, and no torn record is read.
pub crash_recovery :
    (w : Wal) (rs : List WalRecord) (n : ℕ) (l : Logs w rs)
    → length w.durable ≤ n
    → length w.disk < 32 + 2 ^ 32
    → (more : List WalRecord) × (lost : List WalRecord) × (w' : Wal) × (rs
        ≡ l.safe ++ (more ++ lost))
      × (replay (open_wal (crashed n w)) ≡ ok (w', l.safe ++ more))
crash_recovery w rs n l le few =
    let m : ℕ = n - length w.durable in
    let c = cut_lem l.unsynced m (All-append_right l.safe l.unsynced fit) in
    let fit_front : All RecordFits (l.safe ++ c.front) =
      All-append_left (l.safe ++ c.front) c.lost (rw (append_assoc, ← c.split) fit) in
    let bytes : take n w.disk ≡ wal_header ++ (encode_all (l.safe ++ c.front) ++ c.torn) =
      cut_disk m (omega arith)
      ∙ rw (c.cut, encode_all-append) (regroup (encode_all l.safe) (encode_all c.front) c.torn) in
    let (w', e) = parses n w (l.safe ++ c.front) c.torn bytes fit_front c.unread few in
    (
      c.front,
      c.lost ++ l.buffered,
      w',
      l.split ∙ rw c.split (regroup_records l.safe c.front c.lost l.buffered),
      e,
    )
  where
    fit : All RecordFits (l.safe ++ l.unsynced)
    fit = All-append_left (l.safe ++ l.unsynced) l.buffered (rw (← l.split) l.fit)

    disk_split : w.disk ≡ w.durable ++ encode_all l.unsynced
    disk_split =
        l.on_disk
        ∙ ap (◌++◌ wal_header) (encode_all-append l.safe l.unsynced)
        ∙ sym (append_assoc wal_header (encode_all l.safe) (encode_all l.unsynced))
        ∙ ap (λ (xs : List ℕ). xs ++ encode_all l.unsynced) (sym l.durable)

    cut_disk :
        (m : ℕ)
        → n ≡ length w.durable + m
        → take n w.disk ≡ wal_header ++ (encode_all l.safe ++ take m (encode_all l.unsynced))
    cut_disk m e =
        ap (λ (k : ℕ). take k w.disk) e
        ∙ ap (take (length w.durable + m)) disk_split
        ∙ take-append_more w.durable (encode_all l.unsynced) m
        ∙ ap (λ (xs : List ℕ). xs ++ take m (encode_all l.unsynced)) l.durable
        ∙ append_assoc wal_header (encode_all l.safe) (take m (encode_all l.unsynced))

    regroup : (a b c : List ℕ) → wal_header ++ (a ++ (b ++ c)) ≡ wal_header ++ ((a ++ b) ++ c)
    regroup a b c = rw append_assoc

    regroup_records : (a b c d : List WalRecord) → (a ++ (b ++ c)) ++ d ≡ a ++ (b ++ (c ++ d))
    regroup_records a b c d = simp append_assoc
