-- ===== src/Tests/Log.antt =====
-- The log: a new file, and a file with one synced record and one in the buffer.
use xdl.Prelude.{ℕ, ◌+◌, ◌≡◌, refl, true, false, none, List, [], ◌∷◌, ◌++◌, length, take, ok, arith}
use xdl.Bytes.{write_u8, write_u32, write_u64}
use xdl.WalFormat.{insert, delete, WalRecord, encode_record, parse_record, parse_loop}
use xdl.WalFormat.Records.{RecordFits}
use xdl.WalFormat.Rounds.{parse_loop_enough}
use xdl.WalFormat.Logs.{encode_all, parse_loop-encode_all, parse_record_torn}
use xdl.Wal.{Wal, wal_header, open_wal, write_record, log_insert, replay}
use xdl.Wal.Logged.{Logs}
use xdl.Wal.Sync.{Writes, write_record_lem}
use xdl.Wal.Recovery.{crashed, log_insert_lem, crash_recovery}

abbrev no_file : Wal
no_file = record {
  is_open = false;
  disk = [];
  durable = [];
  write_buf = [];
  buf_dirty = false;
  current_offset = 0;
}

abbrev first_record : WalRecord
first_record = record {
  type = insert;
  row_id = 1;
  page_id = 0;
  row_slot = 0;
  row_data = 9 ∷ 8 ∷ [];
}

abbrev second_record : WalRecord
second_record = record { type = delete; row_id = 1; page_id = 0; row_slot = 0; row_data = [] }

first-RecordFits : RecordFits first_record
first-RecordFits = record {
  type_fits = tt;
  row_id_fits = omega arith;
  page_id_fits = omega arith;
  row_slot_fits = omega arith;
  size_fits = omega arith;
}

second-RecordFits : RecordFits second_record
second-RecordFits = record {
  type_fits = tt;
  row_id_fits = omega arith;
  page_id_fits = omega arith;
  row_slot_fits = omega arith;
  size_fits = omega arith;
}

-- The first record is synced, the second in the buffer.
abbrev log : Wal
log = record {
  is_open = true;
  disk = wal_header ++ encode_all (first_record ∷ []);
  durable = wal_header ++ encode_all (first_record ∷ []);
  write_buf = encode_all (second_record ∷ []);
  buf_dirty = false;
  current_offset = length (wal_header ++ encode_all (first_record ∷ []));
}

log-Logs : Logs log (first_record ∷ second_record ∷ [])
log-Logs = record {
  opened = refl;
  fit = (first-RecordFits, (second-RecordFits, tt));
  safe = first_record ∷ [];
  unsynced = [];
  buffered = second_record ∷ [];
  split = refl;
  on_disk = refl;
  in_buffer = refl;
  offset = refl;
  durable = refl;
  clean = λ h. refl;
}

disk_length : length log.disk ≡ 55
unfolding wal_header encode_all encode_record write_u64 write_u32 write_u8
disk_length = refl

crash_recovery_example :
    (more : List WalRecord) × (lost : List WalRecord) × (w' : Wal) × (first_record ∷ second_record
        ∷ []
      ≡ log-Logs.safe ++ (more ++ lost))
    × (replay (open_wal (crashed (length log.durable + 2) log)) ≡ ok (w', log-Logs.safe ++ more))
crash_recovery_example =
    crash_recovery log (first_record ∷ second_record ∷ []) (length log.durable + 2) log-Logs
      (omega arith) (omega (arith, disk_length))

log_insert_lem_example :
    (w' : Wal) × (log_insert log 1 0 0 (9 ∷ 8 ∷ []) true
      ≡ ok (w', length (wal_header ++ encode_all (first_record ∷ second_record ∷ []))))
    × Logs w' (first_record ∷ second_record ∷ first_record ∷ [])
    × (w'.durable ≡ wal_header ++ encode_all (first_record ∷ second_record ∷ first_record ∷ []))
log_insert_lem_example =
    log_insert_lem log (first_record ∷ second_record ∷ []) first_record log-Logs first-RecordFits
      (omega arith) refl

write_record_lem_example :
    Writes log (first_record ∷ second_record ∷ []) first_record (write_record log first_record)
write_record_lem_example =
    write_record_lem log (first_record ∷ second_record ∷ []) first_record log-Logs first-RecordFits
      (omega arith)

nothing_to_read : parse_record [] ≡ none
unfolding parse_record
nothing_to_read = refl

parse_loop-encode_all_example :
    parse_loop 2 (encode_all (first_record ∷ second_record ∷ []) ++ [])
    ≡ first_record ∷ second_record ∷ []
parse_loop-encode_all_example =
    parse_loop-encode_all (first_record ∷ second_record ∷ []) [] 2
      (first-RecordFits, (second-RecordFits, tt)) nothing_to_read (omega arith)

torn_split : encode_record second_record ≡ take 20 (encode_record second_record) ++ 0 ∷ []
unfolding encode_record write_u32 write_u8
torn_split = refl

parse_record_torn_example : parse_record (take 20 (encode_record second_record)) ≡ none
parse_record_torn_example =
    parse_record_torn second_record (take 20 (encode_record second_record)) 0 [] second-RecordFits
      torn_split

-- The bytes of the first record.
abbrev first_log : List ℕ
first_log =
    23 ∷ 34 ∷ 20 ∷ 182 ∷ 19 ∷ 0 ∷ 0 ∷ 0 ∷ 0 ∷ 1 ∷ 0 ∷ 0 ∷ 0 ∷ 0 ∷ 0 ∷ 0 ∷ 0 ∷ 0 ∷ 0 ∷ 0 ∷ 0 ∷ 9 ∷ 8
    ∷ []

parse_loop_enough_example : parse_loop 100 first_log ≡ parse_loop (length first_log) first_log
parse_loop_enough_example = parse_loop_enough 100 first_log (omega arith)
