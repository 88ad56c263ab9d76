-- ===== src/Log/Tests.antt =====
-- Runs of the record log on small files, and the theorems about it at concrete inputs.
use mlstore_db.Prelude.{
  ◌+◌, ◌%◌, ◌<◌, ◌≡◌, refl, false, Option, none, some, [], ◌∷◌, ◌++◌, length, take, drop, arith, ok,
  Result, inr,
}
use mlstore_db.Prelude.Bytes.{Bytes}
use mlstore_db.Log.Extern.{Extern, Lawful}
use mlstore_db.Log.Record.{
  Frame, rec_doc, rec_del, rec_commit, encode_id_blob, decode_id_blob, frame_bytes, parse_record,
  parsed, torn,
}
use mlstore_db.Log.Record.Roundtrip.{decode-encode_id_blob, parse-frame_bytes, parse-torn}
use mlstore_db.Log.Scan.{scan_v2, ScanResult}
use mlstore_db.Log.Scan.Files.{log_size}
use mlstore_db.Log.Scan.Tail.{trunc_at}
use mlstore_db.Log.Scan.Truncated.{truncate_to}
use mlstore_db.Log.Scan.Crash.{image, crash_recovery}
use mlstore_db.Log.Record.{build_frame, decode_payload}
use mlstore_db.Log.Record.Payload.{decode-build_frame}
use mlstore_db.Log.Scan.{Applied, fates, fate_step, unborn, scan_v2, committed, walk}
use mlstore_db.Log.Scan.Heal.{self_heal, append_after_heal}
use mlstore_db.Log.Scan.Files.{log_bytes, applied_from}
use mlstore_db.Log.Scan.Truncated.{truncate_to}
use mlstore_db.Log.Scan.Crash.{committed_at}
use mlstore_db.Log.Record.{parse_record_at}
use mlstore_db.Prelude.Bytes.{bytes_eq}
use mlstore_db.Log.Scan.{apply_committed, apply_records, apply_record, note_suspect, live_docs}
use mlstore_db.Log.Scan.Termination.{scan_v2_total}
use mlstore_db.Log.Scan.Live.{is_live, last_said, or_else, fates-live}
use mlstore_db.Log.Record.{rec_meta}
use mlstore_db.Log.Writer.{
  RecOp, rec_op, del_op, encode_ops, encode_record_bytes, order_ops_for_commit, op_id_blob,
}
use mlstore_db.Log.Writer.Atomic.{append_crash, append_done}
use mlstore_db.Log.Extern.{Meta}
use mlstore_db.Prelude.{List, ℕ}
use mlstore_db.Log.Scan.Files.{AllFrames}
use mlstore_db.Log.Record.{build_record}
use mlstore_db.Log.Writer.Batch.{FramesOf}
use mathlib.Core.Option

abbrev zeros16 : Bytes
zeros16 = 0 ∷ 0 ∷ 0 ∷ 0 ∷ 0 ∷ 0 ∷ 0 ∷ 0 ∷ 0 ∷ 0 ∷ 0 ∷ 0 ∷ 0 ∷ 0 ∷ 0 ∷ 0 ∷ []

abbrev unpack : Bytes → Option Bytes
unpack [] = none
unpack (b ∷ bs) = some bs

-- A stand-in for the libraries: the checksum is the length, sealing prepends a tag, deflating a
-- header.
abbrev plain_extern : Extern
plain_extern = record {
  Gcm = Unit {0};
  Rows = Unit {0};
  crc32 = λ b. length b % 4294967296;
  new_gcm = λ k. some tt;
  gcm_seal = λ g n p. zeros16 ++ p;
  gcm_open = λ g n c. some (drop 16 c);
  deflate = λ p. some (120 ∷ p);
  inflate = unpack;
  marshal_meta = λ m. some [];
  unmarshal_meta = λ b. none;
  unmarshal_idx = λ b. none;
  sprint_fields = λ fs. [];
}

plain_lawful : Lawful plain_extern
plain_lawful = record {
  crc32_lt = λ b. omega arith;
  gcm_open-seal = λ g n p. refl;
  length-gcm_seal = λ g n p. omega arith;
  inflate-deflate = λ p c e. ground arith;
  length-deflate = λ p c e. ground arith;
}

abbrev nonce12 : Bytes
nonce12 = 1 ∷ 2 ∷ 3 ∷ 4 ∷ 5 ∷ 6 ∷ 7 ∷ 8 ∷ 9 ∷ 10 ∷ 11 ∷ 12 ∷ []

abbrev doc_frame : Frame
doc_frame = record {
  typ = rec_doc;
  flags = 0;
  id_blob = 0 ∷ 1 ∷ 97 ∷ 98 ∷ [];
  ct = 7 ∷ 7 ∷ [];
  nonce = nonce12;
}

abbrev del_frame : Frame
del_frame = record doc_frame { typ = rec_del; ct = [] }

abbrev commit_frame : Frame
commit_frame = record doc_frame { typ = rec_commit; id_blob = []; ct = [] }

abbrev header152 : Bytes
header152 = take 152 (
    zeros16
    ++ (zeros16
        ++ (zeros16
            ++ (zeros16
                ++ (zeros16 ++ (zeros16 ++ (zeros16 ++ (zeros16 ++ (zeros16 ++ zeros16)))))))))

abbrev torn_del : Bytes
torn_del = take 5 (frame_bytes plain_extern del_frame)

torn_fits : 5 < length (frame_bytes plain_extern del_frame)
unfolding frame_bytes
torn_fits = omega arith

decode-encode_id_blob_example :
    decode_id_blob (encode_id_blob (97 ∷ []) (98 ∷ [])) ≡ ok (97 ∷ [], 98 ∷ [])
decode-encode_id_blob_example = decode-encode_id_blob (97 ∷ []) (98 ∷ []) (omega arith)

crash_recovery_example :
    scan_v2 plain_extern
      (image plain_extern header152 ((doc_frame ∷ commit_frame ∷ []) ++ del_frame ∷ []) torn_del)
      []
    ≡ Option.map
        (truncate_to plain_extern
          (trunc_at torn_del (152 + log_size ((doc_frame ∷ commit_frame ∷ []) ++ del_frame ∷ []))))
        (scan_v2 plain_extern (image plain_extern header152 (doc_frame ∷ commit_frame ∷ []) []) [])
crash_recovery_example =
    crash_recovery plain_extern plain_lawful [] header152 refl (doc_frame ∷ []) commit_frame
      (del_frame ∷ []) torn_del (omega arith) refl (omega arith)
      (inr (del_frame, 5, omega arith, omega arith, torn_fits, refl))

parse-frame_bytes_example :
    parse_record plain_extern (frame_bytes plain_extern doc_frame ++ 9 ∷ 9 ∷ [])
    ≡ parsed rec_doc 0 (0 ∷ 1 ∷ 97 ∷ 98 ∷ []) (7 ∷ 7 ∷ []) 30
parse-frame_bytes_example =
    parse-frame_bytes plain_extern plain_lawful doc_frame
      (record { nonce_len = refl; id_fits = omega arith; ct_fits = omega arith }) (9 ∷ 9 ∷ [])

parse-torn_example : parse_record plain_extern (take 5 (frame_bytes plain_extern del_frame)) ≡ torn
parse-torn_example =
    parse-torn plain_extern plain_lawful del_frame
      (record { nonce_len = refl; id_fits = omega arith; ct_fits = omega arith }) 5 torn_fits

-- The stand-in never makes a text shorter, so the record is not compressed.
built_frame :
    build_frame plain_extern [] rec_doc 0 (0 ∷ 0 ∷ []) (5 ∷ 6 ∷ []) false (some nonce12)
    ≡ some (record {
      typ = rec_doc;
      flags = 0;
      id_blob = 0 ∷ 0 ∷ [];
      ct = zeros16 ++ 5 ∷ 6 ∷ [];
      nonce = nonce12;
    })
unfolding build_frame
built_frame = refl

decode-build_frame_example :
    decode_payload plain_extern [] 0 nonce12 (zeros16 ++ 5 ∷ 6 ∷ []) ≡ ok (5 ∷ 6 ∷ [])
decode-build_frame_example =
    decode-build_frame plain_extern plain_lawful [] rec_doc (0 ∷ 0 ∷ []) (5 ∷ 6 ∷ []) nonce12 false
      (record {
        typ = rec_doc;
        flags = 0;
        id_blob = 0 ∷ 0 ∷ [];
        ct = zeros16 ++ 5 ∷ 6 ∷ [];
        nonce = nonce12;
      })
      built_frame

scan_v2_total_example :
    (r : Result (ScanResult plain_extern)) × (scan_v2 plain_extern (header152 ++ 1 ∷ 2 ∷ []) []
      ≡ some r)
scan_v2_total_example = scan_v2_total plain_extern (header152 ++ 1 ∷ 2 ∷ []) []

abbrev written : Applied
written = record {
  typ = rec_doc;
  flags = 0;
  id_blob = 0 ∷ 1 ∷ 97 ∷ 98 ∷ [];
  ct = [];
  nonce = [];
  rec_off = 152;
  rec_len = 28;
}

abbrev deleted : Applied
deleted = record written { typ = rec_del }

replayed :
    fates unborn (written ∷ deleted ∷ [])
    ≡ ok (fate_step (fate_step unborn rec_doc (97 ∷ []) (98 ∷ [])) rec_del (97 ∷ []) (98 ∷ []))
unfolding fates decode_id_blob
replayed = refl

fates-live_example :
    is_live
      (fate_step (fate_step unborn rec_doc (97 ∷ []) (98 ∷ [])) rec_del (97 ∷ []) (98 ∷ []))
      (97 ∷ 0 ∷ 98 ∷ [])
    ≡ or_else
        (last_said (97 ∷ 0 ∷ 98 ∷ []) (written ∷ deleted ∷ []))
        (is_live unborn (97 ∷ 0 ∷ 98 ∷ []))
fates-live_example =
    fates-live (97 ∷ 0 ∷ 98 ∷ []) (written ∷ deleted ∷ []) unborn
      (fate_step (fate_step unborn rec_doc (97 ∷ []) (98 ∷ [])) rec_del (97 ∷ []) (98 ∷ []))
      replayed

-- A deletion without its COMMIT, and a torn record behind it.
abbrev crashed : Bytes
crashed = image plain_extern header152 ((doc_frame ∷ commit_frame ∷ []) ++ del_frame ∷ []) torn_del

abbrev crashed_result : ScanResult plain_extern
crashed_result = record {
  commit_end = 206;
  truncated = 234;
  suspect = false;
  meta = none;
  docs =
      (record {
        coll = 97 ∷ [];
        id = 98 ∷ [];
        off = 152;
        len = 30;
        flags = 0;
        nonce = nonce12;
        payload = 7 ∷ 7 ∷ [];
      })
      ∷ [];
  dels = [];
  idx_by_coll = [];
  idx_seen = [];
}

crashed_scan : scan_v2 plain_extern crashed [] ≡ some (ok crashed_result)
unfolding scan_v2 walk frame_bytes decode_id_blob committed apply_committed parse_record_at
    apply_records apply_record fates note_suspect live_docs fate_step bytes_eq
crashed_scan = refl

-- The batch is one COMMIT, and it commits the deletion of before the crash.
append_after_heal_example :
    scan_v2 plain_extern
      (self_heal plain_extern crashed crashed_result
        ++ log_bytes plain_extern ([] ++ commit_frame ∷ []))
      []
    ≡ some (
        truncate_to plain_extern 0 (
          apply_committed plain_extern []
            (applied_from 152
              ((((doc_frame ∷ commit_frame ∷ []) ++ del_frame ∷ []) ++ []) ++ commit_frame ∷ []))
            (committed_at 258 plain_extern)))
append_after_heal_example =
    append_after_heal plain_extern plain_lawful header152 refl [] (doc_frame ∷ []) commit_frame
      (del_frame ∷ []) torn_del (omega arith) refl (omega arith)
      (inr (del_frame, 5, omega arith, omega arith, torn_fits, refl)) crashed_result crashed_scan []
      commit_frame (omega arith) refl

-- A batch of one deletion on a file of one document, as the writer encodes it.
abbrev no_meta : Meta
no_meta = record { app = []; schema_version = 0; collections = [] }

abbrev batch_frames : List Frame
batch_frames =
    record del_frame { id_blob = 0 ∷ 1 ∷ 97 ∷ 98 ∷ [] }
    ∷ (record commit_frame { typ = rec_meta })
    ∷ commit_frame
    ∷ []

abbrev batch_ops : List RecOp
batch_ops =
    (record (del_op (97 ∷ [], 98 ∷ [])) { out_off = 206; out_len = 28 })
    ∷ (record (rec_op rec_meta []) { out_off = 234; out_len = 24 })
    ∷ (record (rec_op rec_commit []) { out_off = 258; out_len = 24 })
    ∷ []

abbrev always12 : ℕ → Option Bytes
always12 k = some nonce12

always12_len : (k : ℕ) (n : Bytes) → always12 k ≡ some n → length n ≡ 12
always12_len k n e = ground (arith, e)

old_frames : AllFrames ((doc_frame ∷ []) ++ commit_frame ∷ [])
old_frames = omega arith

batch_size : length (log_bytes plain_extern batch_frames) ≡ 76
unfolding frame_bytes
batch_size = refl

batch_small : length (log_bytes plain_extern batch_frames) < 2147483648
batch_small = omega (arith, batch_size)

batch_long : 40 < length (log_bytes plain_extern batch_frames)
batch_long = omega (arith, batch_size)

encoded :
    encode_ops plain_extern [] always12 0
      (length (image plain_extern header152 ((doc_frame ∷ []) ++ commit_frame ∷ []) []))
      (order_ops_for_commit plain_extern ((97 ∷ [], 98 ∷ []) ∷ []) [] no_meta)
    ≡ some (log_bytes plain_extern batch_frames, batch_ops)
unfolding encode_ops encode_record_bytes build_record build_frame frame_bytes order_ops_for_commit
    encode_id_blob op_id_blob
encoded = refl

-- The crash cuts the metadata record of the batch.
append_crash_example :
    (t : ℕ) × (scan_v2 plain_extern
        (image plain_extern header152 ((doc_frame ∷ []) ++ commit_frame ∷ []) []
          ++ take 40 (log_bytes plain_extern batch_frames))
        []
      ≡ Option.map (truncate_to plain_extern t) (
          scan_v2 plain_extern
            (image plain_extern header152 ((doc_frame ∷ []) ++ commit_frame ∷ []) [])
            []))
append_crash_example =
    append_crash plain_extern plain_lawful [] header152 refl always12 always12_len (doc_frame ∷ [])
      commit_frame old_frames refl ((97 ∷ [], 98 ∷ []) ∷ []) [] no_meta
      (log_bytes plain_extern batch_frames) batch_ops 40 encoded batch_small batch_long

append_done_example :
    (all : List Frame) × (log_bytes plain_extern batch_frames ≡ log_bytes plain_extern all)
    × FramesOf plain_extern plain_lawful [] always12 always12_len
        (order_ops_for_commit plain_extern ((97 ∷ [], 98 ∷ []) ∷ []) [] no_meta)
        all
    × (scan_v2 plain_extern
          (image plain_extern header152 ((doc_frame ∷ []) ++ commit_frame ∷ []) []
            ++ log_bytes plain_extern batch_frames)
          []
        ≡ some (
            truncate_to plain_extern 0 (
              apply_committed plain_extern []
                (applied_from 152 (((doc_frame ∷ []) ++ commit_frame ∷ []) ++ all))
                (committed_at
                  (152 + log_size (((doc_frame ∷ []) ++ commit_frame ∷ []) ++ all))
                  plain_extern))))
append_done_example =
    append_done plain_extern plain_lawful [] header152 refl always12 always12_len (doc_frame ∷ [])
      commit_frame old_frames refl ((97 ∷ [], 98 ∷ []) ∷ []) [] no_meta
      (log_bytes plain_extern batch_frames) batch_ops encoded batch_small
