-- ===== src/Log/Scan/Files.antt =====
-- The walk of scanV2 over a file that writeFullV2 and appendV2 wrote: the records are those that
-- were written, at their offsets.
use mlstore_db.Prelude.{
  ℕ, zero, suc, ◌+◌, ◌%◌, ◌<◌, ◌≡◌, refl, sym, ap, ◌∙◌, true, Option, List, [], ◌∷◌, ◌++◌, length,
  take, drop, arith, append_assoc, length-append, length-drop, drop-add, drop_at, lt→ltb, ltb,
}
use mlstore_db.Prelude.Bytes.{Bytes}
use mlstore_db.Log.Extern.{Extern, Lawful}
use mlstore_db.Log.Record.{Frame, frame_bytes, parse_record_at, parsed}
use mlstore_db.Log.Record.Roundtrip.{
  IsFrame, parse-frame_bytes, length-frame_bytes, nonce-frame_bytes,
}
use mlstore_db.Log.Scan.{Applied, Walked, with_record, next_commit, walk}

abbrev pub frame_size : Frame → ℕ
frame_size f = 24 + length f.id_blob + length f.ct

abbrev pub log_size : List Frame → ℕ
log_size [] = 0
log_size (f ∷ fs) = frame_size f + log_size fs

-- Frames whose size fits an int32.
abbrev pub AllFrames : List Frame → Type 0
AllFrames [] = Unit {0}
AllFrames (f ∷ fs) = (IsFrame f × (frame_size f < 2147483648)) × AllFrames fs

abbrev pub applied_at : ℕ → Frame → Applied
applied_at off f = record {
  typ = f.typ;
  flags = f.flags;
  id_blob = f.id_blob;
  ct = f.ct;
  nonce = f.nonce;
  rec_off = off;
  rec_len = frame_size f;
}

-- The records of a log that begins at an offset.
abbrev pub applied_from : ℕ → List Frame → List Applied
applied_from off [] = []
applied_from off (f ∷ fs) = applied_at off f ∷ applied_from (off + frame_size f) fs

abbrev pub commit_from : ℕ → List Frame → Option ℕ → Option ℕ
commit_from off [] last = last
commit_from off (f ∷ fs) last =
    commit_from (off + frame_size f) fs (next_commit f.typ (off + frame_size f) last)

abbrev pub with_records : List Applied → Walked → Walked
with_records [] w = w
with_records (r ∷ rs) w = with_record r (with_records rs w)

module _ (x : Extern) where
  -- What the writer appends for a batch.
  abbrev pub log_bytes : List Frame → Bytes
  log_bytes [] = []
  log_bytes (f ∷ fs) = frame_bytes x f ++ log_bytes fs

  pub log_bytes-append : (fs gs : List Frame) → log_bytes (fs ++ gs) ≡ log_bytes fs ++ log_bytes gs
  log_bytes-append [] gs = refl
  log_bytes-append (f ∷ fs) gs =
      ap (λ t. frame_bytes x f ++ t) (log_bytes-append fs gs)
      ∙ sym (append_assoc (frame_bytes x f) (log_bytes fs) (log_bytes gs))

module _ (x : Extern) (law : Lawful x) where
  pub length-log_bytes : (fs : List Frame) → AllFrames fs → length (log_bytes x fs) ≡ log_size fs
  length-log_bytes [] h = refl
  length-log_bytes (f ∷ fs) h = omega (
    arith,
    length-append (frame_bytes x f) (log_bytes x fs),
    length-frame_bytes x law f h.0.0,
    length-log_bytes fs h.1,
  )

  module _ (bytes : Bytes) where
    parse_at :
        (off : ℕ) (f : Frame) (rest : Bytes)
        → IsFrame f
        → drop off bytes ≡ frame_bytes x f ++ rest
        → parse_record_at x bytes off ≡ parsed f.typ f.flags f.id_blob f.ct (frame_size f)
    unfolding parse_record_at
    parse_at off f rest h e = rw e (parse-frame_bytes x law f h rest)

    in_file :
        (off : ℕ) (f : Frame) (rest : Bytes)
        → IsFrame f
        → drop off bytes ≡ frame_bytes x f ++ rest
        → ltb off (length bytes) ≡ true
    in_file off f rest h e = lt→ltb off (length bytes) (
        omega (
          arith,
          ap length e,
          length-drop off bytes,
          length-append (frame_bytes x f) rest,
          length-frame_bytes x law f h,
        ))

    pub drop_frame :
        (off : ℕ) (f : Frame) (rest : Bytes)
        → IsFrame f
        → drop off bytes ≡ frame_bytes x f ++ rest
        → drop (off + frame_size f) bytes ≡ rest
    drop_frame off f rest h e =
        drop-add off (frame_size f) bytes
        ∙ ap (drop (frame_size f)) e
        ∙ drop_at (frame_size f) (frame_bytes x f) rest (length-frame_bytes x law f h)

    nonce_at :
        (off : ℕ) (f : Frame) (rest : Bytes)
        → IsFrame f
        → drop off bytes ≡ frame_bytes x f ++ rest
        → take 12 (drop (off + 8) bytes) ≡ f.nonce
    nonce_at off f rest h e =
        ap (take 12) (drop-add off 8 bytes ∙ ap (drop 8) e) ∙ nonce-frame_bytes x law f h rest

    walk_step :
        (fuel off : ℕ) (last : Option ℕ) (f : Frame) (rest : Bytes)
        → IsFrame f × (frame_size f < 2147483648)
        → drop off bytes ≡ frame_bytes x f ++ rest
        → walk x (suc fuel) bytes off last
          ≡ with_record
              (applied_at off f)
              (walk x fuel bytes (off + frame_size f) (next_commit f.typ (off + frame_size f) last))
    unfolding walk
    walk_step fuel off last f rest h e =
        let size : frame_size f % 4294967296 ≡ frame_size f = omega (arith, h.1) in
        rw (
          in_file off f rest h.0 e,
          parse_at off f rest h.0 e,
          nonce_at off f rest h.0 e,
          size,
          walk,
        )

    -- The walk passes the frames of a log, and goes on at its end.
    pub walk_frames :
        (fs : List Frame) (tail : Bytes) (fuel off : ℕ) (last : Option ℕ) (end : Walked)
        → AllFrames fs
        → length fs < fuel
        → drop off bytes ≡ log_bytes x fs ++ tail
        → ((more : ℕ)
            → 0 < more
            → walk x more bytes (off + log_size fs) (commit_from off fs last) ≡ end)
        → walk x fuel bytes off last ≡ with_records (applied_from off fs) end
    walk_frames fs tail zero off last end h room e k = absurd (omega arith)
    walk_frames [] tail (suc fuel) off last end h room e k =
        ap (λ o. walk x (suc fuel) bytes o last) (omega arith) ∙ k (suc fuel) (omega arith)
    walk_frames (f ∷ fs) tail (suc fuel) off last end h room e k =
        let e' : drop off bytes ≡ frame_bytes x f ++ (log_bytes x fs ++ tail) =
          e ∙ append_assoc (frame_bytes x f) (log_bytes x fs) tail in
        walk_step fuel off last f (log_bytes x fs ++ tail) h.0 e'
        ∙ ap (with_record (applied_at off f)) (
            walk_frames fs tail fuel (off + frame_size f)
              (next_commit f.typ (off + frame_size f) last) end h.1 (omega arith)
              (drop_frame off f (log_bytes x fs ++ tail) h.0.0 e')
              (λ more pos.
                ap
                  (λ o. walk x more bytes o (
                    commit_from (off + frame_size f) fs
                      (next_commit f.typ (off + frame_size f) last)))
                  (omega arith)
                ∙ k more pos))
