-- ===== src/Log/Scan/Crash.antt =====
-- Recovery after a crash: scanV2 on a file that ends in complete records
-- with no COMMIT behind them, in a torn record, or in both.
use mlstore_db.Prelude.{
  ℕ, suc, ◌+◌, ◌≡◌, refl, sym, ap, ◌∙◌, none, some, List, [], ◌∷◌, ◌++◌, length, drop, arith, inl,
  append_assoc, append-nil, length-append, drop_at,
}
use mathlib.Core.Option
use mlstore_db.Prelude.Bytes.{Bytes}
use mlstore_db.Log.Extern.{Extern, Lawful}
use mlstore_db.Log.Record.{Frame, rec_commit}
use mlstore_db.Log.Scan.{
  walked, walk, finish, ScanResult, no_result, apply_committed, scan_v2, after_walk, header_size,
}
use mlstore_db.Log.Scan.Files.{
  log_size, AllFrames, applied_from, commit_from, log_bytes, length-log_bytes, walk_frames,
}
use mlstore_db.Log.Scan.Commits.{
  NoCommit, with_records-walked, length-le-log_size, last_commit, committed-applied,
}
use mlstore_db.Log.Scan.Truncated.{truncate_to, truncate_to_twice, apply_committed-truncated}
use mlstore_db.Log.Scan.Tail.{IsTail, trunc_at, walk_tail}

-- A file: the header, the records written, and what is left of one more.
abbrev pub image : (x : Extern) → Bytes → List Frame → Bytes → Bytes
image x hdr fs tail = hdr ++ (log_bytes x fs ++ tail)

abbrev pub committed_at : ℕ → (x : Extern) → ScanResult x
committed_at end x = record (no_result x) { commit_end = end }

pub AllFrames-left : (gs us : List Frame) → AllFrames (gs ++ us) → AllFrames gs
AllFrames-left [] us h = tt
AllFrames-left (g ∷ gs) us h = (h.0, AllFrames-left gs us h.1)

module _ (x : Extern) (law : Lawful x) (dek hdr : Bytes) (h152 : length hdr ≡ header_size) where
  walk-image :
      (gs : List Frame) (tail : Bytes) (end : ℕ)
      → AllFrames gs
      → IsTail x tail
      → commit_from header_size gs none ≡ some end
      → walk x (suc (length (image x hdr gs tail))) (image x hdr gs tail) header_size none
        ≡ walked (record {
          recs = applied_from header_size gs;
          last_commit = some end;
          truncated = trunc_at tail (header_size + log_size gs);
        })
  walk-image gs tail end hf ht hc =
      let bytes = image x hdr gs tail in
      let rest = log_bytes x gs ++ tail in
      let start : drop header_size bytes ≡ rest = drop_at header_size hdr rest h152 in
      let after : drop (header_size + log_size gs) bytes ≡ tail =
        ap (λ t. drop (header_size + log_size gs) t) (sym (append_assoc hdr (log_bytes x gs) tail))
        ∙ drop_at (header_size + log_size gs) (hdr ++ log_bytes x gs) tail
            (omega (arith, length-append hdr (log_bytes x gs), length-log_bytes x law gs hf)) in
      walk_frames x law bytes gs tail (suc (length bytes)) header_size none
        (walked (record {
          recs = [];
          last_commit = some end;
          truncated = trunc_at tail (header_size + log_size gs);
        }))
        hf
        (omega (
          arith,
          length-append hdr rest,
          length-append (log_bytes x gs) tail,
          length-log_bytes x law gs hf,
          length-le-log_size gs,
        ))
        start
        (λ more pos.
          ap (walk x more bytes (header_size + log_size gs)) hc
          ∙ walk_tail x law bytes tail more (header_size + log_size gs) end pos ht after)
      ∙ with_records-walked (applied_from header_size gs) (record {
        recs = [];
        last_commit = some end;
        truncated = trunc_at tail (header_size + log_size gs);
      })
      ∙ ap
          (λ rs. walked (record {
            recs = rs;
            last_commit = some end;
            truncated = trunc_at tail (header_size + log_size gs);
          }))
          (append-nil (applied_from header_size gs))

  -- The outcome is that of the committed records `fs` and `c`.
  pub scan_image :
      (fs : List Frame) (c : Frame) (us : List Frame) (tail : Bytes)
      → AllFrames ((fs ++ c ∷ []) ++ us)
      → c.typ ≡ rec_commit
      → NoCommit us
      → IsTail x tail
      → scan_v2 x (image x hdr ((fs ++ c ∷ []) ++ us) tail) dek
        ≡ some (
            truncate_to x (trunc_at tail (header_size + log_size ((fs ++ c ∷ []) ++ us))) (
              apply_committed x dek
                (applied_from header_size (fs ++ c ∷ []))
                (committed_at (header_size + log_size (fs ++ c ∷ [])) x)))
  unfolding scan_v2 finish
  scan_image fs c us tail hf hc hu ht =
      let gs = (fs ++ c ∷ []) ++ us in
      let end = header_size + log_size (fs ++ c ∷ []) in
      ap (after_walk x dek) (walk-image gs tail end hf ht (last_commit fs c us header_size hc hu))
      ∙ ap
          (λ rs. some (
            apply_committed x dek rs (record (committed_at end x) {
              truncated = trunc_at tail (header_size + log_size gs);
            })))
          (committed-applied (fs ++ c ∷ []) us header_size end hf refl)
      ∙ ap some (
          apply_committed-truncated x dek (applied_from header_size (fs ++ c ∷ []))
            (committed_at end x) (trunc_at tail (header_size + log_size gs)))

  -- A file that ends in its COMMIT.
  pub scan_committed :
      (fs : List Frame) (c : Frame)
      → AllFrames (fs ++ c ∷ [])
      → c.typ ≡ rec_commit
      → scan_v2 x (image x hdr (fs ++ c ∷ []) []) dek
        ≡ some (
            truncate_to x 0 (
              apply_committed x dek
                (applied_from header_size (fs ++ c ∷ []))
                (committed_at (header_size + log_size (fs ++ c ∷ [])) x)))
  scan_committed fs c hf hc =
      let e : (fs ++ c ∷ []) ++ [] ≡ fs ++ c ∷ [] = append-nil (fs ++ c ∷ []) in
      rw e at (scan_image fs c [] [] (rw e hf) hc tt (inl refl))

  module _ (fs : List Frame) (c : Frame) (us : List Frame) (tail : Bytes)
      (hf : AllFrames ((fs ++ c ∷ []) ++ us)) (hc : c.typ ≡ rec_commit) (hu : NoCommit us)
      (ht : IsTail x tail) where
    -- Let a file be a header of 152 bytes, frames that fit their fields and an int32, the last of
    -- them a COMMIT, then such frames without a COMMIT, then nothing or a strict prefix of one
    -- more frame. With lawful libraries its scan returns what the scan of the file up to that
    -- COMMIT returns, but for the size to truncate to: the offset of the torn frame, 0 if there is
    -- none.
    pub crash_recovery :
        scan_v2 x (image x hdr ((fs ++ c ∷ []) ++ us) tail) dek
        ≡ Option.map
            (truncate_to x (trunc_at tail (header_size + log_size ((fs ++ c ∷ []) ++ us))))
            (scan_v2 x (image x hdr (fs ++ c ∷ []) []) dek)
    crash_recovery =
        scan_image fs c us tail hf hc hu ht
        ∙ rw (scan_committed fs c (AllFrames-left (fs ++ c ∷ []) us hf) hc) (
            ap some (
              sym (
                truncate_to_twice x 0
                  (trunc_at tail (header_size + log_size ((fs ++ c ∷ []) ++ us)))
                  (apply_committed x dek (applied_from header_size (fs ++ c ∷ []))
                    (committed_at (header_size + log_size (fs ++ c ∷ [])) x)))))
