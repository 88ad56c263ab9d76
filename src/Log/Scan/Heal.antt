-- ===== src/Log/Scan/Heal.antt =====
-- The repair of openV2 in db/filev2.go: a file with a torn end is cut at the size that scanV2
-- reports, and appendV2 goes on from there.
use mlstore_db.Prelude.{
  ℕ, suc, ◌+◌, ◌≡◌, sym, ap, ◌∙◌, some, List, [], ◌∷◌, ◌++◌, length, take, ◌&&◌, arith,
  append_assoc, append-nil, length-append, take_at, lt→ltb, ltb, if◌then◌else◌, Result, ok, err,
}
use mlstore_db.Prelude.Bytes.{Bytes}
use mlstore_db.Log.Extern.{Extern, Lawful}
use mlstore_db.Log.Record.{Frame, rec_commit}
use mlstore_db.Log.Scan.{ScanResult, apply_committed, scan_v2, header_size}
use mlstore_db.Log.Scan.Files.{
  log_size, AllFrames, applied_from, log_bytes, length-log_bytes, log_bytes-append,
}
use mlstore_db.Log.Scan.Commits.{NoCommit}
use mlstore_db.Log.Scan.Truncated.{truncate_to}
use mlstore_db.Log.Scan.Tail.{IsTail, trunc_at}
use mlstore_db.Log.Scan.Crash.{image, committed_at, scan_image, scan_committed}

-- The repair in openV2: the file is cut at `truncated`.
unfoldable pub self_heal : (x : Extern) → Bytes → ScanResult x → Bytes
self_heal x bytes res =
    if ltb 0 res.truncated && ltb res.truncated (length bytes)
    then take res.truncated bytes
    else bytes

truncated_of :
    (x : Extern) (t : ℕ) (r : Result (ScanResult x)) (res : ScanResult x)
    → some (truncate_to x t r) ≡ some (ok res)
    → res.truncated ≡ t
truncated_of x t (ok r) res e = cc
truncated_of x t (err r) res e = cc

appended :
    (x : Extern) (hdr : Bytes) (gs bs : List Frame) (c' : Frame)
    → image x hdr gs [] ++ log_bytes x (bs ++ c' ∷ []) ≡ image x hdr ((gs ++ bs) ++ c' ∷ []) []
appended x hdr gs bs c' =
    let batch = log_bytes x (bs ++ c' ∷ []) in
    ap (λ t. (hdr ++ t) ++ batch) (append-nil (log_bytes x gs))
    ∙ append_assoc hdr (log_bytes x gs) batch
    ∙ ap (λ t. hdr ++ t)
        (sym (log_bytes-append x gs (bs ++ c' ∷ []))
          ∙ ap (log_bytes x) (sym (append_assoc gs bs (c' ∷ [])))
          ∙ sym (append-nil (log_bytes x ((gs ++ bs) ++ c' ∷ []))))

module _ (x : Extern) (law : Lawful x) (hdr : Bytes) (h152 : length hdr ≡ header_size) where
  heal_cut :
      (gs : List Frame) (tail : Bytes) (res : ScanResult x)
      → AllFrames gs
      → res.truncated ≡ trunc_at tail (header_size + log_size gs)
      → self_heal x (image x hdr gs tail) res ≡ image x hdr gs []
  unfolding self_heal
  heal_cut gs [] res hf e = rw e
  heal_cut gs (b ∷ bs) res hf e =
      let size : length (hdr ++ log_bytes x gs) ≡ header_size + log_size gs =
        omega (arith, length-append hdr (log_bytes x gs), length-log_bytes x law gs hf) in
      let whole : length (image x hdr gs (b ∷ bs)) ≡ header_size + log_size gs + suc (length bs) =
        omega (
          arith,
          length-append hdr (log_bytes x gs ++ b ∷ bs),
          length-append (log_bytes x gs) (b ∷ bs),
          length-log_bytes x law gs hf,
        ) in
      rw (
        e,
        lt→ltb 0 (header_size + log_size gs) (omega arith),
        lt→ltb (header_size + log_size gs) (length (image x hdr gs (b ∷ bs)))
            (omega (arith, whole)),
        ← append_assoc hdr (log_bytes x gs) (b ∷ bs),
        take_at (header_size + log_size gs) (hdr ++ log_bytes x gs) (b ∷ bs) size,
        append-nil (log_bytes x gs),
      )

  module _ (dek : Bytes) (fs : List Frame) (c : Frame) (us : List Frame) (tail : Bytes)
      (hf : AllFrames ((fs ++ c ∷ []) ++ us)) (hc : c.typ ≡ rec_commit) (hu : NoCommit us)
      (ht : IsTail x tail) (res : ScanResult x)
      (scanned : scan_v2 x (image x hdr ((fs ++ c ∷ []) ++ us) tail) dek ≡ some (ok res)) where
    -- The repair drops the torn frame and keeps every complete one, those with no COMMIT behind
    -- them too.
    pub heal_keeps :
        self_heal x (image x hdr ((fs ++ c ∷ []) ++ us) tail) res
        ≡ image x hdr ((fs ++ c ∷ []) ++ us) []
    heal_keeps =
        let t = trunc_at tail (header_size + log_size ((fs ++ c ∷ []) ++ us)) in
        heal_cut ((fs ++ c ∷ []) ++ us) tail res hf (
          truncated_of x t
            (apply_committed x dek (applied_from header_size (fs ++ c ∷ []))
              (committed_at (header_size + log_size (fs ++ c ∷ [])) x))
            res (sym (scan_image x law dek hdr h152 fs c us tail hf hc hu ht) ∙ scanned))

    -- Take a file of frames with a COMMIT, then frames without one, then nothing or a torn frame,
    -- repaired after a scan that returned a result, with a batch of frames appended that ends in
    -- a COMMIT; the libraries lawful, the header of 152 bytes, all frames within their fields and
    -- an int32. A scan of it applies all the frames in order, so also those that had no COMMIT
    -- before the repair.
    pub append_after_heal :
        (bs : List Frame) (c' : Frame)
        → AllFrames ((((fs ++ c ∷ []) ++ us) ++ bs) ++ c' ∷ [])
        → c'.typ ≡ rec_commit
        → scan_v2 x
            (self_heal x (image x hdr ((fs ++ c ∷ []) ++ us) tail) res
              ++ log_bytes x (bs ++ c' ∷ []))
            dek
          ≡ some (
              truncate_to x 0 (
                apply_committed x dek
                  (applied_from header_size ((((fs ++ c ∷ []) ++ us) ++ bs) ++ c' ∷ []))
                  (committed_at
                    (header_size + log_size ((((fs ++ c ∷ []) ++ us) ++ bs) ++ c' ∷ []))
                    x)))
    append_after_heal bs c' hb hc' =
        let gs = (fs ++ c ∷ []) ++ us in
        ap (λ t. scan_v2 x (t ++ log_bytes x (bs ++ c' ∷ [])) dek) heal_keeps
        ∙ ap (λ t. scan_v2 x t dek) (appended x hdr gs bs c')
        ∙ scan_committed x law dek hdr h152 (gs ++ bs) c' hb hc'
