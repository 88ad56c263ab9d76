-- ===== src/Log/Writer/Atomic.antt =====
-- A crash while appendV2 writes a batch: the file then holds a strict prefix of the batch, and the
-- next scan finds what it found before.
use mlstore_db.Prelude.{
  ℕ, zero, suc, ◌+◌, ◌-◌, ◌<◌, ◌≤◌, ◌≡◌, refl, sym, ap, ◌∙◌, subst, Option, some, List, [], ◌∷◌,
  ◌++◌, length, take, arith, append_assoc, append-nil, length-append, take-append_left,
  take-append_right, Bool-cases, inl, inr, ltb,
}
use mlstore_db.Prelude.Bytes.{Bytes}
use mlstore_db.Log.Extern.{Extern, Lawful, Meta}
use mlstore_db.Log.Record.{Frame, rec_commit, frame_bytes}
use mlstore_db.Log.Record.Roundtrip.{IsFrame, length-frame_bytes}
use mlstore_db.Log.Scan.{scan_v2, header_size}
use mlstore_db.Log.Scan.Files.{AllFrames, log_bytes, frame_size, log_size, log_bytes-append}
use mlstore_db.Log.Scan.Commits.{NoCommit}
use mlstore_db.Log.Scan.Truncated.{truncate_to}
use mlstore_db.Log.Scan.Tail.{IsTail, trunc_at}
use mlstore_db.Log.Scan.{apply_committed}
use mlstore_db.Log.Scan.Files.{applied_from}
use mlstore_db.Log.Scan.Crash.{image, crash_recovery, committed_at, scan_committed}
use mlstore_db.Log.Writer.{RecOp, rec_op, order_ops_for_commit, encode_ops}
use mlstore_db.Log.Writer.Batch.{FramesOf, encode_ops_lem, AllPlain, body_ops, body_lem}
use mathlib.Core.Option

module _ (x : Extern) (law : Lawful x) where
  -- The frames of a batch, its COMMIT apart.
  abbrev Batch : List Frame → Type 0
  Batch fs =
      (gs : List Frame) × (c : Frame) × (fs ≡ gs ++ c ∷ [])
      × NoCommit gs
      × (c.typ ≡ rec_commit)
      × AllFrames (gs ++ c ∷ [])

  module _ (dek : Bytes) (random : ℕ → Option Bytes)
      (nonces : (k : ℕ) (n : Bytes) → random k ≡ some n → length n ≡ 12) where
    batch_lem :
        (body : List RecOp) (op : RecOp) (fs : List Frame)
        → AllPlain body
        → op.typ ≡ rec_commit
        → FramesOf x law dek random nonces (body ++ op ∷ []) fs
        → length (log_bytes x fs) < 2147483648
        → Batch fs
    batch_lem [] op [] p t h b = elim h [ ]
    batch_lem [] op (f ∷ g ∷ fs) p t h b = elim (h.1) [ ]
    batch_lem [] op (f ∷ []) p t h b = (
      [],
      f,
      refl,
      tt,
      h.0.0.1 ∙ t,
      (
        (
          h.0.0.0,
          omega (arith, length-append (frame_bytes x f) [], length-frame_bytes x law f h.0.0.0),
        ),
        tt,
      ),
    )
    batch_lem (d ∷ body) op [] p t h b = elim h [ ]
    batch_lem (d ∷ body) op (f ∷ fs) p t h b =
        let size : length (frame_bytes x f ++ log_bytes x fs)
            ≡ frame_size f + length (log_bytes x fs) =
          omega (
            arith,
            length-append (frame_bytes x f) (log_bytes x fs),
            length-frame_bytes x law f h.0.0.0,
          ) in
        let (gs, c, e, plain, commit, all) = batch_lem body op fs p.1 t h.1 (omega (arith, size)) in
        (
          f ∷ gs,
          c,
          ap (λ l. f ∷ l) e,
          (λ q. p.0 (sym h.0.0.1 ∙ q), plain),
          commit,
          ((h.0.0.0, omega (arith, size)), all),
        )

  -- A part of a log: complete frames and what is left of one more.
  abbrev Part : Bytes → Type 0
  Part bytes =
      (us : List Frame) × (tail : Bytes) × (bytes ≡ log_bytes x us ++ tail)
      × NoCommit us
      × AllFrames us
      × IsTail x tail

  Part-take_frame :
      (f : Frame) (rest : Bytes) (n : ℕ)
      → IsFrame f
      → n < length (frame_bytes x f)
      → Part (take n (frame_bytes x f ++ rest))
  Part-take_frame f rest zero fits h = ([], [], refl, tt, tt, inl refl)
  Part-take_frame f rest (suc n) fits h = (
    [],
    take (suc n) (frame_bytes x f),
    take-append_left (suc n) (frame_bytes x f) rest (omega arith),
    tt,
    tt,
    inr (f, suc n, fits, omega arith, h, refl),
  )

  part_lem :
      (gs : List Frame) (c : Frame) (n : ℕ)
      → AllFrames (gs ++ c ∷ [])
      → NoCommit gs
      → n < length (log_bytes x (gs ++ c ∷ []))
      → Part (take n (log_bytes x (gs ++ c ∷ [])))
  part_lem [] c n all plain h =
      Part-take_frame c [] n all.0.0 (omega (arith, length-append (frame_bytes x c) []))
  part_lem (g ∷ gs) c n all plain h =
      let rest = log_bytes x (gs ++ c ∷ []) in
      let here = length (frame_bytes x g) in
      elim (Bool-cases (ltb n here)) [
        | inl short ↦ Part-take_frame g rest n all.0.0 (ground (arith, short))
        | inr long ↦
            let past : here ≤ n = ground (arith, long) in
            let (us, tail, e, none_committed, good, torn_off) =
              part_lem gs c (n - here) all.1 plain.1
                (omega (arith, length-append (frame_bytes x g) rest)) in
            (
              g ∷ us,
              tail,
              take-append_right n (frame_bytes x g) rest past
                  ∙ ap (λ t. frame_bytes x g ++ t) e
                  ∙ sym (append_assoc (frame_bytes x g) (log_bytes x us) tail),
              (plain.0, none_committed),
              (all.0, good),
              torn_off,
            )
      ]

all_append : (a b : List Frame) → AllFrames a → AllFrames b → AllFrames (a ++ b)
all_append [] b h k = k
all_append (f ∷ a) b h k = (h.0, all_append a b h.1 k)

module _ (x : Extern) (law : Lawful x) (dek hdr : Bytes) (h152 : length hdr ≡ header_size)
    (random : ℕ → Option Bytes) (nonces : (k : ℕ) (n : Bytes) → random k ≡ some n → length n ≡ 12)
    (fs : List Frame) (c : Frame) (hf : AllFrames (fs ++ c ∷ [])) (hc : c.typ ≡ rec_commit)
    (dels : List (Bytes × Bytes)) (ops : List RecOp) (m : Meta) where
  -- The file before: it ends in a COMMIT.
  abbrev pub file : Bytes
  file = image x hdr (fs ++ c ∷ []) []

  image-append :
      (us : List Frame) (tail : Bytes)
      → file ++ (log_bytes x us ++ tail) ≡ image x hdr ((fs ++ c ∷ []) ++ us) tail
  image-append us tail =
      let old = log_bytes x (fs ++ c ∷ []) in
      ap (λ t. (hdr ++ t) ++ (log_bytes x us ++ tail)) (append-nil old)
      ∙ append_assoc hdr old (log_bytes x us ++ tail)
      ∙ ap (λ t. hdr ++ t)
          (sym (append_assoc old (log_bytes x us) tail)
            ∙ ap (λ t. t ++ tail) (sym (log_bytes-append x (fs ++ c ∷ []) us)))

  -- Let a file be a header of 152 bytes and frames that fit their fields and an int32, the last a
  -- COMMIT. Let appendV2 have encoded an ordered batch of deletions, documents, metadata and
  -- indexes, with lawful libraries, random bytes of the length asked for, and less than 2 GiB in
  -- all. Whatever strict prefix of the batch a crash lets reach the file, the scan returns what it
  -- returned before the batch, but for the size to truncate to.
  pub append_crash :
      (buf : Bytes) (done : List RecOp) (n : ℕ)
      → encode_ops x dek random 0 (length file) (order_ops_for_commit x dels ops m)
        ≡ some (buf, done)
      → length buf < 2147483648
      → n < length buf
      → (t : ℕ) × (scan_v2 x (file ++ take n buf) dek
          ≡ Option.map (truncate_to x t) (scan_v2 x file dek))
  unfolding order_ops_for_commit
  append_crash buf done n e small h =
      let body = body_ops x dels ops m in
      let commit = rec_op rec_commit [] in
      let (all, eb, framed) =
        encode_ops_lem x law dek random nonces 0 (length file) (body ++ commit ∷ []) buf done e in
      let fits : length (log_bytes x all) < 2147483648 = omega (arith, small, ap length eb) in
      let (gs, c', ea, plain, hc', good) =
        batch_lem x law dek random nonces body commit all (body_lem x dels ops m) refl framed
          fits in
      let whole : buf ≡ log_bytes x (gs ++ c' ∷ []) = eb ∙ ap (log_bytes x) ea in
      let (us, tail, cut, hu, goodu, ht) =
        part_lem x law gs c' n good plain (omega (arith, ap length whole)) in
      (
        trunc_at tail (header_size + log_size ((fs ++ c ∷ []) ++ us)),
        ap (λ b. scan_v2 x (file ++ b) dek) (ap (take n) whole ∙ cut)
            ∙ ap (λ b. scan_v2 x b dek) (image-append us tail)
            ∙ crash_recovery x law dek hdr h152 fs c us tail (all_append (fs ++ c ∷ []) us hf goodu)
                hc hu ht,
      )

  -- Let a file be a header of 152 bytes and frames that fit their fields and an int32, the last a
  -- COMMIT. Let appendV2 have encoded an ordered batch of deletions, documents, metadata and
  -- indexes, with lawful libraries, random bytes of the length asked for, and less than 2 GiB in
  -- all. Then the batch is the bytes of one frame for each of the ordered operations, with its type
  -- and its id blob, whose payload decodes to that of the operation; and when all of the batch has
  -- reached the file, a scan applies these frames in order after those of before.
  pub append_done :
      (buf : Bytes) (done : List RecOp)
      → encode_ops x dek random 0 (length file) (order_ops_for_commit x dels ops m)
        ≡ some (buf, done)
      → length buf < 2147483648
      → (all : List Frame) × (buf ≡ log_bytes x all)
        × FramesOf x law dek random nonces (order_ops_for_commit x dels ops m) all
        × (scan_v2 x (file ++ buf) dek
            ≡ some (
                truncate_to x 0 (
                  apply_committed x dek
                    (applied_from header_size ((fs ++ c ∷ []) ++ all))
                    (committed_at (header_size + log_size ((fs ++ c ∷ []) ++ all)) x))))
  unfolding order_ops_for_commit
  append_done buf done e small =
      let body = body_ops x dels ops m in
      let commit = rec_op rec_commit [] in
      let (all, eb, framed) =
        encode_ops_lem x law dek random nonces 0 (length file) (body ++ commit ∷ []) buf done e in
      let fits : length (log_bytes x all) < 2147483648 = omega (arith, small, ap length eb) in
      let (gs, c', ea, plain, hc', good) =
        batch_lem x law dek random nonces body commit all (body_lem x dels ops m) refl framed
          fits in
      let before = fs ++ c ∷ [] in
      let order : (before ++ gs) ++ c' ∷ [] ≡ before ++ all =
        append_assoc before gs (c' ∷ []) ∙ ap (λ l. before ++ l) (sym ea) in
      let good' : AllFrames ((before ++ gs) ++ c' ∷ []) =
        subst AllFrames (sym (append_assoc before gs (c' ∷ [])))
          (all_append before (gs ++ c' ∷ []) hf good) in
      (
        all,
        eb,
        framed,
        ap (λ b. scan_v2 x (file ++ b) dek) (eb ∙ sym (append-nil (log_bytes x all)))
            ∙ ap (λ b. scan_v2 x b dek) (image-append all [])
            ∙ subst
                (λ l.
                  scan_v2 x (image x hdr l []) dek
                  ≡ some (
                      truncate_to x 0 (
                        apply_committed x dek (applied_from header_size l)
                          (committed_at (header_size + log_size l) x))))
                order (scan_committed x law dek hdr h152 (before ++ gs) c' good' hc'),
      )
