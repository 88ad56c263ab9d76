-- ===== src/Log/Writer/Batch.antt =====
-- The buffer of a batch is a sequence of frames of which the last, and no other, is a COMMIT.
use mlstore_db.Prelude.{
  ℕ, ◌+◌, ◌≡◌, ◌≢◌, refl, ◌∙◌, Option, none, some, List, [], ◌∷◌, ◌++◌, map, length, arith, ◌==◌,
  ok, Option-cases, Bool-cases, inl, inr,
}
use mlstore_db.Prelude.Bytes.{Byte, Bytes}
use mlstore_db.Log.Extern.{Extern, Lawful, Meta}
use mlstore_db.Log.Record.{
  Frame, rec_doc, rec_idx, rec_commit, build_frame, build_record, frame_bytes, decode_payload,
}
use mlstore_db.Log.Record.Roundtrip.{IsFrame}
use mlstore_db.Log.Record.Payload.{build-IsFrame, decode-build_frame}
use mlstore_db.Log.Scan.Files.{log_bytes}
use mlstore_db.Log.Writer.{
  RecOp, of_type, del_op, meta_ops, meta_rec, op_id_blob, encode_record_bytes, encode_ops,
}

module _ (x : Extern) (law : Lawful x) (dek : Bytes) (random : ℕ → Option Bytes)
    (nonces : (k : ℕ) (n : Bytes) → random k ≡ some n → length n ≡ 12) where
  -- A frame that fits its fields, has the operation's type and id blob, and whose payload decodes,
  -- with the frame's own flags and nonce, to that of the operation.
  abbrev pub FrameOf : RecOp → Frame → Type 0
  FrameOf op f =
      (IsFrame f × (f.typ ≡ op.typ))
      × (f.id_blob ≡ op_id_blob op)
      × (decode_payload x dek f.flags f.nonce f.ct ≡ ok op.payload)

  -- One frame for each operation, in their order.
  abbrev pub FramesOf : List RecOp → List Frame → Type 0
  FramesOf [] [] = Unit {0}
  FramesOf [] (f ∷ fs) = ⊥
  FramesOf (op ∷ ops) [] = ⊥
  FramesOf (op ∷ ops) (f ∷ fs) = FrameOf op f × FramesOf ops fs

  no_frame :
      (op : RecOp) (f : Frame)
      → build_frame x dek op.typ 0 (op_id_blob op) op.payload op.suspect none ≢ some f
  unfolding build_frame
  no_frame op f = λ e. cc

  encode_record_lem :
      (op : RecOp) (k : ℕ) (b : Bytes)
      → encode_record_bytes x dek op (random k) ≡ some b
      → (f : Frame) × (b ≡ frame_bytes x f) × FrameOf op f
  unfolding encode_record_bytes build_record
  encode_record_lem op k b h =
      let blob = op_id_blob op in
      elim (Option-cases (build_frame x dek op.typ 0 blob op.payload op.suspect (random k))) [
        | inl r ↦ absurd (ground (arith, r))
        | inr (f, r) ↦
            let whole : b ≡ frame_bytes x f = ground (arith, r) in
            elim (Option-cases (random k)) [
              | inl q ↦ absurd (no_frame op f (rw q at r))
              | inr (n, q) ↦
                  let fits =
                    build-IsFrame x law dek op.typ blob op.payload n op.suspect f (rw q at r)
                      (nonces k n q) in
                  (
                    f,
                    whole,
                    (
                      (fits.0, fits.1),
                      fits.2,
                      decode-build_frame x law dek op.typ blob op.payload n op.suspect f
                          (rw q at r),
                    ),
                  )
            ]
      ]

  pub encode_ops_lem :
      (k off : ℕ) (ops : List RecOp) (buf : Bytes) (done : List RecOp)
      → encode_ops x dek random k off ops ≡ some (buf, done)
      → (fs : List Frame) × (buf ≡ log_bytes x fs) × FramesOf ops fs
  unfolding encode_ops
  encode_ops_lem k off [] buf done h = ([], ground arith, tt)
  encode_ops_lem k off (op ∷ ops) buf done h =
      elim (Option-cases (encode_record_bytes x dek op (random k))) [
        | inl q ↦ absurd (ground (arith, q))
        | inr (b, q) ↦ elim (Option-cases (encode_ops x dek random (k + 1) (off + length b) ops)) [
          | inl r ↦ absurd (ground (arith, q, r))
          | inr (rest, r) ↦
              let (f, e, same) = encode_record_lem op k b q in
              let (fs, es, all) = encode_ops_lem (k + 1) (off + length b) ops rest.0 rest.1 r in
              let whole : buf ≡ b ++ rest.0 = ground (arith, q, r) in
              (f ∷ fs, whole ∙ rw (e, es) refl, (same, all))
        ]
      ]

-- No operation is a COMMIT.
abbrev pub AllPlain : List RecOp → Type 0
AllPlain [] = Unit {0}
AllPlain (op ∷ ops) = (op.typ ≢ rec_commit) × AllPlain ops

plain-append : (a b : List RecOp) → AllPlain a → AllPlain b → AllPlain (a ++ b)
plain-append [] b h k = k
plain-append (op ∷ a) b h k = (h.0, plain-append a b h.1 k)

of_type_lem : (typ : Byte) (ops : List RecOp) → typ ≢ rec_commit → AllPlain (of_type typ ops)
unfolding of_type
of_type_lem typ [] h = tt
of_type_lem typ (op ∷ ops) h = elim (Bool-cases (op.typ == typ)) [
  | inl same ↦ rw same (ground (arith, same, h), of_type_lem typ ops h)
  | inr other ↦ rw other (of_type_lem typ ops h)
]

dels_lem : (dels : List (Bytes × Bytes)) → AllPlain (map del_op dels)
dels_lem [] = tt
dels_lem (d ∷ dels) = ((λ e. absurd (omega arith)), dels_lem dels)

meta_lem : (mj : Option Bytes) → AllPlain (meta_rec mj)
meta_lem none = tt
meta_lem (some mj) = ((λ e. absurd (omega arith)), tt)

-- What stands before the COMMIT.
abbrev pub body_ops : Extern → List (Bytes × Bytes) → List RecOp → Meta → List RecOp
body_ops x dels ops m =
    map del_op dels ++ (of_type rec_doc ops ++ (meta_ops x m ++ of_type rec_idx ops))

pub body_lem :
    (x : Extern) (dels : List (Bytes × Bytes)) (ops : List RecOp) (m : Meta)
    → AllPlain (body_ops x dels ops m)
body_lem x dels ops m =
    plain-append (map del_op dels) (of_type rec_doc ops ++ (meta_ops x m ++ of_type rec_idx ops))
      (dels_lem dels)
      (plain-append (of_type rec_doc ops) (meta_ops x m ++ of_type rec_idx ops)
        (of_type_lem rec_doc ops (λ e. absurd (omega arith)))
        (plain-append (meta_ops x m) (of_type rec_idx ops) (meta_lem (x.marshal_meta m))
          (of_type_lem rec_idx ops (λ e. absurd (omega arith)))))
