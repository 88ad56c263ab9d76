-- ===== src/Log/Writer.antt =====
-- The writers of db/filev2.go: orderOpsForCommit, encodeRecordBytes, and the loop and the write of
-- appendV2 and writeFullV2.
pub mod Batch
pub mod Atomic
use mlstore_db.Prelude.{
  ℕ, ◌+◌, ◌%◌, Bool, false, ◌||◌, Option, none, some, List, [], ◌∷◌, ◌++◌, map, length,
  if◌then◌else◌, ◌==◌,
}
use mlstore_db.Prelude.Bytes.{Byte, Bytes}
use mlstore_db.Prelude.Options.{◌>>=◌}
use mlstore_db.Log.Extern.{Extern, Meta}
use mlstore_db.Log.Record.{
  rec_doc, rec_idx, rec_del, rec_meta, rec_commit, encode_id_blob, build_record,
}

-- recOp; the fields of an index record are not read by the writers.
pub record RecOp : Type 0 where
  pub typ : Byte
  pub coll : Bytes
  pub id : Bytes
  pub payload : Bytes
  pub suspect : Bool
  pub out_off : ℕ
  pub out_len : ℕ

-- A recOp whose other fields are zero.
abbrev pub rec_op : Byte → Bytes → RecOp
rec_op typ payload = record {
  typ = typ;
  coll = [];
  id = [];
  payload = payload;
  suspect = false;
  out_off = 0;
  out_len = 0;
}

unfoldable pub of_type : Byte → List RecOp → List RecOp
of_type typ [] = []
of_type typ (op ∷ ops) = if op.typ == typ then op ∷ of_type typ ops else of_type typ ops

abbrev pub del_op : Bytes × Bytes → RecOp
del_op (coll, id) = record (rec_op rec_del []) { coll = coll; id = id }

-- The id blob by the type of the record.
unfoldable pub op_id_blob : RecOp → Bytes
op_id_blob op =
    if op.typ == rec_doc || op.typ == rec_del
    then encode_id_blob op.coll op.id
    else if op.typ == rec_idx
    then encode_id_blob op.coll []
    else if op.typ == rec_meta || op.typ == rec_commit
    then []
    else encode_id_blob op.coll op.id

-- The META record, if the metadata can be marshalled.
abbrev pub meta_rec : Option Bytes → List RecOp
meta_rec none = []
meta_rec (some mj) = rec_op rec_meta mj ∷ []

module _ (x : Extern) where
  abbrev pub meta_ops : Meta → List RecOp
  meta_ops m = meta_rec (x.marshal_meta m)

  unfoldable pub order_ops_for_commit : List (Bytes × Bytes) → List RecOp → Meta → List RecOp
  unfolding of_type
  order_ops_for_commit dels ops m =
      (map del_op dels ++ (of_type rec_doc ops ++ (meta_ops m ++ of_type rec_idx ops)))
      ++ rec_op rec_commit [] ∷ []

  -- `random` is what randomBytes(12) returns.
  unfoldable pub encode_record_bytes : Bytes → RecOp → Option Bytes → Option Bytes
  unfolding op_id_blob
  encode_record_bytes dek op random =
      build_record x dek op.typ 0 (op_id_blob op) op.payload op.suspect random

  -- The loop of both writers: the buffer, and the operations with their places. The calls of
  -- randomBytes are numbered from `k`.
  unfoldable pub encode_ops :
      Bytes → (ℕ → Option Bytes) → ℕ → ℕ → List RecOp → Option (Bytes × List RecOp)
  encode_ops dek random k off [] = some ([], [])
  encode_ops dek random k off (op ∷ ops) = do
    b ← encode_record_bytes dek op (random k)
    (bs, done) ← encode_ops dek random (k + 1) (off + length b) ops
    some (b ++ bs, (record op { out_off = off; out_len = length b % 4294967296 }) ∷ done)

  -- appendV2 on an existing file; the file after the write.
  unfoldable pub append_v2 : Bytes → (ℕ → Option Bytes) → Bytes → List RecOp → Option Bytes
  append_v2 dek random file ops = do
    (buf, done) ← encode_ops dek random 0 (length file) ops
    some (file ++ buf)
