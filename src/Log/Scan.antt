-- ===== src/Log/Scan.antt =====
-- scanV2 of db/filev2.go: the walk over the complete records, the application of those up to the
-- last COMMIT, and the documents that are live after the deletions.
pub mod Files
pub mod Commits
pub mod Truncated
pub mod Tail
pub mod Crash
pub mod Heal
pub mod Termination
pub mod Live
use mlstore_db.Prelude.{
  ℕ, zero, suc, ◌+◌, ◌-◌, ◌%◌, Bool, true, false, not, ◌&&◌, ◌||◌, Option, none, some, List, [],
  ◌∷◌, ◌++◌, length, take, drop, ltb, ◌==◌, if◌then◌else◌, Result, ok, err, DbError, ◌>>=◌,
}
use mlstore_db.Prelude.Bytes.{Byte, Bytes, bytes_eq}
use mlstore_db.Log.Extern.{Extern, Meta, IdxPayload, IndexInfo}
use mlstore_db.Log.Record.{
  Parsed, parse_record_at, decode_id_blob, decode_payload, rec_doc, rec_meta, rec_idx, rec_del,
  rec_commit, flag_rec_suspect,
}
use Prim.Native.Nat.{bit_and}

abbrev pub header_size : ℕ
header_size = 152

-- The local type `applied`.
pub record Applied : Type 0 where
  pub typ : Byte
  pub flags : ℕ
  pub id_blob : Bytes
  pub ct : Bytes
  pub nonce : Bytes
  pub rec_off : ℕ
  pub rec_len : ℕ

-- r.recOff + int64(r.recLen), where the int32 is kept as its bit pattern. A sum below 0 reads as
-- 0, which no comparison with a commit offset tells apart.
abbrev pub rec_end : Applied → ℕ
rec_end r =
    if ltb r.rec_len 2147483648 then r.rec_off + r.rec_len else r.rec_off + r.rec_len - 4294967296

-- What the first loop leaves behind; `none` is the lastCommit of -1.
pub record Walk : Type 0 where
  pub recs : List Applied
  pub last_commit : Option ℕ
  pub truncated : ℕ

pub data Walked : Type 0 where
  out_of_fuel : Walked
  refused : DbError → Walked
  walked : Walk → Walked

abbrev pub with_record : Applied → Walked → Walked
with_record r (walked w) = walked (record w { recs = r ∷ w.recs })
with_record r other = other

abbrev pub is_none {ℓ} : {A : Type ℓ} → Option A → Bool
is_none none = true
is_none (some _) = false

abbrev pub next_commit : Byte → ℕ → Option ℕ → Option ℕ
next_commit typ end last = if typ == rec_commit then some end else last

-- A record begun but not complete: corruption if nothing was ever committed and it is the first.
unfoldable pub torn_tail : ℕ → Option ℕ → Walked
torn_tail off last =
    if is_none last && off == header_size
    then refused DbError.corrupt
    else walked (record { recs = []; last_commit = last; truncated = off })

-- scannedDoc
pub record ScannedDoc : Type 0 where
  pub coll : Bytes
  pub id : Bytes
  pub off : ℕ
  pub len : ℕ
  pub flags : ℕ
  pub nonce : Bytes
  pub payload : Bytes

-- The key coll || 0 || id of the maps.
abbrev pub doc_key : Bytes → Bytes → Bytes
doc_key coll id = coll ++ 0 ∷ id

abbrev pub update : (Bytes → Bool) → Bytes → Bool → Bytes → Bool
update m k v j = if bytes_eq k j then v else m j

-- The maps `alive` and `deleted`; a key that is absent reads as false.
pub record Fate : Type 0 where
  pub alive : Bytes → Bool
  pub deleted : Bytes → Bool

abbrev pub unborn : Fate
unborn = record { alive = λ _. false; deleted = λ _. false }

abbrev pub is_doc_or_del : Byte → Bool
is_doc_or_del typ = typ == rec_doc || typ == rec_del

-- One round of the loop that replays DOC and DEL in order.
unfoldable pub fate_step : Fate → Byte → Bytes → Bytes → Fate
fate_step m typ coll id =
    let k = doc_key coll id in
    if typ == rec_doc
    then record { alive = update m.alive k true; deleted = update m.deleted k false }
    else if typ == rec_del
    then record { alive = update m.alive k false; deleted = update m.deleted k true }
    else m

unfoldable pub fates : Fate → List Applied → Result Fate
fates m [] = ok m
fates m (r ∷ rs) = elim (decode_id_blob r.id_blob) [
  | ok (coll, id) ↦ fates (fate_step m r.typ coll id) rs
  | err e ↦ if is_doc_or_del r.typ then err e else fates (fate_step m r.typ [] []) rs
]

unfoldable pub live_docs : Fate → List ScannedDoc → List ScannedDoc
live_docs m [] = []
live_docs m (d ∷ ds) =
    let k = doc_key d.coll d.id in
    if not (m.deleted k) && m.alive k then d ∷ live_docs m ds else live_docs m ds

-- Records with recOff + recLen <= lastCommit; the loops break at the first that is beyond.
unfoldable pub committed : ℕ → List Applied → List Applied
committed last [] = []
committed last (r ∷ rs) = if ltb last (rec_end r) then [] else r ∷ committed last rs

module _ (x : Extern) where
  open x use {Rows, unmarshal_meta, unmarshal_idx, sprint_fields}

  -- scanResult. The map idxByColl is the list of its payloads, each with its collection, in scan
  -- order; the sets are the lists of what was put into them.
  pub record ScanResult : Type 0 where
    pub commit_end : ℕ
    pub truncated : ℕ
    pub suspect : Bool
    pub meta : Option Meta
    pub docs : List ScannedDoc
    pub dels : List Bytes
    pub idx_by_coll : List (IdxPayload Rows)
    pub idx_seen : List Bytes

  abbrev pub no_result : ScanResult
  no_result = record {
    commit_end = 0;
    truncated = 0;
    suspect = false;
    meta = none;
    docs = [];
    dels = [];
    idx_by_coll = [];
    idx_seen = [];
  }

  -- A round of the first loop for each unit of fuel; every round but the last passes a record.
  unfoldable pub walk : ℕ → Bytes → ℕ → Option ℕ → Walked
  unfolding torn_tail
  walk zero bytes off last = out_of_fuel
  walk (suc fuel) bytes off last = elim (ltb off (length bytes)) [
    | false ↦ walked (record { recs = []; last_commit = last; truncated = 0 })
    | true ↦ elim (parse_record_at x bytes off) [
      | Parsed.torn ↦ torn_tail off last
      | Parsed.damaged ↦ refused DbError.corrupt
      | Parsed.parsed typ flags id_blob ct total ↦
          with_record
            (record {
              typ = typ;
              flags = flags;
              id_blob = id_blob;
              ct = ct;
              nonce = take 12 (drop (off + 8) bytes);
              rec_off = off;
              rec_len = total % 4294967296;
            })
            (walk fuel bytes (off + total) (next_commit typ (off + total) last))
    ]
  ]

  unfoldable pub idx_key : Bytes → IndexInfo → Bytes
  idx_key coll info =
      coll
      ++ 0
        ∷ (sprint_fields info.fields
            ++ 0
              ∷ (if info.unique
                  then b't' ∷ b'r' ∷ b'u' ∷ b'e' ∷ []
                  else b'f' ∷ b'a' ∷ b'l' ∷ b's' ∷ b'e' ∷ []))

  abbrev pub or_corrupt {ℓ} : {A : Type ℓ} → Option A → Result A
  or_corrupt none = err DbError.corrupt
  or_corrupt (some a) = ok a

  unfoldable pub apply_meta : Bytes → Applied → ScanResult → Result ScanResult
  apply_meta dek r res = do
    plain ← decode_payload x dek r.flags r.nonce r.ct
    m ← or_corrupt (unmarshal_meta plain)
    ok (record res { meta = some m })

  unfoldable pub apply_idx : Bytes → Applied → ScanResult → Result ScanResult
  unfolding idx_key
  apply_idx dek r res = do
    plain ← decode_payload x dek r.flags r.nonce r.ct
    p ← or_corrupt (unmarshal_idx plain)
    (coll, _) ← decode_id_blob r.id_blob
    let name = if length p.coll == 0 then coll else p.coll
    ok (record res {
      idx_by_coll = res.idx_by_coll ++ (record p { coll = name }) ∷ [];
      idx_seen = res.idx_seen ++ idx_key name p.info ∷ [];
    })

  unfoldable pub apply_doc : Applied → ScanResult → Result ScanResult
  apply_doc r res = do
    (coll, id) ← decode_id_blob r.id_blob
    ok (record res {
      docs =
          res.docs
          ++ (record {
            coll = coll;
            id = id;
            off = r.rec_off;
            len = r.rec_len;
            flags = r.flags;
            nonce = r.nonce;
            payload = r.ct;
          })
            ∷ [];
    })

  unfoldable pub apply_del : Applied → ScanResult → Result ScanResult
  apply_del r res = do
    (coll, id) ← decode_id_blob r.id_blob
    ok (record res { dels = res.dels ++ doc_key coll id ∷ [] })

  unfoldable pub note_suspect : Applied → ScanResult → ScanResult
  note_suspect r res =
      if not (bit_and r.flags flag_rec_suspect == 0) then record res { suspect = true } else res

  -- The switch of the second loop; an unknown type is ignored.
  unfoldable pub apply_record : Bytes → Applied → ScanResult → Result ScanResult
  unfolding apply_meta apply_idx apply_doc apply_del
  apply_record dek r res =
      if r.typ == rec_commit
      then ok res
      else if r.typ == rec_meta
      then apply_meta dek r res
      else if r.typ == rec_idx
      then apply_idx dek r res
      else if r.typ == rec_doc
      then apply_doc r res
      else if r.typ == rec_del
      then apply_del r res
      else ok res

  unfoldable pub apply_records : Bytes → List Applied → ScanResult → Result ScanResult
  apply_records dek [] res = ok res
  apply_records dek (r ∷ rs) res =
      apply_record dek r (note_suspect r res) >>= λ res'. apply_records dek rs res'

  -- From the second loop on, over the records up to the last COMMIT.
  unfoldable pub apply_committed : Bytes → List Applied → ScanResult → Result ScanResult
  apply_committed dek recs res = do
    seen ← apply_records dek recs res
    m ← fates unborn recs
    ok (record seen { docs = live_docs m seen.docs })

  unfoldable pub finish : Bytes → Walk → Result ScanResult
  finish dek w = elim (w.last_commit) [
    | none ↦ ok (record no_result { truncated = header_size })
    | some last ↦
        apply_committed dek (committed last w.recs)
          (record no_result { truncated = w.truncated; commit_end = last })
  ]

  -- `none` would be a walk cut short by its fuel.
  unfoldable pub after_walk : Bytes → Walked → Option (Result ScanResult)
  unfolding finish
  after_walk dek out_of_fuel = none
  after_walk dek (refused e) = some (err e)
  after_walk dek (walked w) = some (finish dek w)

  unfoldable pub scan_v2 : Bytes → Bytes → Option (Result ScanResult)
  unfolding after_walk
  scan_v2 bytes dek = after_walk dek (walk (suc (length bytes)) bytes header_size none)
