-- ===== src/Log/Record.antt =====
-- The records of db/filev2.go: the id blob, buildRecord, parseRecordAt and decodePayload, with
-- the helpers of db/file.go and db/zlib_helpers.go that they call.
pub mod Roundtrip
pub mod Payload
use Prim.Native.Nat.{bit_or, bit_and}
use mlstore_db.Prelude.{
  ℕ, zero, suc, ◌+◌, Bool, true, false, not, ◌||◌, Option, none, some, [], ◌∷◌, ◌++◌, length, take,
  drop, ltb, ◌==◌, if◌then◌else◌, Result, ok, err, DbError,
}
use mlstore_db.Prelude.Bytes.{Byte, Bytes, put_le16, put_le32, put_be16, le16, le32, be16}
use mlstore_db.Log.Extern.{Extern}

abbrev pub rec_hdr_size : ℕ
rec_hdr_size = 24

abbrev pub rec_doc : Byte
rec_doc = 1

abbrev pub rec_meta : Byte
rec_meta = 2

abbrev pub rec_idx : Byte
rec_idx = 3

abbrev pub rec_del : Byte
rec_del = 4

abbrev pub rec_commit : Byte
rec_commit = 5

abbrev pub flag_rec_compressed : ℕ
flag_rec_compressed = 1

abbrev pub flag_rec_suspect : ℕ
flag_rec_suspect = 2

-- A collection name longer than 0xffff bytes is cut.
unfoldable pub encode_id_blob : Bytes → Bytes → Bytes
encode_id_blob coll id =
    let c = if ltb 0xffff (length coll) then take 0xffff coll else coll in
    put_be16 (length c) ++ (c ++ id)

unfoldable pub decode_id_blob : Bytes → Result (Bytes × Bytes)
decode_id_blob b =
    if ltb (length b) 2
    then err DbError.corrupt
    else if ltb (length b) (2 + be16 b)
    then err DbError.corrupt
    else ok (take (be16 b) (drop 2 b), drop (be16 b) (drop 2 b))

-- The bytes of a record, checksum field aside.
pub record Frame : Type 0 where
  pub typ : Byte
  pub flags : ℕ
  pub id_blob : Bytes
  pub ct : Bytes
  pub nonce : Bytes

-- hdr[0:20]
abbrev pub header20 : Frame → Bytes
header20 f = f.typ ∷ f.flags ∷ (put_le16 (length f.id_blob) ++ (put_le32 (length f.ct) ++ f.nonce))

-- What parseRecordAt returns: errRecTorn, ErrCorrupt, or the fields with the total size.
pub data Parsed : Type 0 where
  torn : Parsed
  damaged : Parsed
  parsed : Byte → ℕ → Bytes → Bytes → ℕ → Parsed

abbrev pub byte_at : ℕ → Bytes → Byte
byte_at n [] = 0
byte_at zero (b ∷ bs) = b
byte_at (suc n) (b ∷ bs) = byte_at n bs

module _ (x : Extern) where
  open x use {crc32, new_gcm, gcm_seal, gcm_open, deflate, inflate}

  -- out, and whether it is compressed: only if that is shorter.
  unfoldable pub compress_if_needed : Bytes → Bytes × Bool
  compress_if_needed plain = elim (deflate plain) [
    | none ↦ (plain, false)
    | some packed ↦ if ltb (length packed) (length plain) then (packed, true) else (plain, false)
  ]

  unfoldable pub seal_gcm : Bytes → Bytes → Bytes → Option Bytes
  seal_gcm key nonce plain = elim (new_gcm key) [
    | none ↦ none
    | some g ↦ some (gcm_seal g nonce plain)
  ]

  unfoldable pub open_gcm : Bytes → Bytes → Bytes → Option Bytes
  open_gcm key nonce ct = elim (new_gcm key) [ none ↦ none | some g ↦ gcm_open g nonce ct ]

  -- hdr || id || payload
  unfoldable pub frame_bytes : Frame → Bytes
  frame_bytes f =
      header20 f ++ (put_le32 (crc32 (header20 f ++ (f.id_blob ++ f.ct))) ++ (f.id_blob ++ f.ct))

  -- body and flags before sealing
  unfoldable pub record_body : ℕ → Bytes → Bytes × ℕ
  unfolding compress_if_needed
  record_body flags plain =
      if ltb 0 (length plain)
      then (let (packed, done) = compress_if_needed plain in
          if done then (packed, bit_or flags flag_rec_compressed) else (plain, flags))
      else (plain, flags)

  unfoldable pub seal_body : Bytes → Bytes → Bytes → Option Bytes
  unfolding seal_gcm
  seal_body dek nonce body = if ltb 0 (length body) then seal_gcm dek nonce body else some []

  unfoldable pub suspect_flag : Bool → ℕ → ℕ
  suspect_flag suspect flags = if suspect then bit_or flags flag_rec_suspect else flags

  -- The frame that buildRecord assembles; `none` is an error: no random bytes, no cipher, or an
  -- id or payload too large for its length field.
  unfoldable pub build_frame : Bytes → Byte → ℕ → Bytes → Bytes → Bool → Option Bytes → Option Frame
  unfolding record_body seal_body suspect_flag
  build_frame dek typ flags id_blob plain suspect none = none
  build_frame dek typ flags id_blob plain suspect (some nonce) =
      elim (seal_body dek nonce (record_body flags plain).0) [
        | none ↦ none
        | some ct ↦
            if ltb 0xffff (length id_blob) || ltb 0xffffffff (length ct)
            then none
            else some (record {
              typ = typ;
              flags = suspect_flag suspect (record_body flags plain).1;
              id_blob = id_blob;
              ct = ct;
              nonce = nonce;
            })
      ]

  -- `random` is what randomBytes(12) returns.
  unfoldable pub build_record :
      Bytes → Byte → ℕ → Bytes → Bytes → Bool → Option Bytes → Option Bytes
  unfolding build_frame frame_bytes
  build_record dek typ flags id_blob plain suspect random =
      elim (build_frame dek typ flags id_blob plain suspect random) [
        | none ↦ none
        | some f ↦ some (frame_bytes f)
      ]

  -- The record at `rest`, which is data[off:].
  unfoldable pub parse_record : Bytes → Parsed
  parse_record rest =
      if ltb (length rest) rec_hdr_size
      then torn
      else let hdr = take rec_hdr_size rest in
        let id_len = le16 (drop 2 hdr) in
        let pay_len = le32 (drop 4 hdr) in
        let total = rec_hdr_size + id_len + pay_len in
        if ltb (length rest) total
        then torn
        else let body = drop rec_hdr_size rest in
          let id_blob = take id_len body in
          let ct = take pay_len (drop id_len body) in
          if le32 (drop 20 hdr) == crc32 (take 20 rest ++ (id_blob ++ ct))
          then parsed (byte_at 0 hdr) (byte_at 1 hdr) id_blob ct total
          else damaged

  unfoldable pub parse_record_at : Bytes → ℕ → Parsed
  unfolding parse_record
  parse_record_at bytes off = parse_record (drop off bytes)

  unfoldable pub zlib_decompress : Bytes → Result Bytes
  zlib_decompress bytes = elim (inflate bytes) [ none ↦ err DbError.other | some b ↦ ok b ]

  unfoldable pub decode_payload : Bytes → ℕ → Bytes → Bytes → Result Bytes
  unfolding open_gcm zlib_decompress
  decode_payload dek flags nonce ct =
      if length ct == 0 then ok [] else elim (open_gcm dek nonce ct) [
        | none ↦ err DbError.corrupt
        | some plain ↦
            if not (bit_and flags flag_rec_compressed == 0) then zlib_decompress plain else ok plain
      ]
