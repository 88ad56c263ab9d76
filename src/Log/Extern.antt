-- ===== src/Log/Extern.antt =====
-- What db/filev2.go uses of libraries outside the repository: crc32, AES-GCM, zlib, encoding/json
-- and fmt. They are a record of functions, and the documented behaviour that theorems need is a
-- second record.
use mlstore_db.Prelude.{ℕ, ◌+◌, ◌<◌, ◌≡◌, Bool, Option, some, List, length}
use mlstore_db.Prelude.Bytes.{Bytes}

-- IndexInfo
pub record IndexInfo : Type 0 where
  pub fields : List Bytes
  pub unique : Bool

-- metaCollPayload
pub record MetaColl : Type 0 where
  pub indexes : List IndexInfo
  pub sensitive : List Bytes

-- metaPayload
pub record Meta : Type 0 where
  pub app : Bytes
  pub schema_version : ℕ
  pub collections : List (Bytes × MetaColl)

-- idxPayload; the rows and the matrix are opaque to the scan.
pub record IdxPayload (Rows : Type 0) : Type 0 where
  pub coll : Bytes
  pub info : IndexInfo
  pub rows : Rows

pub record Extern : Type 1 where
  pub Gcm : Type 0
  pub Rows : Type 0
  -- crc32.Checksum over the Castagnoli table
  pub crc32 : Bytes → ℕ
  -- aes.NewCipher and cipher.NewGCM, which refuse a key of a wrong size
  pub new_gcm : Bytes → Option Gcm
  pub gcm_seal : Gcm → Bytes → Bytes → Bytes
  pub gcm_open : Gcm → Bytes → Bytes → Option Bytes
  -- a zlib.Writer written to and closed, and io.ReadAll of a zlib.Reader
  pub deflate : Bytes → Option Bytes
  pub inflate : Bytes → Option Bytes
  pub marshal_meta : Meta → Option Bytes
  pub unmarshal_meta : Bytes → Option Meta
  pub unmarshal_idx : Bytes → Option (IdxPayload Rows)
  -- fmt.Sprint of the field list
  pub sprint_fields : List Bytes → Bytes

-- A checksum is a uint32; opening returns what was sealed, and sealing appends a tag of 16 bytes;
-- inflating returns what was deflated, and a deflated text has a header, so it is not empty.
pub record Lawful (x : Extern) : Type 0 where
  pub crc32_lt : (b : Bytes) → x.crc32 b < 4294967296
  pub gcm_open-seal :
      (g : x.Gcm) (nonce plain : Bytes) → x.gcm_open g nonce (x.gcm_seal g nonce plain) ≡ some plain
  pub length-gcm_seal :
      (g : x.Gcm) (nonce plain : Bytes) → length (x.gcm_seal g nonce plain) ≡ length plain + 16
  pub inflate-deflate :
      (plain packed : Bytes) → x.deflate plain ≡ some packed → x.inflate packed ≡ some plain
  pub length-deflate : (plain packed : Bytes) → x.deflate plain ≡ some packed → 0 < length packed
