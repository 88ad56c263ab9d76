-- ===== src/Wire/Bson.antt =====
-- wire/bson.go: the values of documents, and the parts that its reader and its writer share.
pub mod Names
pub mod Text
pub mod Reader
pub mod Writer
pub mod Format
mod Leaves
mod Writes
mod Parts
mod Steps
mod Reads
mod Ends
mod Total
pub mod Roundtrip
mod Tests
use mlstore_db.Prelude.{ℕ, zero, suc, Bool, true, false, Option, none, some, List, if◌then◌else◌}
use mlstore_db.Prelude.Bytes.{Bytes, bytes_eq}

-- An `any` of the store. A float64, and an integer of 32 or 64 bits, is its bit pattern; a time is
-- its milliseconds since 1970, an int64; a map lists its keys. `unsupported` is any other type.
mutual
  pub data Value : Type 0 where
    null : Value
    bool : Bool → Value
    float int int32 int64 uint64 time : ℕ → Value
    string bytes : Bytes → Value
    document : Fields → Value
    array documents : Items → Value
    strings : List Bytes → Value
    unsupported : Value

  pub data Fields : Type 0 where
    no_fields : Fields
    field : Bytes → Value → Fields → Fields

  pub data Items : Type 0 where
    no_items : Items
    item : Value → Items → Items

-- What the codec uses of math, encoding/base64 and time.
pub record GoLib : Type 0 where
  -- math.IsNaN(f), math.IsInf(f, 0) and f == math.Trunc(f)
  pub is_nan : ℕ → Bool
  pub is_inf : ℕ → Bool
  pub equals_trunc : ℕ → Bool
  -- f >= math.MinInt32 && f <= math.MaxInt32, and math.Abs(f) <= 1<<53
  pub in_int32 : ℕ → Bool
  pub in_safe : ℕ → Bool
  -- int64(f), whatever a machine makes of an f that is out of range, and float64(v)
  pub to_int64 : ℕ → ℕ
  pub of_int64 : ℕ → ℕ
  pub base64_encode : Bytes → Bytes
  pub base64_decode : Bytes → Option Bytes
  -- time.Parse in the layout RFC3339Nano, in milliseconds
  pub parse_time : Bytes → Option ℕ

-- doc[key]
unfoldable pub get_field : Bytes → Fields → Option Value
get_field key no_fields = none
get_field key (field k v fs) = if bytes_eq k key then some v else get_field key fs

-- doc[key] = v
unfoldable pub put_field : Bytes → Value → Fields → Fields
put_field key v no_fields = field key v no_fields
put_field key v (field k w fs) =
    if bytes_eq k key then field k v fs else field k w (put_field key v fs)

-- The types of BSON elements, and their bytes.
pub data BsonType : Type 0 where
  double_type string_type document_type array_type binary_type undefined_type : BsonType
  object_id_type bool_type datetime_type null_type regex_type db_pointer_type : BsonType
  js_type symbol_type js_scope_type int32_type timestamp_type int64_type : BsonType
  decimal128_type min_key_type max_key_type : BsonType

abbrev pub type_byte : BsonType → ℕ
type_byte double_type = 0x01
type_byte string_type = 0x02
type_byte document_type = 0x03
type_byte array_type = 0x04
type_byte binary_type = 0x05
type_byte undefined_type = 0x06
type_byte object_id_type = 0x07
type_byte bool_type = 0x08
type_byte datetime_type = 0x09
type_byte null_type = 0x0A
type_byte regex_type = 0x0B
type_byte db_pointer_type = 0x0C
type_byte js_type = 0x0D
type_byte symbol_type = 0x0E
type_byte js_scope_type = 0x0F
type_byte int32_type = 0x10
type_byte timestamp_type = 0x11
type_byte int64_type = 0x12
type_byte decimal128_type = 0x13
type_byte min_key_type = 0xFF
type_byte max_key_type = 0x7F

-- The names of extended documents.
pub data ExtendedKey : Type 0 where
  oid min_key max_key number_int number_long number_double : ExtendedKey
  number_decimal date code binary regular_expression timestamp db_pointer : ExtendedKey

abbrev pub max_bson_depth : ℕ
max_bson_depth = 100
