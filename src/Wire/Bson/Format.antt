-- ===== src/Wire/Bson/Format.antt =====
-- The BSON format, as data: the elements that a document can hold, the bytes that stand for each,
-- and the value of the store that wire/bson.go takes for it.
use mlstore_db.Prelude.{
  ℕ, ◌+◌, ◌*◌, ◌<◌, ◌≡◌, ◌≢◌, Bool, true, false, ◌&&◌, ◌||◌, some, List, [], ◌∷◌, ◌++◌,
  if◌then◌else◌, leb, length,
}
use mlstore_db.Prelude.Bytes.{Bytes, put_le32}
use mlstore_db.Prelude.Strings.{Ascending}
use mlstore_db.Wire.Bson.{
  Value, Fields, no_fields, field, Items, no_items, item, GoLib, BsonType, double_type, string_type,
  document_type, array_type, binary_type, object_id_type, bool_type, datetime_type, null_type,
  regex_type, db_pointer_type, js_type, js_scope_type, int32_type, timestamp_type, int64_type,
  decimal128_type, min_key_type, max_key_type, max_bson_depth,
}
use mlstore_db.Wire.Bson.Text.{hex_encode, format_int, itoa, AllBytes, contains_nul}
use mlstore_db.Wire.Bson.Reader.{one, two, float_of_int32}
use mlstore_db.Wire.Bson.Writer.{
  append_cstring, append_string, append_int32, append_int64, append_element, framed, fits_int32,
}
use mlstore_db.Wire.Bson.Names

-- Numbers are bit patterns.
mutual
  pub data Bson : Type 0 where
    null min_key max_key : Bson
    bool : Bool → Bson
    double int32 int64 datetime : ℕ → Bson
    string js : Bytes → Bson
    object_id decimal128 : Bytes → Bson
    binary : ℕ → Bytes → Bson
    regex : Bytes → Bytes → Bson
    timestamp : ℕ → ℕ → Bson
    db_pointer : Bytes → Bytes → Bson
    js_scope : Bytes → Members → Bson
    document : Members → Bson
    array : Elements → Bson

  pub data Members : Type 0 where
    no_members : Members
    member : Bytes → Bson → Members → Members

  pub data Elements : Type 0 where
    no_elements : Elements
    element : Bson → Elements → Elements

abbrev pub type_of : Bson → BsonType
type_of Bson.null = null_type
type_of Bson.min_key = min_key_type
type_of Bson.max_key = max_key_type
type_of (Bson.bool _) = bool_type
type_of (Bson.double _) = double_type
type_of (Bson.int32 _) = int32_type
type_of (Bson.int64 _) = int64_type
type_of (Bson.datetime _) = datetime_type
type_of (Bson.string _) = string_type
type_of (Bson.js _) = js_type
type_of (Bson.object_id _) = object_id_type
type_of (Bson.decimal128 _) = decimal128_type
type_of (Bson.binary _ _) = binary_type
type_of (Bson.regex _ _) = regex_type
type_of (Bson.timestamp _ _) = timestamp_type
type_of (Bson.db_pointer _ _) = db_pointer_type
type_of (Bson.js_scope _ _) = js_scope_type
type_of (Bson.document _) = document_type
type_of (Bson.array _) = array_type

unfoldable mutual
  pub payload : Bson → Bytes
  payload Bson.null = []
  payload Bson.min_key = []
  payload Bson.max_key = []
  payload (Bson.bool b) = (if b then 1 else 0) ∷ []
  payload (Bson.double w) = append_int64 w
  payload (Bson.int32 w) = append_int32 w
  payload (Bson.int64 w) = append_int64 w
  payload (Bson.datetime w) = append_int64 w
  payload (Bson.string s) = append_string s
  payload (Bson.js s) = append_string s
  payload (Bson.object_id raw) = raw
  payload (Bson.decimal128 raw) = raw
  payload (Bson.binary sub raw) = put_le32 (length raw) ++ sub ∷ raw
  payload (Bson.regex p o) = append_cstring p ++ append_cstring o
  payload (Bson.timestamp t i) = append_int64 (t * 4294967296 + i)
  payload (Bson.db_pointer ns raw) = append_string ns ++ raw
  payload (Bson.js_scope s ms) = append_string s ++ framed (member_bytes ms)
  payload (Bson.document ms) = framed (member_bytes ms)
  payload (Bson.array es) = framed (element_bytes 0 es)

  pub member_bytes : Members → Bytes
  member_bytes no_members = []
  member_bytes (member k x ms) = append_element k (type_of x, payload x) ++ member_bytes ms

  pub element_bytes : ℕ → Elements → Bytes
  element_bytes i no_elements = []
  element_bytes i (element x es) =
      append_element (itoa i) (type_of x, payload x) ++ element_bytes (i + 1) es

abbrev pub keys_of : Members → List Bytes
keys_of no_members = []
keys_of (member k x ms) = k ∷ keys_of ms

-- -2^53 to 2^53, within which a float64 holds every integer
abbrev pub is_safe : ℕ → Bool
is_safe v = leb v 9007199254740992 || leb 18437736874454810624 v

abbrev pub IsSafe : ℕ → Type 0
IsSafe v = (v < 18446744073709551616) × (is_safe v ≡ true)

-- A key that does not make a document an extended one.
abbrev pub IsPlain : Bytes → Type 0
IsPlain [] = Unit {0}
IsPlain (c ∷ s) = c ≢ 36

module _ (lib : GoLib) where
  unfoldable mutual
    pub value_of : Bson → Value
    value_of Bson.null = Value.null
    value_of Bson.min_key = one Names.min_key (Value.int32 1)
    value_of Bson.max_key = one Names.max_key (Value.int32 1)
    value_of (Bson.bool b) = Value.bool b
    value_of (Bson.double w) = Value.float w
    value_of (Bson.int32 w) = float_of_int32 lib w
    value_of (Bson.int64 w) =
        if is_safe w
        then Value.float (lib.of_int64 w)
        else one Names.number_long (Value.string (format_int w))
    value_of (Bson.datetime w) = one Names.date (Value.float (lib.of_int64 w))
    value_of (Bson.string s) = Value.string s
    value_of (Bson.js s) = one Names.code (Value.string s)
    value_of (Bson.object_id raw) = one Names.oid (Value.string (hex_encode raw))
    value_of (Bson.decimal128 raw) = one Names.number_decimal (Value.string (hex_encode raw))
    value_of (Bson.binary sub raw) = one Names.binary (
        two Names.base64 (Value.string (lib.base64_encode raw)) Names.sub_type
          (Value.string (hex_encode (sub ∷ []))))
    value_of (Bson.regex p o) =
        one Names.regular_expression
          (two Names.pattern_key (Value.string p) Names.options (Value.string o))
    value_of (Bson.timestamp t i) =
        one Names.timestamp
          (two Names.t (Value.float (lib.of_int64 t)) Names.i (Value.float (lib.of_int64 i)))
    value_of (Bson.db_pointer ns raw) =
        one Names.db_pointer
          (two Names.ref (Value.string ns) Names.id (Value.string (hex_encode raw)))
    value_of (Bson.js_scope s ms) =
        two Names.code (Value.string s) Names.scope (Value.document (fields_of ms))
    value_of (Bson.document ms) = Value.document (fields_of ms)
    value_of (Bson.array es) = Value.array (items_of es)

    pub fields_of : Members → Fields
    fields_of no_members = no_fields
    fields_of (member k x ms) = field k (value_of x) (fields_of ms)

    pub items_of : Elements → Items
    items_of no_elements = no_items
    items_of (element x es) = item (value_of x) (items_of es)

  -- What the codec keeps, at a depth: a double that is no integer in reach of the other types, an
  -- int64 that is no int32, dates within 2^53, a binary that is not of the old subtype, keys in
  -- ascending order without a NUL, and plain ones in a document that is not a scope.
  unfoldable mutual
    pub IsKept : ℕ → Bson → Type 0
    IsKept d Bson.null = Unit {0}
    IsKept d Bson.min_key = Unit {0}
    IsKept d Bson.max_key = Unit {0}
    IsKept d (Bson.bool b) = Unit {0}
    IsKept d (Bson.double w) =
        (w < 18446744073709551616)
        × ((lib.is_nan w ≡ false)
            × ((lib.is_inf w ≡ false)
                × ((lib.equals_trunc w && (lib.in_int32 w || lib.in_safe w)) ≡ false)))
    IsKept d (Bson.int32 w) = w < 4294967296
    IsKept d (Bson.int64 w) = (w < 18446744073709551616) × (fits_int32 w ≡ false)
    IsKept d (Bson.datetime w) = IsSafe w
    IsKept d (Bson.string s) = Unit {0}
    IsKept d (Bson.js s) = Unit {0}
    IsKept d (Bson.object_id raw) = AllBytes raw × (length raw ≡ 12)
    IsKept d (Bson.decimal128 raw) = AllBytes raw × (length raw ≡ 16)
    IsKept d (Bson.binary sub raw) = (sub < 256) × (sub ≢ 2)
    IsKept d (Bson.regex p o) = (contains_nul p ≡ false) × (contains_nul o ≡ false)
    IsKept d (Bson.timestamp t i) = (t < 4294967296) × (i < 4294967296)
    IsKept d (Bson.db_pointer ns raw) = AllBytes raw × (length raw ≡ 12)
    IsKept d (Bson.js_scope s ms) =
        (d < max_bson_depth) × (Ascending (keys_of ms) × AllKept (d + 1) ms)
    IsKept d (Bson.document ms) =
        (d < max_bson_depth) × (AllPlain ms × (Ascending (keys_of ms) × AllKept (d + 1) ms))
    IsKept d (Bson.array es) = (d < max_bson_depth) × EachKept (d + 1) es

    pub AllPlain : Members → Type 0
    AllPlain no_members = Unit {0}
    AllPlain (member k x ms) = IsPlain k × AllPlain ms

    pub AllKept : ℕ → Members → Type 0
    AllKept d no_members = Unit {0}
    AllKept d (member k x ms) = (contains_nul k ≡ false) × (IsKept d x × AllKept d ms)

    pub EachKept : ℕ → Elements → Type 0
    EachKept d no_elements = Unit {0}
    EachKept d (element x es) = IsKept d x × EachKept d es

  -- The documented behaviour of the conversions, within 2^53, and of base64.
  pub record Lawful : Type 0 where
    pub nan_of : (v : ℕ) → IsSafe v → lib.is_nan (lib.of_int64 v) ≡ false
    pub inf_of : (v : ℕ) → IsSafe v → lib.is_inf (lib.of_int64 v) ≡ false
    pub trunc_of : (v : ℕ) → IsSafe v → lib.equals_trunc (lib.of_int64 v) ≡ true
    pub to-of_int64 : (v : ℕ) → IsSafe v → lib.to_int64 (lib.of_int64 v) ≡ v
    pub int32_of : (v : ℕ) → IsSafe v → lib.in_int32 (lib.of_int64 v) ≡ fits_int32 v
    pub safe_of : (v : ℕ) → IsSafe v → lib.in_safe (lib.of_int64 v) ≡ true
    pub base64_decode-encode : (b : Bytes) → lib.base64_decode (lib.base64_encode b) ≡ some b
