-- ===== src/Wire/Bson/Reader.antt =====
-- The reader of wire/bson.go. A bsonReader is the list of the bytes from its position on: a test
-- of the position against the length of the slice is one of the length of that list. Every error
-- of the reader wraps errBSON.
use mlstore_db.Prelude.{
  ℕ, zero, suc, ◌+◌, ◌-◌, ◌*◌, ◌/◌, ◌%◌, Bool, true, false, not, ◌||◌, Option, none, some, [], ◌∷◌,
  if◌then◌else◌, ltb, leb, ◌==◌, length, take, drop,
}
use mlstore_db.Prelude.Bytes.{Bytes, le32}
use mlstore_db.Wire.Bson.{
  Value, null, bool, float, int32, string, document, array, Fields, no_fields, field, Items,
  no_items, item, GoLib, put_field, BsonType, double_type, string_type, document_type, array_type,
  binary_type, undefined_type, object_id_type, bool_type, datetime_type, null_type, regex_type,
  db_pointer_type, js_type, symbol_type, js_scope_type, int32_type, timestamp_type, int64_type,
  decimal128_type, min_key_type, max_key_type, max_bson_depth,
}
use mlstore_db.Wire.Bson.Text.{hex_encode, format_int}
use mlstore_db.Wire.Bson.Names

-- Go's value, error and panic; `out_of_fuel` is none of them.
pub data Read {ℓ} (A : Type ℓ) : Type ℓ where
  got : A → Read A
  invalid : Read A
  panics : Read A
  out_of_fuel : Read A

infixl 5 ◌>>=◌
abbrev pub ◌>>=◌ {ℓ κ} : {A : Type ℓ} {B : Type κ} → Read A → (A → Read B) → Read B
got a >>= f = f a
invalid >>= f = invalid
panics >>= f = panics
out_of_fuel >>= f = out_of_fuel

-- readRaw of a length that is not negative
unfoldable pub read_raw : ℕ → Bytes → Read (Bytes × Bytes)
read_raw n r = if ltb (length r) n then invalid else got (take n r, drop n r)

unfoldable pub read_byte : Bytes → Read (ℕ × Bytes)
read_byte [] = invalid
read_byte (b ∷ r) = got (b, r)

-- The bit pattern of an int32.
unfoldable pub read_int32 : Bytes → Read (ℕ × Bytes)
read_int32 (a ∷ b ∷ c ∷ d ∷ r) = got (le32 (a ∷ b ∷ c ∷ d ∷ []), r)
read_int32 _ = invalid

-- The bit pattern of an int64, a uint64 or a float64.
unfoldable pub read_int64 : Bytes → Read (ℕ × Bytes)
read_int64 r = do (l, r') ← read_int32 r; (h, r'') ← read_int32 r'; got (l + 4294967296 * h, r'')

unfoldable pub read_cstring : Bytes → Read (Bytes × Bytes)
read_cstring [] = invalid
read_cstring (b ∷ r) =
    if b == 0 then got ([], r) else (read_cstring r >>= λ (s, r'). got (b ∷ s, r'))

-- int32(n) < k, for a k that is not negative
abbrev pub int32_below : ℕ → ℕ → Bool
int32_below n k = leb 2147483648 n || ltb n k

unfoldable pub read_string : Bytes → Read (Bytes × Bytes)
read_string r = do
  (n, r') ← read_int32 r
  if int32_below n 1 || ltb (length r') n then invalid else got (take (n - 1) r', drop n r')

unfoldable pub bson_type : ℕ → Option BsonType
bson_type t =
    if t == 0x01
    then some double_type
    else if t == 0x02
    then some string_type
    else if t == 0x03
    then some document_type
    else if t == 0x04
    then some array_type
    else if t == 0x05
    then some binary_type
    else if t == 0x06
    then some undefined_type
    else if t == 0x07
    then some object_id_type
    else if t == 0x08
    then some bool_type
    else if t == 0x09
    then some datetime_type
    else if t == 0x0A
    then some null_type
    else if t == 0x0B
    then some regex_type
    else if t == 0x0C
    then some db_pointer_type
    else if t == 0x0D
    then some js_type
    else if t == 0x0E
    then some symbol_type
    else if t == 0x0F
    then some js_scope_type
    else if t == 0x10
    then some int32_type
    else if t == 0x11
    then some timestamp_type
    else if t == 0x12
    then some int64_type
    else if t == 0x13
    then some decimal128_type
    else if t == 0xFF
    then some min_key_type
    else if t == 0x7F
    then some max_key_type
    else none

-- A document of one field, and one of two.
abbrev pub one : Bytes → Value → Value
one k v = document (field k v no_fields)

abbrev pub two : Bytes → Value → Bytes → Value → Value
two k v l w = document (field k v (field l w no_fields))

-- binary.LittleEndian.Uint32, which panics on less than four bytes.
unfoldable pub uint32_at : Bytes → Read ℕ
uint32_at (a ∷ b ∷ c ∷ d ∷ r) = got (le32 (a ∷ b ∷ c ∷ d ∷ []))
uint32_at _ = panics

-- An old binary, of subtype 2, holds its length once more.
unfoldable pub inner_binary : ℕ → Bytes → Read Bytes
inner_binary sub raw =
    if sub == 2
    then (if ltb (length raw) 4
        then invalid
        else (uint32_at raw >>= λ inner.
            if ltb (length raw) (4 + inner) then invalid else got (take inner (drop 4 raw))))
    else got raw

-- The test behind the loops of readDocumentKeys and readArray: `n` bytes were read of `r`.
unfoldable pub check_end {ℓ} : {A : Type ℓ} → Bytes → ℕ → A × Bytes → Read (A × Bytes)
check_end r n (a, left) = if length r - length left == n then got (a, left) else invalid

-- The tests in front of the loops.
unfoldable pub read_length : ℕ → Bytes → Read (ℕ × Bytes)
read_length depth r =
    if ltb max_bson_depth depth
    then invalid
    else (read_int32 r >>= λ (n, r').
        if int32_below n 5 || ltb (length r) n then invalid else got (n, r'))

module _ (lib : GoLib) where
  -- float64 of an int32, whose sign is that of the int64
  abbrev pub float_of_int32 : ℕ → Value
  float_of_int32 v = float (lib.of_int64 (if ltb v 2147483648 then v else v + 18446744069414584320))

  -- The cases of readValue that call no other: a value of each type but document, array and code
  -- with scope.
  unfoldable pub read_leaf : BsonType → Bytes → Read (Value × Bytes)
  read_leaf double_type r = do (v, r') ← read_int64 r; got (float v, r')
  read_leaf string_type r = do (s, r') ← read_string r; got (string s, r')
  read_leaf symbol_type r = do (s, r') ← read_string r; got (string s, r')
  read_leaf binary_type r = do
    (n, r1) ← read_int32 r
    (sub, r2) ← read_byte r1
    (raw, r3) ← if int32_below n 0 then invalid else read_raw n r2
    inner ← inner_binary sub raw
    got (
      one Names.binary (
          two Names.base64 (string (lib.base64_encode inner)) Names.sub_type
            (string (hex_encode (sub ∷ [])))),
      r3,
    )
  read_leaf undefined_type r = got (null, r)
  read_leaf null_type r = got (null, r)
  read_leaf object_id_type r = do
    (raw, r') ← read_raw 12 r
    got (one Names.oid (string (hex_encode raw)), r')
  read_leaf bool_type r = do (v, r') ← read_byte r; got (bool (not (v == 0)), r')
  read_leaf datetime_type r = do
    (ms, r') ← read_int64 r
    got (one Names.date (float (lib.of_int64 ms)), r')
  read_leaf regex_type r = do
    (p, r1) ← read_cstring r
    (o, r2) ← read_cstring r1
    got (
      one Names.regular_expression (two Names.pattern_key (string p) Names.options (string o)),
      r2,
    )
  read_leaf db_pointer_type r = do
    (ns, r1) ← read_string r
    (raw, r2) ← read_raw 12 r1
    got (one Names.db_pointer (two Names.ref (string ns) Names.id (string (hex_encode raw))), r2)
  read_leaf js_type r = do (s, r') ← read_string r; got (one Names.code (string s), r')
  read_leaf int32_type r = do (v, r') ← read_int32 r; got (float_of_int32 v, r')
  read_leaf timestamp_type r = do
    (v, r') ← read_int64 r
    got (
      one Names.timestamp (
          two Names.t (float (lib.of_int64 (v / 4294967296))) Names.i
            (float (lib.of_int64 (v % 4294967296)))),
      r',
    )
  read_leaf int64_type r = do
    (v, r') ← read_int64 r
    if leb v 9007199254740992 || leb 18437736874454810624 v
        then got (float (lib.of_int64 v), r')
        else got (one Names.number_long (string (format_int v)), r')
  read_leaf decimal128_type r = do
    (raw, r') ← read_raw 16 r
    got (one Names.number_decimal (string (hex_encode raw)), r')
  read_leaf min_key_type r = got (one Names.min_key (int32 1), r)
  read_leaf max_key_type r = got (one Names.max_key (int32 1), r)
  read_leaf _ r = invalid

  unfoldable mutual
    -- readValue
    pub read_value : ℕ → ℕ → ℕ → Bytes → Read (Value × Bytes)
    read_value zero t depth r = out_of_fuel
    read_value (suc f) t depth r = elim (bson_type t) [
      | none ↦ invalid
      | some ty ↦ elim ty [
        | document_type ↦ read_document f (depth + 1) r >>= λ (d, r'). got (document d, r')
        | array_type ↦ read_array f (depth + 1) r >>= λ (a, r'). got (array a, r')
        | js_scope_type ↦ read_string r >>= λ (s, r1). read_document f (depth + 1) r1 >>= λ (d, r2).
            got (two Names.code (string s) Names.scope (document d), r2)
        | leaf ↦ read_leaf leaf r
      ]
    ]

    -- readDocumentKeys, but for the list of keys that it also returns
    pub read_document : ℕ → ℕ → Bytes → Read (Fields × Bytes)
    read_document zero depth r = out_of_fuel
    read_document (suc f) depth r =
        read_length depth r >>= λ (n, r'). read_fields f depth no_fields r' >>= check_end r n

    -- Its loop, with the document so far.
    pub read_fields : ℕ → ℕ → Fields → Bytes → Read (Fields × Bytes)
    read_fields zero depth fs r = out_of_fuel
    read_fields (suc f) depth fs [] = invalid
    read_fields (suc f) depth fs (t ∷ r) = elim (t == 0) [
      | true ↦ got (fs, r)
      | false ↦ read_cstring r >>= λ (key, r1).
          read_value f t depth r1 >>= λ (v, r2). read_fields f depth (put_field key v fs) r2
    ]

    -- readArray
    pub read_array : ℕ → ℕ → Bytes → Read (Items × Bytes)
    read_array zero depth r = out_of_fuel
    read_array (suc f) depth r =
        read_length depth r >>= λ (n, r'). read_items f depth r' >>= check_end r n

    -- Its loop: the items from here on.
    pub read_items : ℕ → ℕ → Bytes → Read (Items × Bytes)
    read_items zero depth r = out_of_fuel
    read_items (suc f) depth [] = invalid
    read_items (suc f) depth (t ∷ r) = elim (t == 0) [
      | true ↦ got (no_items, r)
      | false ↦ read_cstring r >>= λ (key, r1). read_value f t depth r1 >>= λ (v, r2).
          read_items f depth r2 >>= λ (vs, r3). got (item v vs, r3)
    ]

  -- decodeBSONOrdered; each call reads a byte or is the caller of one that does.
  unfoldable pub decode_bson : Bytes → Read Fields
  decode_bson b =
      read_document (length b + 2) 0 b >>= λ (d, r). if length r == 0 then got d else invalid
