-- ===== src/Wire/Bson/Writer.antt =====
-- The writer of wire/bson.go. What a function appends to dst is its result; every error wraps
-- errBSON.
use mlstore_db.Prelude.{
  ℕ, ◌+◌, ◌*◌, ◌/◌, ◌%◌, Bool, true, false, not, ◌&&◌, ◌||◌, Option, none, some, List, [], ◌∷◌,
  ◌++◌, if◌then◌else◌, ltb, leb, ◌==◌, length,
}
use mlstore_db.Prelude.Bytes.{Bytes, bytes_eq, put_le32}
use mlstore_db.Prelude.Strings.{str_less}
use mlstore_db.Prelude.Options.{◌>>=◌}
use mlstore_db.Wire.Bson.{
  Value, null, bool, float, int, int32, int64, uint64, time, string, bytes, document, array,
  documents, strings, unsupported, Fields, no_fields, field, Items, no_items, item, GoLib,
  get_field, BsonType, double_type, string_type, document_type, array_type, binary_type,
  object_id_type, bool_type, datetime_type, null_type, regex_type, db_pointer_type, js_type,
  js_scope_type, int32_type, timestamp_type, int64_type, decimal128_type, min_key_type,
  max_key_type, type_byte, max_bson_depth,
}
use mlstore_db.Wire.Bson.Text.{hex_decode, itoa, parse_int, contains_nul}
use mlstore_db.Wire.Bson.Names

abbrev pub append_cstring : Bytes → Bytes
append_cstring s = s ++ 0 ∷ []

abbrev pub append_string : Bytes → Bytes
append_string s = put_le32 (length s + 1) ++ (s ++ 0 ∷ [])

abbrev pub append_int32 : ℕ → Bytes
append_int32 v = put_le32 v

-- An int64, or a float64, by its bit pattern.
abbrev pub append_int64 : ℕ → Bytes
append_int64 v = put_le32 v ++ put_le32 (v / 4294967296)

-- A type and a payload, which stand round the key.
abbrev pub Element : Type 0
Element = BsonType × Bytes

-- The name of the type, the key, the payload.
abbrev pub append_element : Bytes → Element → Bytes
append_element key (ty, p) = type_byte ty ∷ (key ++ 0 ∷ p)

-- v.(string), and the two values of a type assertion of which the second is dropped
abbrev pub as_string : Value → Option Bytes
as_string (string s) = some s
as_string _ = none

abbrev pub string_field : Bytes → Fields → Bytes
string_field key fs = elim (get_field key fs) [
  | none ↦ []
  | some v ↦ elim (as_string v) [ none ↦ [] | some s ↦ s ]
]

-- hex.DecodeString of a string of the given length
unfoldable pub hex_of_length : ℕ → Value → Option Bytes
hex_of_length n v = do s ← as_string v; if length s == n then hex_decode s else none

-- An element of the given type, or the error of its payload.
abbrev pub of_type : BsonType → Option Bytes → Option Element
of_type ty p = elim p [ none ↦ none | some b ↦ some (ty, b) ]

-- The bits of an int64 that fits an int32, from -2^31 to 2^31 - 1
abbrev pub fits_int32 : ℕ → Bool
fits_int32 v = ltb v 2147483648 || leb 18446744071562067968 v

unfoldable pub parse_hex_byte : Bytes → Option ℕ
parse_hex_byte s =
    if length s == 2
    then (hex_decode s >>= λ raw. elim raw [ [] ↦ none | b ∷ r ↦ some b ])
    else none

-- Keys with their elements, put in the order of sort.Strings.
abbrev pub insert_element : Bytes × Bytes → List (Bytes × Bytes) → List (Bytes × Bytes)
insert_element e [] = e ∷ []
insert_element e (x ∷ l) = if str_less x.0 e.0 then x ∷ insert_element e l else e ∷ x ∷ l

unfoldable pub sort_elements : List (Bytes × Bytes) → List (Bytes × Bytes)
sort_elements [] = []
sort_elements (e ∷ l) = insert_element e (sort_elements l)

unfoldable pub concat_elements : List (Bytes × Bytes) → Bytes
concat_elements [] = []
concat_elements (e ∷ l) = e.1 ++ concat_elements l

-- The length, the elements and the byte at the end.
abbrev pub framed : Bytes → Bytes
framed b = put_le32 (length b + 5) ++ (b ++ 0 ∷ [])

-- appendDocument at a depth, and appendArray, of what their loops append.
unfoldable pub document_of : ℕ → Option (List (Bytes × Bytes)) → Option Bytes
document_of depth l =
    if ltb max_bson_depth depth
    then none
    else (l >>= λ es.
        let b = concat_elements (sort_elements es) in
        if ltb 2147483647 (length b + 5) then none else some (framed b))

unfoldable pub array_of : ℕ → Option Bytes → Option Bytes
array_of depth items = if ltb max_bson_depth depth then none else (items >>= λ b. some (framed b))

module _ (lib : GoLib) where
  abbrev pub is_integral : ℕ → Bool
  is_integral f = lib.equals_trunc f && not (lib.is_inf f)

  unfoldable pub number_type : ℕ → BsonType
  number_type f =
      if is_integral f
      then (if lib.in_int32 f
          then int32_type
          else if lib.in_safe f
          then int64_type
          else double_type)
      else double_type

  abbrev number_payload : BsonType → ℕ → Bytes
  number_payload int32_type f = append_int32 (lib.to_int64 f % 4294967296)
  number_payload int64_type f = append_int64 (lib.to_int64 f)
  number_payload _ f = append_int64 f

  -- appendNumber behind its type
  unfoldable pub append_number : ℕ → Element
  append_number f = (number_type f, number_payload (number_type f) f)

  abbrev integral_of : ℕ → Option ℕ
  integral_of f = if is_integral f then some (lib.to_int64 f) else none

  -- toInt64 of a document. f == math.Trunc(f) holds of an infinite number too, and the test of
  -- "$numberInt" does not exclude it.
  unfoldable pub int64_of_fields : Fields → Option ℕ
  int64_of_fields fs = elim (get_field Names.number_long fs) [
    | some (string s) ↦ parse_int s
    | _ ↦ elim (get_field Names.number_int fs) [
      | some (string s) ↦ parse_int s
      | some (float f) ↦ if lib.equals_trunc f then some (lib.to_int64 f) else double_of fs
      | _ ↦ double_of fs
    ]
  ]
    where
      double_of : Fields → Option ℕ
      double_of fs = elim (get_field Names.number_double fs) [
        | some (float g) ↦ integral_of g
        | _ ↦ none
      ]

  unfoldable pub to_int64 : Value → Option ℕ
  unfolding int64_of_fields
  to_int64 (int64 n) = some n
  to_int64 (int n) = some n
  to_int64 (int32 n) = some (if ltb n 2147483648 then n else n + 18446744069414584320)
  to_int64 (float f) = integral_of f
  to_int64 (string s) = parse_int s
  to_int64 (document fs) = int64_of_fields fs
  to_int64 _ = none

  unfoldable pub int64_field : Bytes → Fields → ℕ
  int64_field key fs = elim (get_field key fs) [
    | none ↦ 0
    | some v ↦ elim (to_int64 v) [ none ↦ 0 | some n ↦ n ]
  ]

  -- the milliseconds of "$date"
  unfoldable pub date_of : Value → Option ℕ
  date_of (float d) = some (lib.to_int64 d)
  date_of (int64 d) = some d
  date_of (int d) = some d
  date_of (string d) = lib.parse_time d
  date_of _ = none

  unfoldable pub parse_binary_extended : Value → Option (Bytes × ℕ)
  parse_binary_extended (document b) = lib.base64_decode (string_field Names.base64 b) >>= λ raw.
      parse_hex_byte (string_field Names.sub_type b) >>= λ sub. some (raw, sub)
  parse_binary_extended (string b) = lib.base64_decode b >>= λ raw. some (raw, 0)
  parse_binary_extended _ = none

  -- The payload of "$regularExpression", "$timestamp" and "$dbPointer".
  unfoldable pub regex_payload : Value → Option Bytes
  regex_payload (document m) = some (
      append_cstring (string_field Names.pattern_key m)
      ++ append_cstring (string_field Names.options m))
  regex_payload _ = none

  unfoldable pub timestamp_payload : Value → Option Bytes
  timestamp_payload (document m) = some (
      append_int64 (
        int64_field Names.t m * 4294967296 % 18446744073709551616
        + int64_field Names.i m % 4294967296))
  timestamp_payload _ = none

  unfoldable pub db_pointer_payload : Value → Option Bytes
  db_pointer_payload (document m) = hex_decode (string_field Names.id m) >>= λ raw.
      if length raw == 12 then some (append_string (string_field Names.ref m) ++ raw) else none
  db_pointer_payload _ = none

  -- appendExtended at a document of one field: an error, nothing if the document is not extended,
  -- or the element.
  unfoldable pub extended_one : Bytes → Value → Option (Option Element)
  extended_one k v =
      if bytes_eq k Names.oid
      then of object_id_type (hex_of_length 24 v)
      else if bytes_eq k Names.min_key
      then some (some (min_key_type, []))
      else if bytes_eq k Names.max_key
      then some (some (max_key_type, []))
      else if bytes_eq k Names.number_int
      then of int32_type
          (to_int64 v >>= λ n. if fits_int32 n then some (append_int32 (n % 4294967296)) else none)
      else if bytes_eq k Names.number_long
      then of int64_type (to_int64 v >>= λ n. some (append_int64 n))
      else if bytes_eq k Names.number_double
      then of double_type (elim v [ float f ↦ some (append_int64 f) | _ ↦ none ])
      else if bytes_eq k Names.number_decimal
      then of decimal128_type (hex_of_length 32 v)
      else if bytes_eq k Names.date
      then of datetime_type (date_of v >>= λ ms. some (append_int64 ms))
      else if bytes_eq k Names.code
      then of js_type (as_string v >>= λ s. some (append_string s))
      else if bytes_eq k Names.binary
      then of binary_type
          (parse_binary_extended v >>= λ (raw, sub). some (put_le32 (length raw) ++ sub ∷ raw))
      else if bytes_eq k Names.regular_expression
      then of regex_type (regex_payload v)
      else if bytes_eq k Names.timestamp
      then of timestamp_type (timestamp_payload v)
      else if bytes_eq k Names.db_pointer
      then of db_pointer_type (db_pointer_payload v)
      else some none
    where
      of : BsonType → Option Bytes → Option (Option Element)
      of ty p = elim p [ none ↦ none | some b ↦ some (some (ty, b)) ]

  -- The loop of appendArray over the strings of a []string, whose keys are numbers; appendElement of
  -- a string has no error.
  unfoldable pub string_items : ℕ → List Bytes → Bytes
  string_items i [] = []
  string_items i (s ∷ l) =
      append_element (itoa i) (string_type, append_string s) ++ string_items (i + 1) l

  unfoldable mutual
    -- appendElement behind its test of the key
    pub value_element : Value → ℕ → Option Element
    value_element null depth = some (null_type, [])
    value_element (bool b) depth = some (bool_type, (if b then 1 else 0) ∷ [])
    value_element (float f) depth =
        if lib.is_nan f || lib.is_inf f then none else some (append_number f)
    value_element (int v) depth = some (
        if fits_int32 v
        then (int32_type, append_int32 (v % 4294967296))
        else (int64_type, append_int64 v))
    value_element (int32 v) depth = some (int32_type, append_int32 v)
    value_element (int64 v) depth = some (int64_type, append_int64 v)
    value_element (uint64 v) depth =
        if ltb v 9223372036854775808 then some (int64_type, append_int64 v) else none
    value_element (string s) depth = some (string_type, append_string s)
    value_element (bytes b) depth = some (binary_type, append_int32 (length b) ++ 0 ∷ b)
    value_element (time ms) depth = some (datetime_type, append_int64 ms)
    value_element (document fs) depth = elim (append_extended fs) [
      | none ↦ none
      | some (some e) ↦ some e
      | some none ↦ of_type document_type (document_of (depth + 1) (append_fields fs (depth + 1)))
    ]
    value_element (array vs) depth = of_type array_type (array_of depth (append_items 0 vs depth))
    value_element (documents vs) depth =
        of_type array_type (array_of depth (append_items 0 vs depth))
    value_element (strings l) depth = of_type array_type (array_of depth (some (string_items 0 l)))
    value_element unsupported depth = none

    -- The keys of a document, each with its element.
    pub append_fields : Fields → ℕ → Option (List (Bytes × Bytes))
    append_fields no_fields depth = some []
    append_fields (field k v fs) depth = elim (contains_nul k) [
      | true ↦ none
      | false ↦ value_element v depth >>= λ e.
          append_fields fs depth >>= λ l. some ((k, append_element k e) ∷ l)
    ]

    -- The items from an index on.
    pub append_items : ℕ → Items → ℕ → Option Bytes
    append_items i no_items depth = some []
    append_items i (item v vs) depth = value_element v (depth + 1) >>= λ e.
        append_items (i + 1) vs depth >>= λ b. some (append_element (itoa i) e ++ b)

    pub append_extended : Fields → Option (Option Element)
    append_extended no_fields = some none
    append_extended (field k v no_fields) = extended_one k v
    append_extended (field k v (field l w no_fields)) =
        elim (bytes_eq k Names.code && bytes_eq l Names.scope) [
          | true ↦ append_scope v w
          | false ↦ elim (bytes_eq l Names.code && bytes_eq k Names.scope) [
            | true ↦ append_scope w v
            | false ↦ some none
          ]
        ]
    append_extended (field k v (field l w (field m x fs))) = some none

    -- The depth of a scope starts at 1 again.
    pub append_scope : Value → Value → Option (Option Element)
    append_scope code (document sc) = as_string code >>= λ s.
        document_of 1 (append_fields sc 1) >>= λ d.
        some (some (js_scope_type, append_string s ++ d))
    append_scope code _ = none

  unfoldable pub append_document : Fields → ℕ → Option Bytes
  append_document fs depth = document_of depth (append_fields fs depth)

  unfoldable pub encode_bson : Fields → Option Bytes
  unfolding append_document
  encode_bson fs = append_document fs 0
