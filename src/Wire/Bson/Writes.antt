-- ===== src/Wire/Bson/Writes.antt =====
-- What the writer of wire/bson.go makes of whole documents.
use mlstore_db.Prelude.{
  ℕ, ◌+◌, ◌≤◌, ◌<◌, ◌≡◌, refl, true, false, none, some, List, [], ◌∷◌, ◌++◌, arith, ◌==◌, length,
  length-append, le→not-ltb,
}
use mlstore_db.Prelude.Bytes.{Bytes, bytes_eq}
use mlstore_db.Prelude.Strings.{str_less, AllAbove, Ascending}
use mlstore_db.Wire.Bson.{
  Value, Fields, no_fields, field, Items, no_items, item, GoLib, BsonType, document_type,
  array_type, js_scope_type, max_bson_depth,
}
use mlstore_db.Wire.Bson.Writer.{
  append_element, framed, sort_elements, insert_element, concat_elements, value_element,
  append_fields, append_items, append_extended, extended_one, document_of, array_of, append_string,
}
use mlstore_db.Wire.Bson.Format.{
  Bson, Members, no_members, member, Elements, no_elements, element, type_of, payload, member_bytes,
  element_bytes, keys_of, value_of, fields_of, items_of, IsKept, AllKept, EachKept, AllPlain,
  IsPlain, Lawful,
}
use mlstore_db.Wire.Bson.Leaves.{
  double-Writes, int32-Writes, int64-Writes, datetime-Writes, object_id-Writes, decimal128-Writes,
  null-Writes, min_key-Writes, max_key-Writes, bool-Writes, string-Writes, js-Writes, binary-Writes,
  regex-Writes, timestamp-Writes, db_pointer-Writes,
}
use mlstore_db.Wire.Bson.Text.{itoa, contains_nul}
use mlstore_db.Wire.Bson.Reader.{two}
use mlstore_db.Wire.Bson.Names

-- The keys of a document with their elements.
unfoldable pub pairs_of : Members → List (Bytes × Bytes)
pairs_of no_members = []
pairs_of (member k x ms) = (k, append_element k (type_of x, payload x)) ∷ pairs_of ms

concat-pairs_of : (ms : Members) → concat_elements (pairs_of ms) ≡ member_bytes ms
unfolding concat_elements pairs_of member_bytes
concat-pairs_of no_members = refl
concat-pairs_of (member k x ms) = rw (concat-pairs_of ms) refl

str_less_asym : (s t : Bytes) → str_less s t ≡ true → str_less t s ≡ false
unfolding str_less
str_less_asym s [] h = absurd (ground arith)
str_less_asym [] (b ∷ t) h = refl
str_less_asym (a ∷ s) (b ∷ t) h = ground (arith, str_less_asym s t)

insert_first :
    (k : Bytes) (e : Bytes) (ms : Members)
    → AllAbove k (keys_of ms)
    → insert_element (k, e) (pairs_of ms) ≡ (k, e) ∷ pairs_of ms
unfolding pairs_of
insert_first k e no_members h = refl
insert_first k e (member l x ms) h = rw (str_less_asym k l h.0) refl

-- Members in ascending order are sorted already.
sort-pairs_of : (ms : Members) → Ascending (keys_of ms) → sort_elements (pairs_of ms) ≡ pairs_of ms
unfolding sort_elements pairs_of
sort-pairs_of no_members h = refl
sort-pairs_of (member k x ms) h =
    rw (sort-pairs_of ms h.1) (insert_first k (append_element k (type_of x, payload x)) ms h.0)

pub length-framed : (b : Bytes) → length (framed b) ≡ length b + 5
length-framed b = omega (arith, length-append b (0 ∷ []))

pub document_of-pairs_of :
    (d : ℕ) (ms : Members)
    → d ≤ max_bson_depth
    → Ascending (keys_of ms)
    → length (framed (member_bytes ms)) < 2147483648
    → document_of d (some (pairs_of ms)) ≡ some (framed (member_bytes ms))
unfolding document_of
document_of-pairs_of d ms shallow asc small =
    rw
      (
        le→not-ltb max_bson_depth d shallow,
        sort-pairs_of ms asc,
        concat-pairs_of ms,
        le→not-ltb 2147483647 (length (member_bytes ms) + 5)
            (omega (arith, length-framed (member_bytes ms))),
      )
      refl

-- Documents with plain keys are not extended.
module _ (lib : GoLib) where
  extended_one_plain : (k : Bytes) (v : Value) → IsPlain k → extended_one lib k v ≡ some none
  unfolding extended_one bytes_eq
  extended_one_plain [] v h = refl
  extended_one_plain (c ∷ k) v h = let e : (c == 36) ≡ false = ground (arith, h) in rw e refl

  not_code : (k : Bytes) → IsPlain k → bytes_eq k Names.code ≡ false
  unfolding bytes_eq
  not_code [] h = refl
  not_code (c ∷ k) h = let e : (c == 36) ≡ false = ground (arith, h) in rw e refl

  append_extended_plain :
      (ms : Members) → AllPlain lib ms → append_extended lib (fields_of lib ms) ≡ some none
  unfolding AllPlain append_extended fields_of
  append_extended_plain no_members h = refl
  append_extended_plain (member k x no_members) h = extended_one_plain k (value_of lib x) h.0
  append_extended_plain (member k x (member l y no_members)) h =
      rw (not_code k h.0, not_code l h.1.0, append_extended) refl
  append_extended_plain (member k x (member l y (member m z ms))) h = refl

pub length-append_element :
    (k : Bytes) (x : Bson) (b : Bytes)
    → length (append_element k (type_of x, payload x) ++ b)
      ≡ length k + length (payload x) + length b + 2
length-append_element k x b =
    omega (arith, length-append (k ++ 0 ∷ payload x) b, length-append k (0 ∷ payload x))

-- One step of the writer, from what it calls.
module _ (lib : GoLib) where
  write_document :
      (fs : Fields) (e : ℕ) (l : List (Bytes × Bytes)) (b : Bytes)
      → append_extended lib fs ≡ some none
      → append_fields lib fs (e + 1) ≡ some l
      → document_of (e + 1) (some l) ≡ some b
      → value_element lib (Value.document fs) e ≡ some (document_type, b)
  unfolding value_element
  write_document fs e l b plain inside whole = rw (plain, value_element, inside, whole) refl

  write_array :
      (vs : Items) (e : ℕ) (b : Bytes)
      → append_items lib 0 vs e ≡ some b
      → e ≤ max_bson_depth
      → value_element lib (Value.array vs) e ≡ some (array_type, framed b)
  unfolding value_element array_of
  write_array vs e b inside shallow =
      rw (inside, value_element, le→not-ltb max_bson_depth e shallow) refl

  write_scope :
      (s : Bytes) (fs : Fields) (e : ℕ) (l : List (Bytes × Bytes)) (b : Bytes)
      → append_fields lib fs 1 ≡ some l
      → document_of 1 (some l) ≡ some b
      → value_element lib (two Names.code (Value.string s) Names.scope (Value.document fs)) e
        ≡ some (js_scope_type, append_string s ++ b)
  unfolding value_element bytes_eq
  write_scope s fs e l b inside whole = rw (inside, value_element, whole) refl

  pub write_field :
      (k : Bytes) (v : Value) (fs : Fields) (e : ℕ) (x : BsonType × Bytes)
      (l : List (Bytes × Bytes))
      → contains_nul k ≡ false
      → value_element lib v e ≡ some x
      → append_fields lib fs e ≡ some l
      → append_fields lib (field k v fs) e ≡ some ((k, append_element k x) ∷ l)
  unfolding append_fields
  write_field k v fs e x l nul here rest = rw (nul, append_fields, here, rest) refl

  write_item :
      (i : ℕ) (v : Value) (vs : Items) (e : ℕ) (x : BsonType × Bytes) (b : Bytes)
      → value_element lib v (e + 1) ≡ some x
      → append_items lib (i + 1) vs e ≡ some b
      → append_items lib i (item v vs) e ≡ some (append_element (itoa i) x ++ b)
  unfolding append_items
  write_item i v vs e x b here rest = rw (here, append_items, rest) refl

  pub write_no_fields : (e : ℕ) → append_fields lib no_fields e ≡ some []
  unfolding append_fields
  write_no_fields e = refl

  write_no_items : (i e : ℕ) → append_items lib i no_items e ≡ some []
  unfolding append_items
  write_no_items i e = refl

module _ (lib : GoLib) (laws : Lawful lib) where
  mutual
    unfolding value_of payload IsKept pairs_of

    pub element-Writes :
        (x : Bson) (d e : ℕ)
        → e ≤ d
        → IsKept lib d x
        → length (payload x) < 2147483648
        → value_element lib (value_of lib x) e ≡ some (type_of x, payload x)
    element-Writes Bson.null d e le h small = null-Writes lib laws e
    element-Writes Bson.min_key d e le h small = min_key-Writes lib laws e
    element-Writes Bson.max_key d e le h small = max_key-Writes lib laws e
    element-Writes (Bson.bool b) d e le h small = bool-Writes lib laws b e
    element-Writes (Bson.double w) d e le h small = double-Writes lib laws w d h e
    element-Writes (Bson.int32 w) d e le h small = int32-Writes lib laws w h e
    element-Writes (Bson.int64 w) d e le h small = int64-Writes lib laws w d h e
    element-Writes (Bson.datetime w) d e le h small = datetime-Writes lib laws w h e
    element-Writes (Bson.string s) d e le h small = string-Writes lib laws s e
    element-Writes (Bson.js s) d e le h small = js-Writes lib laws s e
    element-Writes (Bson.object_id raw) d e le h small = object_id-Writes lib laws raw h.0 h.1 e
    element-Writes (Bson.decimal128 raw) d e le h small = decimal128-Writes lib laws raw h.0 h.1 e
    element-Writes (Bson.binary sub raw) d e le h small = binary-Writes lib laws sub raw h.0 e
    element-Writes (Bson.regex p o) d e le h small = regex-Writes lib laws p o e
    element-Writes (Bson.timestamp t i) d e le h small = timestamp-Writes lib laws t i d h e
    element-Writes (Bson.db_pointer ns raw) d e le h small =
        db_pointer-Writes lib laws ns raw h.0 h.1 e
    element-Writes (Bson.js_scope s ms) d e le (shallow, (asc, kept)) small =
        let size = length-append (append_string s) (framed (member_bytes ms)) in
        let frame = length-framed (member_bytes ms) in
        write_scope lib s (fields_of lib ms) e (pairs_of ms) (framed (member_bytes ms))
          (fields-Writes ms (d + 1) 1 (omega arith) kept (omega (arith, size, frame)))
          (document_of-pairs_of 1 ms (omega arith) asc (omega (arith, size)))
    element-Writes (Bson.document ms) d e le (shallow, (plain, (asc, kept))) small =
        write_document lib (fields_of lib ms) e (pairs_of ms) (framed (member_bytes ms))
          (append_extended_plain lib ms plain)
          (fields-Writes ms (d + 1) (e + 1) (omega arith) kept
            (omega (arith, length-framed (member_bytes ms))))
          (document_of-pairs_of (e + 1) ms (omega arith) asc small)
    element-Writes (Bson.array es) d e le (shallow, kept) small =
        write_array lib (items_of lib es) e (element_bytes 0 es)
          (items-Writes es 0 (d + 1) e (omega arith) kept
            (omega (arith, length-framed (element_bytes 0 es))))
          (omega arith)

    pub fields-Writes :
        (ms : Members) (d e : ℕ)
        → e ≤ d
        → AllKept lib d ms
        → length (member_bytes ms) < 2147483648
        → append_fields lib (fields_of lib ms) e ≡ some (pairs_of ms)
    fields-Writes no_members d e le h small = write_no_fields lib e
    fields-Writes (member k x ms) d e le (nul, (kept, rest)) small =
        let size = length-append_element k x (member_bytes ms) in
        write_field lib k (value_of lib x) (fields_of lib ms) e (type_of x, payload x) (pairs_of ms)
          nul (element-Writes x d e le kept (omega (arith, size)))
          (fields-Writes ms d e le rest (omega (arith, size)))

    pub items-Writes :
        (es : Elements) (i d e : ℕ)
        → e + 1 ≤ d
        → EachKept lib d es
        → length (element_bytes i es) < 2147483648
        → append_items lib i (items_of lib es) e ≡ some (element_bytes i es)
    items-Writes no_elements i d e le h small = write_no_items lib i e
    items-Writes (element x es) i d e le (kept, rest) small =
        let size = length-append_element (itoa i) x (element_bytes (i + 1) es) in
        write_item lib i (value_of lib x) (items_of lib es) e (type_of x, payload x)
          (element_bytes (i + 1) es) (element-Writes x d (e + 1) le kept (omega (arith, size)))
          (items-Writes es (i + 1) d e le rest (omega (arith, size)))
