-- ===== src/Wire/Bson/Leaves.antt =====
-- What the writer of wire/bson.go makes of the values that hold no document of their own.
use mlstore_db.Prelude.{
  ℕ, ◌+◌, ◌*◌, ◌%◌, ◌<◌, ◌≡◌, refl, Bool, ◌∙◌, true, false, ◌&&◌, ◌||◌, some, [], ◌∷◌, arith,
  if◌then◌else◌, ltb, ◌==◌, ==_iff, length, Bool-cases, inl, inr,
}
use mlstore_db.Prelude.Bytes.{Bytes, bytes_eq}
use mlstore_db.Wire.Bson.{
  Value, Fields, no_fields, field, GoLib, int32_type, int64_type, double_type, get_field,
}
use mlstore_db.Wire.Bson.Text.{
  hex_encode, hex_decode-encode, length-hex_encode, format_int, parse_int-format_int, AllBytes,
}
use mlstore_db.Wire.Bson.Writer.{
  append_number, number_type, append_int32, append_int64, extended_one, value_element, fits_int32,
  to_int64, parse_hex_byte, date_of, parse_binary_extended, regex_payload, timestamp_payload,
  db_pointer_payload, hex_of_length, int64_field,
}
use mlstore_db.Wire.Bson.Format.{Bson, payload, type_of, value_of, IsKept, Lawful, is_safe, IsSafe}
use mlstore_db.Wire.Bson.Reader.{one, two}
use mlstore_db.Wire.Bson.Names

hex_of_length-encode :
    (n : ℕ) (raw : Bytes)
    → AllBytes raw
    → length raw ≡ n
    → hex_of_length (2 * n) (Value.string (hex_encode raw)) ≡ some raw
unfolding hex_of_length
hex_of_length-encode n raw h k =
    let e : (length (hex_encode raw) == 2 * n) ≡ true =
      (==_iff (length (hex_encode raw)) (2 * n)).1 (omega (arith, length-hex_encode raw)) in
    rw (e, hex_decode-encode raw h) refl

module _ (lib : GoLib) (laws : Lawful lib) where
  open laws use {nan_of, inf_of, trunc_of, to-of_int64, int32_of, safe_of, base64_decode-encode}

  -- An integer within 2^53 is written as an int32 if it is one, else as an int64.
  append_number-of_int64 :
      (v : ℕ)
      → IsSafe v
      → append_number lib (lib.of_int64 v) ≡ (
          if fits_int32 v
          then (int32_type, append_int32 (v % 4294967296))
          else (int64_type, append_int64 v))
  unfolding append_number number_type
  append_number-of_int64 v h = elim (Bool-cases (fits_int32 v)) [
    | inl small ↦ rw (trunc_of v h, inf_of v h, int32_of v h, small, to-of_int64 v h) refl
    | inr big ↦ rw (trunc_of v h, inf_of v h, int32_of v h, big, safe_of v h, to-of_int64 v h) refl
  ]

  -- An element is written with its type and its payload, at any depth.
  abbrev pub Writes : Bson → Type 0
  Writes x = (d : ℕ) → value_element lib (value_of lib x) d ≡ some (type_of x, payload x)

  element-float_of :
      (v d : ℕ)
      → IsSafe v
      → value_element lib (Value.float (lib.of_int64 v)) d
        ≡ some (
            if fits_int32 v
            then (int32_type, append_int32 (v % 4294967296))
            else (int64_type, append_int64 v))
  unfolding value_element
  element-float_of v d h = rw (nan_of v h, inf_of v h) (rw (append_number-of_int64 v h) refl)

  number_type_double :
      (w : ℕ)
      → (lib.equals_trunc w && (lib.in_int32 w || lib.in_safe w)) ≡ false
      → number_type lib w ≡ double_type
  unfolding number_type
  number_type_double w far = ground arith

  pub double-Writes : (w d : ℕ) → IsKept lib d (Bson.double w) → Writes (Bson.double w)
  unfolding IsKept value_of payload value_element append_number
  double-Writes w d (h, (nan, (inf, far))) e = rw (nan, inf, number_type_double w far) refl

  pub int32-Writes : (w : ℕ) → w < 4294967296 → Writes (Bson.int32 w)
  unfolding value_of payload
  int32-Writes w h d = elim (Bool-cases (ltb w 2147483648)) [
    | inl small ↦ rw small (
        element-float_of w d (omega arith, ground arith)
        ∙ (let fits : fits_int32 w ≡ true = ground arith in
            let e : w % 4294967296 ≡ w = omega arith in rw (fits, e) refl))
    | inr big ↦ rw big (
        element-float_of (w + 18446744069414584320) d (omega arith, ground arith)
        ∙ (let fits : fits_int32 (w + 18446744069414584320) ≡ true = ground arith in
            let e : (w + 18446744069414584320) % 4294967296 ≡ w = omega arith in rw (fits, e) refl))
  ]

  to_int64-string :
      (w : ℕ) → w < 18446744073709551616 → to_int64 lib (Value.string (format_int w)) ≡ some w
  unfolding to_int64
  to_int64-string w h = parse_int-format_int w h

  to_int64-float : (v : ℕ) → IsSafe v → to_int64 lib (Value.float (lib.of_int64 v)) ≡ some v
  unfolding to_int64
  to_int64-float v h = rw (trunc_of v h, inf_of v h, to-of_int64 v h) refl

  element_long :
      (w d : ℕ)
      → w < 18446744073709551616
      → value_element lib (one Names.number_long (Value.string (format_int w))) d
        ≡ some (int64_type, append_int64 w)
  unfolding value_element extended_one bytes_eq
  element_long w d h = rw (to_int64-string w h, value_element) refl

  pub int64-Writes : (w d : ℕ) → IsKept lib d (Bson.int64 w) → Writes (Bson.int64 w)
  unfolding IsKept value_of payload
  int64-Writes w d (h, far) e = elim (Bool-cases (is_safe w)) [
    | inl near ↦ rw near (element-float_of w e (h, near) ∙ rw far refl)
    | inr out ↦ rw out (element_long w e h)
  ]

  pub datetime-Writes : (w : ℕ) → IsSafe w → Writes (Bson.datetime w)
  unfolding value_of payload value_element extended_one bytes_eq date_of
  datetime-Writes w h d = rw (to-of_int64 w h, value_element) refl

  pub object_id-Writes :
      (raw : Bytes) → AllBytes raw → length raw ≡ 12 → Writes (Bson.object_id raw)
  unfolding value_of payload value_element extended_one bytes_eq
  object_id-Writes raw h k d =
      let e : hex_of_length 24 (Value.string (hex_encode raw)) ≡ some raw =
        hex_of_length-encode 12 raw h k in
      rw (e, value_element) refl

  pub decimal128-Writes :
      (raw : Bytes) → AllBytes raw → length raw ≡ 16 → Writes (Bson.decimal128 raw)
  unfolding value_of payload value_element extended_one bytes_eq
  decimal128-Writes raw h k d =
      let e : hex_of_length 32 (Value.string (hex_encode raw)) ≡ some raw =
        hex_of_length-encode 16 raw h k in
      rw (e, value_element) refl

  parse_hex_byte-encode : (b : ℕ) → b < 256 → parse_hex_byte (hex_encode (b ∷ [])) ≡ some b
  unfolding parse_hex_byte
  parse_hex_byte-encode b h =
      let e : (length (hex_encode (b ∷ [])) == 2) ≡ true =
        (==_iff (length (hex_encode (b ∷ []))) 2).1 (omega (arith, length-hex_encode (b ∷ []))) in
      rw (e, hex_decode-encode (b ∷ []) (h, tt)) refl

  pub binary-Writes : (sub : ℕ) (raw : Bytes) → sub < 256 → Writes (Bson.binary sub raw)
  unfolding value_of payload value_element extended_one bytes_eq parse_binary_extended get_field
  binary-Writes sub raw h d =
      rw (base64_decode-encode raw, parse_hex_byte-encode sub h, value_element) refl

  pub regex-Writes : (p o : Bytes) → Writes (Bson.regex p o)
  unfolding value_of payload value_element extended_one bytes_eq regex_payload get_field
  regex-Writes p o d = refl

  int64_field_found :
      (key : Bytes) (fs : Fields) (v : ℕ)
      → get_field key fs ≡ some (Value.float (lib.of_int64 v))
      → IsSafe v
      → int64_field lib key fs ≡ v
  unfolding int64_field
  int64_field_found key fs v found h = rw (found, int64_field, to_int64-float v h) refl

  timestamp_payload_lem :
      (t i : ℕ)
      → t < 4294967296
      → i < 4294967296
      → timestamp_payload lib
          (two Names.t (Value.float (lib.of_int64 t)) Names.i (Value.float (lib.of_int64 i)))
        ≡ some (append_int64 (t * 4294967296 + i))
  unfolding timestamp_payload get_field bytes_eq
  timestamp_payload_lem t i ht hi =
      let fs =
        field Names.t (Value.float (lib.of_int64 t))
          (field Names.i (Value.float (lib.of_int64 i)) no_fields) in
      let small : (t * 4294967296) % 18446744073709551616 ≡ t * 4294967296 = omega arith in
      let low : i % 4294967296 ≡ i = omega arith in
      rw
        (
          int64_field_found Names.t fs t refl (omega arith, ground arith),
          int64_field_found Names.i fs i refl (omega arith, ground arith),
          small,
          low,
        )
        refl

  pub timestamp-Writes :
      (t i d : ℕ) → IsKept lib d (Bson.timestamp t i) → Writes (Bson.timestamp t i)
  unfolding IsKept value_of payload value_element extended_one bytes_eq
  timestamp-Writes t i d (ht, hi) e = rw (timestamp_payload_lem t i ht hi, value_element) refl

  pub db_pointer-Writes :
      (ns raw : Bytes) → AllBytes raw → length raw ≡ 12 → Writes (Bson.db_pointer ns raw)
  unfolding value_of payload value_element extended_one bytes_eq db_pointer_payload get_field
  db_pointer-Writes ns raw h k d =
      let e : (length raw == 12) ≡ true = (==_iff (length raw) 12).1 k in
      rw (hex_decode-encode raw h, e, value_element) refl

  pub min_key-Writes : Writes Bson.min_key
  unfolding value_of payload value_element extended_one bytes_eq
  min_key-Writes d = refl

  pub max_key-Writes : Writes Bson.max_key
  unfolding value_of payload value_element extended_one bytes_eq
  max_key-Writes d = refl

  pub js-Writes : (s : Bytes) → Writes (Bson.js s)
  unfolding value_of payload value_element extended_one bytes_eq
  js-Writes s d = refl

  pub null-Writes : Writes Bson.null
  unfolding value_of payload value_element
  null-Writes d = refl

  pub bool-Writes : (b : Bool) → Writes (Bson.bool b)
  unfolding value_of payload value_element
  bool-Writes b d = refl

  pub string-Writes : (s : Bytes) → Writes (Bson.string s)
  unfolding value_of payload value_element
  string-Writes s d = refl
