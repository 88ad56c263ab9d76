-- ===== src/Wire/Bson/Tests.antt =====
-- The theorems on BSON at a document with an array, a scope and an id, with numbers that stand for
-- themselves in place of float64.
use mlstore_db.Prelude.{◌≡◌, ◌⊎◌, refl, true, false, some, [], ◌∷◌, arith}
use mlstore_db.Prelude.Bytes.{bytes_eq}
use mlstore_db.Wire.Bson.Text.{itoa, digits, contains_nul, format_int}
use mlstore_db.Wire.Bson.{GoLib, Fields, strings, array, string, item, no_items, put_field}
use mlstore_db.Wire.Bson.Reader.{
  got, invalid, decode_bson, read_leaf, read_value, read_length, read_int32, read_int64,
  read_string, read_cstring, read_byte, check_end, bson_type,
}
use mlstore_db.Wire.Bson.Writer.{encode_bson, value_element, string_items, framed, fits_int32}
use mlstore_db.Wire.Bson.Format.{
  Bson, Members, no_members, member, no_elements, element, member_bytes, fields_of, Lawful, is_safe,
}
use mlstore_db.Wire.Bson.Total.{decode_total}
use mlstore_db.Wire.Bson.Roundtrip.{old_binary_lem}

abbrev integers : GoLib
integers = record {
  is_nan = λ f. false;
  is_inf = λ f. false;
  equals_trunc = is_safe;
  in_int32 = fits_int32;
  in_safe = is_safe;
  to_int64 = λ f. f;
  of_int64 = λ v. v;
  base64_encode = λ b. b;
  base64_decode = λ b. some b;
  parse_time = λ b. some 0;
}

integers-Lawful : Lawful integers
integers-Lawful = record {
  nan_of = λ v h. refl;
  inf_of = λ v h. refl;
  trunc_of = λ v h. h.1;
  to-of_int64 = λ v h. refl;
  int32_of = λ v h. refl;
  safe_of = λ v h. h.1;
  base64_decode-encode = λ b. refl;
}

-- {"a": 7, "b": [true, {"c": null}], "d": code with a scope, "e": 2^60}
abbrev sample : Members
sample = member (97 ∷ []) (Bson.int32 7) (
    member (98 ∷ [])
      (Bson.array (
        element (Bson.bool true)
          (element (Bson.document (member (99 ∷ []) Bson.null no_members)) no_elements)))
      (member (100 ∷ []) (Bson.js_scope (120 ∷ []) (member (97 ∷ []) Bson.null no_members))
        (member (101 ∷ []) (Bson.int64 1152921504606846976) no_members)))

decode_total_example :
    (decode_bson integers (5 ∷ 0 ∷ 0 ∷ []) ≡ invalid)
    ⊎ ((fs : Fields) × (decode_bson integers (5 ∷ 0 ∷ 0 ∷ []) ≡ got fs))
decode_total_example = decode_total integers (5 ∷ 0 ∷ 0 ∷ [])

abbrev old_binary : Members
old_binary = member (98 ∷ []) (Bson.binary 2 (1 ∷ [])) no_members

old_binary_lem_example :
    (encode_bson integers (fields_of integers old_binary) ≡ some (framed (member_bytes old_binary)))
    × (decode_bson integers (framed (member_bytes old_binary)) ≡ invalid)
unfolding contains_nul
old_binary_lem_example =
    old_binary_lem integers integers-Lawful (98 ∷ []) (1 ∷ []) refl (omega arith) (omega arith)

-- A []string is written as an array of its strings.
strings_written :
    value_element integers (strings ((97 ∷ []) ∷ (98 ∷ []) ∷ [])) 0
    ≡ value_element integers (array (item (string (97 ∷ [])) (item (string (98 ∷ [])) no_items))) 0
unfolding value_element string_items
strings_written = refl

-- The sample decodes to itself.
sample_runs : decode_bson integers (framed (member_bytes sample)) ≡ got (fields_of integers sample)
unfolding decode_bson member_bytes fields_of read_value read_leaf read_length read_int32 read_int64
    read_string read_cstring read_byte put_field check_end bson_type itoa digits bytes_eq format_int
sample_runs = refl
