-- ===== src/Wire/Bson/Roundtrip.antt =====
-- encodeBSON and decodeBSON of wire/bson.go against each other.
use mlstore_db.Prelude.{
  ℕ, ◌+◌, ◌<◌, ◌≡◌, refl, false, suc, some, [], ◌∷◌, ◌++◌, arith, lt→ltb, length, append-nil,
}
use mlstore_db.Prelude.Bytes.{Bytes}
use mlstore_db.Wire.Bson.{no_fields, GoLib, binary_type, type_byte}
use mlstore_db.Wire.Bson.Reader.{
  invalid, decode_bson, read_document, read_fields, read_value, bson_type, read_leaf, read_byte,
  inner_binary, int32_below,
}
use mlstore_db.Wire.Bson.Writer.{append_element, encode_bson, framed}
use mlstore_db.Wire.Bson.Format.{
  Bson, no_members, member, payload, member_bytes, value_of, fields_of, Lawful,
}
use mlstore_db.Wire.Bson.Parts.{read_int32-put, read_raw-append}
use mlstore_db.Wire.Bson.Leaves.{binary-Writes}
use mlstore_db.Wire.Bson.Writes.{
  document_of-pairs_of, length-framed, length-append_element, pairs_of, write_field,
  write_no_fields,
}
use mlstore_db.Wire.Bson.Text.{contains_nul}
use mlstore_db.Wire.Bson.Steps.{document_refused, field_refused, regroup}

decode_refused :
    (lib : GoLib) (b : Bytes)
    → read_document lib (suc (length b + 1)) 0 (b ++ []) ≡ invalid
    → decode_bson lib b ≡ invalid
unfolding decode_bson
decode_refused lib b h =
    let fuel : length b + 2 ≡ suc (length b + 1) = omega arith in rw (fuel, rw append-nil at h) refl

module _ (lib : GoLib) (laws : Lawful lib) where
  old_size :
      (key raw : Bytes)
      → length (framed (member_bytes (member key (Bson.binary 2 raw) no_members)))
        ≡ length key + length raw + 12
  unfolding member_bytes payload
  old_size key raw =
      let x = Bson.binary 2 raw in
      omega (
        arith,
        length-framed (member_bytes (member key x no_members)),
        length-append_element key x [],
      )

  old_written :
      (key raw : Bytes)
      → contains_nul key ≡ false
      → length key < 2147483600
      → length raw < 4
      → encode_bson lib (fields_of lib (member key (Bson.binary 2 raw) no_members))
        ≡ some (framed (member_bytes (member key (Bson.binary 2 raw) no_members)))
  unfolding encode_bson fields_of pairs_of
  old_written key raw nul small short =
      let x = Bson.binary 2 raw in
      let written =
        write_field lib key (value_of lib x) no_fields 0 (binary_type, payload x) [] nul
          (binary-Writes lib laws 2 raw (omega arith) 0) (write_no_fields lib 0) in
      rw written (
        document_of-pairs_of 0 (member key x no_members) (omega arith) (tt, tt)
          (omega (arith, old_size key raw)))

  old_leaf :
      (raw r : Bytes)
      → length raw < 4
      → read_leaf lib binary_type (payload (Bson.binary 2 raw) ++ r) ≡ invalid
  unfolding read_leaf payload read_byte inner_binary
  old_leaf raw r short =
      let low : int32_below (length raw) 0 ≡ false = ground arith in
      rw
        (
          read_int32-put (length raw) (2 ∷ (raw ++ r)) (omega arith),
          low,
          read_raw-append (length raw) raw r refl,
          lt→ltb (length raw) 4 short,
        )
        refl

  old_value :
      (raw r : Bytes) (f : ℕ)
      → length raw < 4
      → read_value lib (suc f) (type_byte binary_type) 0 (payload (Bson.binary 2 raw) ++ r)
        ≡ invalid
  unfolding read_value bson_type
  old_value raw r f short = old_leaf raw r short

  old_refused :
      (key raw : Bytes)
      → contains_nul key ≡ false
      → length raw < 4
      → length key < 2147483600
      → decode_bson lib (framed (member_bytes (member key (Bson.binary 2 raw) no_members)))
        ≡ invalid
  unfolding member_bytes
  old_refused key raw nul short small =
      let x = Bson.binary 2 raw in
      let b = member_bytes (member key x no_members) in
      let size = old_size key raw in
      let fuel : length (framed b) + 1 ≡ suc (suc (length key + length raw + 11)) =
        omega (arith, size) in
      let inside : read_fields lib (length (framed b) + 1) 0 no_fields ((b ++ 0 ∷ []) ++ [])
          ≡ invalid =
        rw (fuel, regroup (append_element key (binary_type, payload x)) [] (0 ∷ []) [])
          (field_refused lib (suc (length key + length raw + 11)) 0 no_fields key (payload x)
            (0 ∷ []) binary_type nul
            (old_value raw (0 ∷ []) (length key + length raw + 11) short)) in
      decode_refused lib (framed b) (
        document_refused lib (length (framed b) + 1) 0 b [] (omega arith)
          (omega (arith, size, length-framed b)) inside)

  -- With lawful libraries, a document of one binary of the old subtype 2 and less than four bytes,
  -- under a key without a NUL and of less than 2147483600 bytes, is encoded, without the inner
  -- length of the binary; decodeBSON refuses that encoding.
  pub old_binary_lem :
      (key raw : Bytes)
      → contains_nul key ≡ false
      → length raw < 4
      → length key < 2147483600
      → (encode_bson lib (fields_of lib (member key (Bson.binary 2 raw) no_members))
          ≡ some (framed (member_bytes (member key (Bson.binary 2 raw) no_members))))
        × (decode_bson lib (framed (member_bytes (member key (Bson.binary 2 raw) no_members)))
            ≡ invalid)
  old_binary_lem key raw nul short small =
      (old_written key raw nul small short, old_refused key raw nul short small)
