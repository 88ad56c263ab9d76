-- ===== src/Wire/Bson/Reads.antt =====
-- The reader of wire/bson.go gets whole documents back.
use mlstore_db.Prelude.{
  ℕ, zero, suc, ◌+◌, ◌≤◌, ◌<◌, ◌≡◌, ◌∙◌, [], ◌∷◌, ◌++◌, arith, length, length-append,
}
use mlstore_db.Prelude.Bytes.{Bytes}
use mlstore_db.Prelude.Strings.{Ascending}
use mlstore_db.Wire.Bson.{Fields, no_fields, field, GoLib, type_byte}
use mlstore_db.Wire.Bson.Text.{itoa, contains_nul-itoa}
use mlstore_db.Wire.Bson.Reader.{got, read_value, read_fields, read_items}
use mlstore_db.Wire.Bson.Writer.{append_element, append_string, framed}
use mlstore_db.Wire.Bson.Format.{
  Bson, Members, no_members, member, Elements, no_elements, element, type_of, payload, member_bytes,
  element_bytes, keys_of, value_of, fields_of, items_of, IsKept, AllKept, EachKept,
}
use mlstore_db.Wire.Bson.Parts.{
  null-Reads, min_key-Reads, max_key-Reads, bool-Reads, double-Reads, int32-Reads, int64-Reads,
  datetime-Reads, string-Reads, js-Reads, object_id-Reads, decimal128-Reads, binary-Reads,
  regex-Reads, timestamp-Reads, db_pointer-Reads,
}
use mlstore_db.Wire.Bson.Writes.{length-framed, length-append_element}
use mlstore_db.Wire.Bson.Steps.{
  join, join_end, join_field, put_new, AllNew, AllNew-join_field, AllNew-no_fields, regroup,
  document_step, array_step, field_step, item_step, scope_step, document_value, array_value,
  fields_end, items_end,
}

module _ (lib : GoLib) where
  mutual
    unfolding value_of payload IsKept join

    pub element-Reads :
        (x : Bson) (f d : ℕ) (r : Bytes)
        → IsKept lib d x
        → length (payload x) < 2147483648
        → length (payload x) + 1 ≤ f
        → read_value lib (suc f) (type_byte (type_of x)) d (payload x ++ r)
          ≡ got (value_of lib x, r)
    element-Reads Bson.null f d r h small fuel = null-Reads lib f d r
    element-Reads Bson.min_key f d r h small fuel = min_key-Reads lib f d r
    element-Reads Bson.max_key f d r h small fuel = max_key-Reads lib f d r
    element-Reads (Bson.bool b) f d r h small fuel = bool-Reads lib b f d r
    element-Reads (Bson.double w) f d r h small fuel = double-Reads lib w h.0 f d r
    element-Reads (Bson.int32 w) f d r h small fuel = int32-Reads lib w h f d r
    element-Reads (Bson.int64 w) f d r h small fuel = int64-Reads lib w h.0 f d r
    element-Reads (Bson.datetime w) f d r h small fuel = datetime-Reads lib w h.0 f d r
    element-Reads (Bson.string s) f d r h small fuel =
        string-Reads lib s (omega (arith, length-append s (0 ∷ []))) f d r
    element-Reads (Bson.js s) f d r h small fuel =
        js-Reads lib s (omega (arith, length-append s (0 ∷ []))) f d r
    element-Reads (Bson.object_id raw) f d r h small fuel = object_id-Reads lib raw h.1 f d r
    element-Reads (Bson.decimal128 raw) f d r h small fuel = decimal128-Reads lib raw h.1 f d r
    element-Reads (Bson.binary sub raw) f d r h small fuel =
        binary-Reads lib sub raw h.1 (omega arith) f d r
    element-Reads (Bson.regex p o) f d r h small fuel = regex-Reads lib p o h.0 h.1 f d r
    element-Reads (Bson.timestamp t i) f d r h small fuel = timestamp-Reads lib t i h.0 h.1 f d r
    element-Reads (Bson.db_pointer ns raw) f d r h small fuel =
        db_pointer-Reads lib ns raw
          (omega (arith, length-append (append_string ns) raw, length-append ns (0 ∷ []))) h.1 f d r
    element-Reads (Bson.js_scope s ms) zero d r h small fuel = absurd (omega arith)
    element-Reads (Bson.js_scope s ms) (suc f) d r (shallow, (asc, kept)) small fuel =
        let size = length-append (append_string s) (framed (member_bytes ms)) in
        let text = length-append s (0 ∷ []) in
        let frame = length-framed (member_bytes ms) in
        scope_step lib (suc f) d s (member_bytes ms) r (fields_of lib ms)
          (omega (arith, size, text))
          (document_step lib f (d + 1) (member_bytes ms) r (fields_of lib ms) (omega arith)
            (omega (arith, size, frame))
            (fields-Reads ms f (d + 1) no_fields r kept asc (AllNew-no_fields (keys_of ms))
              (omega (arith, size, frame)) (omega (arith, size, frame))))
    element-Reads (Bson.document ms) zero d r h small fuel = absurd (omega arith)
    element-Reads (Bson.document ms) (suc f) d r (shallow, (plain, (asc, kept))) small fuel =
        let frame = length-framed (member_bytes ms) in
        document_value lib (suc f) d (framed (member_bytes ms) ++ r) (fields_of lib ms) r (
          document_step lib f (d + 1) (member_bytes ms) r (fields_of lib ms) (omega arith)
            (omega (arith, frame))
            (fields-Reads ms f (d + 1) no_fields r kept asc (AllNew-no_fields (keys_of ms))
              (omega (arith, frame)) (omega (arith, frame))))
    element-Reads (Bson.array es) zero d r h small fuel = absurd (omega arith)
    element-Reads (Bson.array es) (suc f) d r (shallow, kept) small fuel =
        let frame = length-framed (element_bytes 0 es) in
        array_value lib (suc f) d (framed (element_bytes 0 es) ++ r) (items_of lib es) r (
          array_step lib f (d + 1) (element_bytes 0 es) r (items_of lib es) (omega arith)
            (omega (arith, frame))
            (items-Reads es 0 f (d + 1) r kept (omega (arith, frame)) (omega (arith, frame))))

    pub fields-Reads :
        (ms : Members) (f d : ℕ) (fs : Fields) (r : Bytes)
        → AllKept lib d ms
        → Ascending (keys_of ms)
        → AllNew fs (keys_of ms)
        → length (member_bytes ms) < 2147483648
        → length (member_bytes ms) + 1 ≤ f
        → read_fields lib f d fs ((member_bytes ms ++ 0 ∷ []) ++ r)
          ≡ got (join fs (fields_of lib ms), r)
    fields-Reads no_members zero d fs r h asc new small fuel = absurd (omega arith)
    fields-Reads no_members (suc f) d fs r h asc new small fuel =
        rw (join_end fs) (fields_end lib f d fs r)
    fields-Reads (member k x ms) zero d fs r h asc new small fuel = absurd (omega arith)
    fields-Reads (member k x ms) (suc zero) d fs r h asc new small fuel =
        absurd (omega (arith, length-append_element k x (member_bytes ms)))
    fields-Reads (member k x ms) (suc (suc f)) d fs r (nul, (kept, rest)) asc new small fuel =
        let size = length-append_element k x (member_bytes ms) in
        let v = value_of lib x in
        let left = (member_bytes ms ++ 0 ∷ []) ++ r in
        rw (regroup (append_element k (type_of x, payload x)) (member_bytes ms) (0 ∷ []) r) (
          field_step lib (suc f) d fs k (payload x) left (type_of x) v nul
            (element-Reads x f d left kept (omega (arith, size)) (omega (arith, size)))
          ∙ rw (put_new k v fs new.0, ← join_field fs (fields_of lib ms) k v)
              (fields-Reads ms (suc f) d (join fs (field k v no_fields)) r rest asc.1
                (AllNew-join_field k v fs (keys_of ms) new.1 asc.0) (omega (arith, size))
                (omega (arith, size))))

    pub items-Reads :
        (es : Elements) (i f d : ℕ) (r : Bytes)
        → EachKept lib d es
        → length (element_bytes i es) < 2147483648
        → length (element_bytes i es) + 1 ≤ f
        → read_items lib f d ((element_bytes i es ++ 0 ∷ []) ++ r) ≡ got (items_of lib es, r)
    items-Reads no_elements i zero d r h small fuel = absurd (omega arith)
    items-Reads no_elements i (suc f) d r h small fuel = items_end lib f d r
    items-Reads (element x es) i zero d r h small fuel = absurd (omega arith)
    items-Reads (element x es) i (suc zero) d r h small fuel =
        absurd (omega (arith, length-append_element (itoa i) x (element_bytes (i + 1) es)))
    items-Reads (element x es) i (suc (suc f)) d r (kept, rest) small fuel =
        let size = length-append_element (itoa i) x (element_bytes (i + 1) es) in
        let left = (element_bytes (i + 1) es ++ 0 ∷ []) ++ r in
        rw
          (regroup (append_element (itoa i) (type_of x, payload x)) (element_bytes (i + 1) es)
            (0 ∷ []) r)
          (item_step lib (suc f) d (itoa i) (payload x) left r (type_of x) (value_of lib x)
            (items_of lib es) (contains_nul-itoa i)
            (element-Reads x f d left kept (omega (arith, size)) (omega (arith, size)))
            (items-Reads es (i + 1) (suc f) d r rest (omega (arith, size)) (omega (arith, size))))
