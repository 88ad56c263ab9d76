-- ===== src/Wire/Bson/Steps.antt =====
-- One step of the reader of wire/bson.go over the bytes that the format gives, from what it calls.
use mlstore_db.Prelude.{
  ℕ, suc, ◌+◌, ◌-◌, ◌≤◌, ◌<◌, ◌≡◌, refl, true, false, none, List, [], ◌∷◌, ◌++◌, arith, ◌==◌,
  ==_iff, length, length-append, le→not-ltb, append_assoc,
}
use mlstore_db.Prelude.Bytes.{Bytes, bytes_eq, bytes_eq_iff}
use mlstore_db.Prelude.Strings.{str_less, str_less_irrefl, AllAbove}
use mlstore_db.Wire.Bson.{
  Value, Fields, no_fields, field, Items, no_items, item, GoLib, BsonType, type_byte, get_field,
  put_field, max_bson_depth,
}
use mlstore_db.Wire.Bson.Text.{contains_nul}
use mlstore_db.Wire.Bson.Reader.{
  got, invalid, two, read_value, read_document, read_fields, read_array, read_items, read_length,
  check_end, int32_below, bson_type,
}
use mlstore_db.Wire.Bson.Writer.{append_element, append_string, framed}
use mlstore_db.Wire.Bson.Parts.{read_int32-put, read_cstring-append, read_string-append}
use mlstore_db.Wire.Bson.Writes.{length-framed}
use mlstore_db.Wire.Bson.Names

-- A document behind another one.
unfoldable pub join : Fields → Fields → Fields
join no_fields gs = gs
join (field k v fs) gs = field k v (join fs gs)

pub join_end : (fs : Fields) → join fs no_fields ≡ fs
unfolding join
join_end no_fields = refl
join_end (field k v fs) = rw (join_end fs) refl

pub join_field :
    (fs gs : Fields) (k : Bytes) (v : Value)
    → join (join fs (field k v no_fields)) gs ≡ join fs (field k v gs)
unfolding join
join_field no_fields gs k v = refl
join_field (field l w fs) gs k v = rw (join_field fs gs k v) refl

pub put_new :
    (k : Bytes) (v : Value) (fs : Fields)
    → get_field k fs ≡ none
    → put_field k v fs ≡ join fs (field k v no_fields)
unfolding get_field put_field join
put_new k v no_fields h = refl
put_new k v (field l w fs) h = ground (arith, put_new k v fs)

pub get-join_field :
    (k l : Bytes) (v : Value) (fs : Fields)
    → get_field l fs ≡ none
    → bytes_eq k l ≡ false
    → get_field l (join fs (field k v no_fields)) ≡ none
unfolding get_field join
get-join_field k l v no_fields h ne = rw ne refl
get-join_field k l v (field m w fs) h ne = ground (arith, get-join_field k l v fs)

-- None of the keys is in the document.
abbrev pub AllNew : Fields → List Bytes → Type 0
AllNew fs [] = Unit {0}
AllNew fs (k ∷ ks) = (get_field k fs ≡ none) × AllNew fs ks

pub less-ne : (s t : Bytes) → str_less s t ≡ true → bytes_eq s t ≡ false
less-ne s t h = ground (arith, bytes_eq_iff s t, str_less_irrefl s)

pub AllNew-join_field :
    (k : Bytes) (v : Value) (fs : Fields) (ks : List Bytes)
    → AllNew fs ks
    → AllAbove k ks
    → AllNew (join fs (field k v no_fields)) ks
AllNew-join_field k v fs [] h a = tt
AllNew-join_field k v fs (l ∷ ks) h a =
    (get-join_field k l v fs h.0 (less-ne k l a.0), AllNew-join_field k v fs ks h.1 a.1)

pub AllNew-no_fields : (ks : List Bytes) → AllNew no_fields ks
unfolding get_field
AllNew-no_fields [] = tt
AllNew-no_fields (k ∷ ks) = (refl, AllNew-no_fields ks)

pub type_byte_nonzero : (ty : BsonType) → (type_byte ty == 0) ≡ false
type_byte_nonzero BsonType.double_type = refl
type_byte_nonzero _ = refl

pub read_length-framed :
    (d : ℕ) (b r : Bytes)
    → d ≤ max_bson_depth
    → length b + 5 < 2147483648
    → read_length d (framed b ++ r) ≡ got (length b + 5, (b ++ 0 ∷ []) ++ r)
unfolding read_length
read_length-framed d b r shallow small =
    let n = length b + 5 in
    let low : int32_below n 5 ≡ false = ground arith in
    rw
      (
        le→not-ltb max_bson_depth d shallow,
        read_int32-put n ((b ++ 0 ∷ []) ++ r) (omega arith),
        low,
        le→not-ltb (length (framed b ++ r)) n
            (omega (arith, length-append (framed b) r, length-framed b)),
      )
      refl

pub check_end-framed {ℓ} :
    {A : Type ℓ} (a : A) (b r : Bytes)
    → check_end (framed b ++ r) (length b + 5) (a, r) ≡ got (a, r)
unfolding check_end
check_end-framed a b r =
    let e : (length (framed b ++ r) - length r == length b + 5) ≡ true =
      (==_iff (length (framed b ++ r) - length r) (length b + 5)).1
        (omega (arith, length-append (framed b) r, length-framed b)) in
    rw e refl

pub regroup : (a b c r : Bytes) → ((a ++ b) ++ c) ++ r ≡ a ++ ((b ++ c) ++ r)
regroup a b c r = simp append_assoc

module _ (lib : GoLib) where
  pub document_step :
      (f d : ℕ) (b r : Bytes) (fs : Fields)
      → d ≤ max_bson_depth
      → length b + 5 < 2147483648
      → read_fields lib f d no_fields ((b ++ 0 ∷ []) ++ r) ≡ got (fs, r)
      → read_document lib (suc f) d (framed b ++ r) ≡ got (fs, r)
  unfolding read_document
  document_step f d b r fs shallow small inside =
      rw (read_length-framed d b r shallow small, inside, check_end-framed fs b r) refl

  pub array_step :
      (f d : ℕ) (b r : Bytes) (vs : Items)
      → d ≤ max_bson_depth
      → length b + 5 < 2147483648
      → read_items lib f d ((b ++ 0 ∷ []) ++ r) ≡ got (vs, r)
      → read_array lib (suc f) d (framed b ++ r) ≡ got (vs, r)
  unfolding read_array
  array_step f d b r vs shallow small inside =
      rw (read_length-framed d b r shallow small, inside, check_end-framed vs b r) refl

  pub field_step :
      (f d : ℕ) (fs : Fields) (k p r : Bytes) (ty : BsonType) (v : Value)
      → contains_nul k ≡ false
      → read_value lib f (type_byte ty) d (p ++ r) ≡ got (v, r)
      → read_fields lib (suc f) d fs (append_element k (ty, p) ++ r)
        ≡ read_fields lib f d (put_field k v fs) r
  unfolding read_fields
  field_step f d fs k p r ty v nul here =
      rw (append_assoc k (0 ∷ p) r)
        (rw (type_byte_nonzero ty, read_fields, read_cstring-append k (p ++ r) nul, here) refl)

  -- An error inside is the error of the whole.
  pub document_refused :
      (f d : ℕ) (b r : Bytes)
      → d ≤ max_bson_depth
      → length b + 5 < 2147483648
      → read_fields lib f d no_fields ((b ++ 0 ∷ []) ++ r) ≡ invalid
      → read_document lib (suc f) d (framed b ++ r) ≡ invalid
  unfolding read_document
  document_refused f d b r shallow small inside =
      rw (read_length-framed d b r shallow small, inside) refl

  pub field_refused :
      (f d : ℕ) (fs : Fields) (k p r : Bytes) (ty : BsonType)
      → contains_nul k ≡ false
      → read_value lib f (type_byte ty) d (p ++ r) ≡ invalid
      → read_fields lib (suc f) d fs (append_element k (ty, p) ++ r) ≡ invalid
  unfolding read_fields
  field_refused f d fs k p r ty nul here =
      rw (append_assoc k (0 ∷ p) r)
        (rw (type_byte_nonzero ty, read_fields, read_cstring-append k (p ++ r) nul, here) refl)

  pub item_step :
      (f d : ℕ) (k p r r' : Bytes) (ty : BsonType) (v : Value) (vs : Items)
      → contains_nul k ≡ false
      → read_value lib f (type_byte ty) d (p ++ r) ≡ got (v, r)
      → read_items lib f d r ≡ got (vs, r')
      → read_items lib (suc f) d (append_element k (ty, p) ++ r) ≡ got (item v vs, r')
  unfolding read_items
  item_step f d k p r r' ty v vs nul here rest =
      rw (append_assoc k (0 ∷ p) r)
        (rw (type_byte_nonzero ty, read_items, read_cstring-append k (p ++ r) nul, here, rest) refl)

  pub scope_step :
      (f d : ℕ) (s b r : Bytes) (fs : Fields)
      → length s < 2147483647
      → read_document lib f (d + 1) (framed b ++ r) ≡ got (fs, r)
      → read_value lib (suc f) 0x0F d ((append_string s ++ framed b) ++ r)
        ≡ got (two Names.code (Value.string s) Names.scope (Value.document fs), r)
  unfolding read_value bson_type
  scope_step f d s b r fs short inside =
      rw
        (
          append_assoc (append_string s) (framed b) r,
          read_string-append s (framed b ++ r) short,
          inside,
        )
        refl

  pub document_value :
      (f d : ℕ) (b : Bytes) (fs : Fields) (r : Bytes)
      → read_document lib f (d + 1) b ≡ got (fs, r)
      → read_value lib (suc f) 0x03 d b ≡ got (Value.document fs, r)
  unfolding read_value bson_type
  document_value f d b fs r inside = rw inside refl

  pub array_value :
      (f d : ℕ) (b : Bytes) (vs : Items) (r : Bytes)
      → read_array lib f (d + 1) b ≡ got (vs, r)
      → read_value lib (suc f) 0x04 d b ≡ got (Value.array vs, r)
  unfolding read_value bson_type
  array_value f d b vs r inside = rw inside refl

  pub fields_end :
      (f d : ℕ) (fs : Fields) (r : Bytes) → read_fields lib (suc f) d fs (0 ∷ r) ≡ got (fs, r)
  unfolding read_fields
  fields_end f d fs r = refl

  pub items_end : (f d : ℕ) (r : Bytes) → read_items lib (suc f) d (0 ∷ r) ≡ got (no_items, r)
  unfolding read_items
  items_end f d r = refl
