-- ===== src/Wire/Bson/Parts.antt =====
-- The reader of wire/bson.go gets back the numbers and strings that the writer wrote, and the values
-- that hold no document of their own.
use mlstore_db.Prelude.{
  ℕ, suc, ◌+◌, ◌-◌, ◌*◌, ◌/◌, ◌%◌, ◌<◌, ◌≡◌, ◌≢◌, refl, Bool, true, false, [], ◌∷◌, ◌++◌, arith,
  ◌==◌, length, take, length-append, take_at, drop_at, append_assoc, le→not-ltb, Bool-cases, inl,
  inr,
}
use mlstore_db.Prelude.Bytes.{Bytes, put_le32}
use mlstore_db.Wire.Bson.{GoLib, type_byte}
use mlstore_db.Wire.Bson.Text.{contains_nul}
use mlstore_db.Wire.Bson.Reader.{
  got, read_raw, read_byte, read_int32, read_int64, read_cstring, read_string, read_leaf,
  read_value, int32_below, inner_binary, bson_type,
}
use mlstore_db.Wire.Bson.Writer.{append_cstring, append_string, append_int64}
use mlstore_db.Wire.Bson.Format.{Bson, payload, type_of, value_of, is_safe}

read_int32-put_mod : (n : ℕ) (r : Bytes) → read_int32 (put_le32 n ++ r) ≡ got (n % 4294967296, r)
unfolding read_int32
read_int32-put_mod n r = ground arith

pub read_int32-put :
    (n : ℕ) (r : Bytes) → n < 4294967296 → read_int32 (put_le32 n ++ r) ≡ got (n, r)
read_int32-put n r h =
    let e : n % 4294967296 ≡ n = omega arith in rw (read_int32-put_mod n r, e) refl

read_int64-append :
    (w : ℕ) (r : Bytes) → w < 18446744073709551616 → read_int64 (append_int64 w ++ r) ≡ got (w, r)
unfolding read_int64
read_int64-append w r h =
    rw
      (read_int32-put_mod w (put_le32 (w / 4294967296) ++ r), read_int32-put_mod (w / 4294967296) r)
      (ground arith)

pub read_cstring-append :
    (s r : Bytes) → contains_nul s ≡ false → read_cstring (s ++ 0 ∷ r) ≡ got (s, r)
unfolding read_cstring contains_nul
read_cstring-append [] r h = refl
read_cstring-append (c ∷ s) r h = ground (arith, read_cstring-append s r)

read_cstring_lem :
    (s r : Bytes) → contains_nul s ≡ false → read_cstring (append_cstring s ++ r) ≡ got (s, r)
read_cstring_lem s r h = rw (append_assoc s (0 ∷ []) r) (read_cstring-append s r h)

pub read_raw-append :
    (n : ℕ) (raw r : Bytes) → length raw ≡ n → read_raw n (raw ++ r) ≡ got (raw, r)
unfolding read_raw
read_raw-append n raw r h =
    rw
      (
        le→not-ltb (length (raw ++ r)) n (omega (arith, length-append raw r)),
        take_at n raw r h,
        drop_at n raw r h,
      )
      refl

pub read_string-append :
    (s r : Bytes) → length s < 2147483647 → read_string (append_string s ++ r) ≡ got (s, r)
unfolding read_string
read_string-append s r h =
    let n = length s + 1 in
    let body = (s ++ 0 ∷ []) ++ r in
    let size = length-append (s ++ 0 ∷ []) r in
    let inner = length-append s (0 ∷ []) in
    let low : int32_below n 1 ≡ false = ground arith in
    let e : n - 1 ≡ length s = omega arith in
    let text : take (n - 1) body ≡ s =
      rw (e, append_assoc s (0 ∷ []) r) (take_at (length s) s (0 ∷ r) refl) in
    rw
      (
        read_int32-put n body (omega arith),
        low,
        le→not-ltb (length body) n (omega (arith, size, inner)),
        text,
        drop_at n (s ++ 0 ∷ []) r (omega (arith, inner)),
      )
      refl

module _ (lib : GoLib) where
  -- A payload of the element is read back, whatever follows it.
  abbrev pub Reads : Bson → Type 0
  Reads x =
      (f d : ℕ) (r : Bytes)
      → read_value lib (suc f) (type_byte (type_of x)) d (payload x ++ r) ≡ got (value_of lib x, r)

  pub null-Reads : Reads Bson.null
  unfolding read_value bson_type payload value_of read_leaf
  null-Reads f d r = refl

  pub min_key-Reads : Reads Bson.min_key
  unfolding read_value bson_type payload value_of read_leaf
  min_key-Reads f d r = refl

  pub max_key-Reads : Reads Bson.max_key
  unfolding read_value bson_type payload value_of read_leaf
  max_key-Reads f d r = refl

  pub bool-Reads : (b : Bool) → Reads (Bson.bool b)
  unfolding read_value bson_type payload value_of read_leaf read_byte
  bool-Reads true f d r = refl
  bool-Reads false f d r = refl

  pub double-Reads : (w : ℕ) → w < 18446744073709551616 → Reads (Bson.double w)
  unfolding read_value bson_type payload value_of read_leaf
  double-Reads w h f d r = rw (read_int64-append w r h) refl

  pub int32-Reads : (w : ℕ) → w < 4294967296 → Reads (Bson.int32 w)
  unfolding read_value bson_type payload value_of read_leaf
  int32-Reads w h f d r = rw (read_int32-put w r h) refl

  pub int64-Reads : (w : ℕ) → w < 18446744073709551616 → Reads (Bson.int64 w)
  unfolding read_value bson_type payload value_of read_leaf
  int64-Reads w h f d r =
      rw (read_int64-append w r h)
        (elim (Bool-cases (is_safe w)) [ inl near ↦ rw near refl | inr out ↦ rw out refl ])

  pub datetime-Reads : (w : ℕ) → w < 18446744073709551616 → Reads (Bson.datetime w)
  unfolding read_value bson_type payload value_of read_leaf
  datetime-Reads w h f d r = rw (read_int64-append w r h) refl

  pub string-Reads : (s : Bytes) → length s < 2147483647 → Reads (Bson.string s)
  unfolding read_value bson_type payload value_of read_leaf
  string-Reads s h f d r = rw (read_string-append s r h) refl

  pub js-Reads : (s : Bytes) → length s < 2147483647 → Reads (Bson.js s)
  unfolding read_value bson_type payload value_of read_leaf
  js-Reads s h f d r = rw (read_string-append s r h) refl

  pub object_id-Reads : (raw : Bytes) → length raw ≡ 12 → Reads (Bson.object_id raw)
  unfolding read_value bson_type payload value_of read_leaf
  object_id-Reads raw h f d r = rw (read_raw-append 12 raw r h) refl

  pub decimal128-Reads : (raw : Bytes) → length raw ≡ 16 → Reads (Bson.decimal128 raw)
  unfolding read_value bson_type payload value_of read_leaf
  decimal128-Reads raw h f d r = rw (read_raw-append 16 raw r h) refl

  pub binary-Reads :
      (sub : ℕ) (raw : Bytes) → sub ≢ 2 → length raw < 2147483648 → Reads (Bson.binary sub raw)
  unfolding read_value bson_type payload value_of read_leaf read_byte inner_binary
  binary-Reads sub raw old h f d r =
      let new : (sub == 2) ≡ false = ground (arith, old) in
      let low : int32_below (length raw) 0 ≡ false = ground arith in
      rw
        (
          read_int32-put (length raw) (sub ∷ (raw ++ r)) (omega arith),
          low,
          read_raw-append (length raw) raw r refl,
          new,
        )
        refl

  pub regex-Reads :
      (p o : Bytes) → contains_nul p ≡ false → contains_nul o ≡ false → Reads (Bson.regex p o)
  unfolding read_value bson_type payload value_of read_leaf
  regex-Reads p o hp ho f d r =
      rw
        (
          append_assoc (append_cstring p) (append_cstring o) r,
          read_cstring_lem p (append_cstring o ++ r) hp,
          read_cstring_lem o r ho,
        )
        refl

  pub timestamp-Reads : (t i : ℕ) → t < 4294967296 → i < 4294967296 → Reads (Bson.timestamp t i)
  unfolding read_value bson_type payload value_of read_leaf
  timestamp-Reads t i ht hi f d r =
      let high : (t * 4294967296 + i) / 4294967296 ≡ t = omega arith in
      let low : (t * 4294967296 + i) % 4294967296 ≡ i = omega arith in
      rw (read_int64-append (t * 4294967296 + i) r (omega arith), high, low) refl

  pub db_pointer-Reads :
      (ns raw : Bytes) → length ns < 2147483647 → length raw ≡ 12 → Reads (Bson.db_pointer ns raw)
  unfolding read_value bson_type payload value_of read_leaf
  db_pointer-Reads ns raw h k f d r =
      rw
        (
          append_assoc (append_string ns) raw r,
          read_string-append ns (raw ++ r) h,
          read_raw-append 12 raw r k,
        )
        refl
