-- ===== src/Log/Record/Roundtrip.antt =====
-- What the writer of db/filev2.go writes, its reader reads back.
use mlstore_db.Prelude.{
  ℕ, ◌+◌, ◌-◌, Bool-cases, inl, inr, ltb→lt, ◌≤◌, ◌<◌, ◌≡◌, refl, sym, ap, ◌∙◌, List, ◌++◌, length,
  take, drop, ok, arith, append_assoc, length-append, take-append_right, take_at, drop_at,
  length-take, take-append_left, ltb, ==_refl, le→not-ltb, lt→ltb,
}
use mlstore_db.Prelude.Bytes.{Bytes, put_le32, le32, le16, le16-put, le32-put, be16-put}
use mlstore_db.Log.Extern.{Extern, Lawful}
use mlstore_db.Log.Record.{
  Frame, header20, encode_id_blob, decode_id_blob, frame_bytes, parse_record, parsed, torn, byte_at,
}

-- The widths of the header's fields hold the frame.
pub record IsFrame (f : Frame) : Type 0 where
  pub nonce_len : length f.nonce ≡ 12
  pub id_fits : length f.id_blob < 65536
  pub ct_fits : length f.ct < 4294967296

-- A collection name of at most 0xffff bytes and any id come back from the id blob.
pub decode-encode_id_blob :
    (coll id : Bytes)
    → length coll < 65536
    → decode_id_blob (encode_id_blob coll id) ≡ ok (coll, id)
unfolding decode_id_blob encode_id_blob
decode-encode_id_blob coll id h = rw (le→not-ltb 0xffff (length coll) (omega arith)) (
    ground (
      arith,
      be16-put (length coll) h,
      length-append coll id,
      take_at (length coll) coll id refl,
      drop_at (length coll) coll id refl,
    ))

regroup {ℓ} :
    {A : Type ℓ} (h c i t r : List A) → (h ++ (c ++ (i ++ t))) ++ r ≡ (h ++ c) ++ (i ++ (t ++ r))
regroup h c i t r = simp append_assoc

module _ (x : Extern) where
  -- The reader on a header of 24 bytes that agrees with what follows it.
  parse_split :
      (hdr id ct rest : Bytes)
      → length hdr ≡ 24
      → le16 (drop 2 hdr) ≡ length id
      → le32 (drop 4 hdr) ≡ length ct
      → le32 (drop 20 hdr) ≡ x.crc32 (take 20 hdr ++ (id ++ ct))
      → parse_record x (hdr ++ (id ++ (ct ++ rest)))
        ≡ parsed (byte_at 0 hdr) (byte_at 1 hdr) id ct (24 + length id + length ct)
  unfolding parse_record
  parse_split hdr id ct rest h24 hid hct hsum =
      let whole = hdr ++ (id ++ (ct ++ rest)) in
      let long : 24 + length id + length ct ≤ length whole = omega (
        arith,
        length-append hdr (id ++ (ct ++ rest)),
        length-append id (ct ++ rest),
        length-append ct rest,
      ) in
      rw (
        le→not-ltb (length whole) 24 (omega arith),
        take_at 24 hdr (id ++ (ct ++ rest)) h24,
        drop_at 24 hdr (id ++ (ct ++ rest)) h24,
        hid,
        hct,
        take_at (length id) id (ct ++ rest) refl,
        drop_at (length id) id (ct ++ rest) refl,
        take_at (length ct) ct rest refl,
        take-append_left 20 hdr (id ++ (ct ++ rest)) (omega arith),
        le→not-ltb (length whole) (24 + length id + length ct) long,
        hsum,
        ==_refl (x.crc32 (take 20 hdr ++ (id ++ ct))),
      )

  -- The reader on a header of 24 bytes that promises more than what follows it.
  parse_short :
      (hdr rest : Bytes) (a b : ℕ)
      → length hdr ≡ 24
      → le16 (drop 2 hdr) ≡ a
      → le32 (drop 4 hdr) ≡ b
      → length (hdr ++ rest) < 24 + a + b
      → parse_record x (hdr ++ rest) ≡ torn
  unfolding parse_record
  parse_short hdr rest a b h24 ha hb short = rw (
    le→not-ltb (length (hdr ++ rest)) 24 (omega (arith, length-append hdr rest)),
    take_at 24 hdr rest h24,
    ha,
    hb,
    lt→ltb (length (hdr ++ rest)) (24 + a + b) short,
  )

module _ (x : Extern) (law : Lawful x) (f : Frame) (fits : IsFrame f) where
  -- The checksum that the frame carries.
  abbrev pub sum32 : ℕ
  sum32 = x.crc32 (header20 f ++ (f.id_blob ++ f.ct))

  length-header20 : length (header20 f) ≡ 20
  length-header20 = omega (arith, fits.nonce_len)

  length-header24 : length (header20 f ++ put_le32 sum32) ≡ 24
  length-header24 = omega (arith, length-append (header20 f) (put_le32 sum32), length-header20)

  -- With lawful libraries a frame that fits its fields, followed by anything, is read back field
  -- by field, with its size.
  pub parse-frame_bytes :
      (rest : Bytes)
      → parse_record x (frame_bytes x f ++ rest)
        ≡ parsed f.typ f.flags f.id_blob f.ct (24 + length f.id_blob + length f.ct)
  unfolding frame_bytes
  parse-frame_bytes rest = rw (regroup (header20 f) (put_le32 sum32) f.id_blob f.ct rest) (
      parse_split x (header20 f ++ put_le32 sum32) f.id_blob f.ct rest length-header24
        (le16-put (length f.id_blob) fits.id_fits) (le32-put (length f.ct) fits.ct_fits)
        (ap le32 (drop_at 20 (header20 f) (put_le32 sum32) length-header20)
          ∙ le32-put sum32 (law.crc32_lt (header20 f ++ (f.id_blob ++ f.ct)))
          ∙ ap (λ t. x.crc32 (t ++ (f.id_blob ++ f.ct)))
              (sym (take_at 20 (header20 f) (put_le32 sum32) length-header20))))

  pub length-frame_bytes : length (frame_bytes x f) ≡ 24 + length f.id_blob + length f.ct
  unfolding frame_bytes
  length-frame_bytes = omega (
    arith,
    length-append (header20 f) (put_le32 sum32 ++ (f.id_blob ++ f.ct)),
    length-header20,
    length-append f.id_blob f.ct,
  )

  -- data[off+8:off+20] is the nonce.
  pub nonce-frame_bytes : (rest : Bytes) → take 12 (drop 8 (frame_bytes x f ++ rest)) ≡ f.nonce
  unfolding frame_bytes
  nonce-frame_bytes rest =
      let tail = f.id_blob ++ (f.ct ++ rest) in
      ap (λ t. take 12 (drop 8 t)) (regroup (header20 f) (put_le32 sum32) f.id_blob f.ct rest)
      ∙ ap (λ t. take 12 t) (append_assoc f.nonce (put_le32 sum32) tail)
      ∙ take_at 12 f.nonce (put_le32 sum32 ++ tail) fits.nonce_len

  torn_short : (n : ℕ) → n < 24 → parse_record x (take n (frame_bytes x f)) ≡ torn
  unfolding parse_record
  torn_short n h =
      rw (length-take n (frame_bytes x f) (omega (arith, length-frame_bytes)), lt→ltb n 24 h)

  torn_long :
      (n : ℕ)
      → 24 ≤ n
      → n < length (frame_bytes x f)
      → parse_record x (take n (frame_bytes x f)) ≡ torn
  unfolding parse_record frame_bytes
  torn_long n low high =
      let head24 = header20 f ++ put_le32 sum32 in
      let body = f.id_blob ++ f.ct in
      let cut : take n (frame_bytes x f) ≡ head24 ++ take (n - length head24) body =
        ap (take n) (sym (append_assoc (header20 f) (put_le32 sum32) body))
        ∙ take-append_right n head24 body (omega (arith, length-header24)) in
      let size : length (take n (frame_bytes x f)) ≡ n =
        length-take n (frame_bytes x f) (omega arith) in
      rw cut (
        parse_short x head24 (take (n - length head24) body) (length f.id_blob) (length f.ct)
          length-header24 (le16-put (length f.id_blob) fits.id_fits)
          (le32-put (length f.ct) fits.ct_fits)
          (omega (arith, ap length cut, length-frame_bytes, size)))

  -- With lawful libraries a strict prefix of a frame that fits its fields reads as a torn record.
  pub parse-torn :
      (n : ℕ) → n < length (frame_bytes x f) → parse_record x (take n (frame_bytes x f)) ≡ torn
  parse-torn n h = elim (Bool-cases (ltb n 24)) [
    | inl short ↦ torn_short n (ltb→lt n 24 short)
    | inr long ↦ torn_long n (ground arith) h
  ]
