-- ===== src/Log/Record/Payload.antt =====
-- A record that buildRecord made decodes to the plain text that it was made of.
use mlstore_db.Prelude.{◌≡◌, Bool, some, length, ok, arith, Option-cases, inl, inr}
use mlstore_db.Prelude.Bytes.{Byte, Bytes}
use mlstore_db.Log.Extern.{Extern, Lawful}
use mlstore_db.Log.Record.{Frame, build_frame, decode_payload}
use mlstore_db.Log.Record.Roundtrip.{IsFrame}

module _ (x : Extern) (law : Lawful x) (dek : Bytes) (typ : Byte) (id plain nonce : Bytes)
    (suspect : Bool) (f : Frame)
    (built : build_frame x dek typ 0 id plain suspect (some nonce) ≡ some f) where
  -- The frame fits its header's fields.
  pub build-IsFrame :
      length nonce ≡ 12 → IsFrame f × (f.typ ≡ typ) × (f.id_blob ≡ id) × (f.nonce ≡ nonce)
  unfolding build_frame
  build-IsFrame h12 = ground arith

  -- With lawful libraries and flags 0, if buildRecord succeeds, decoding the payload with the
  -- frame's own flags and nonce returns the plain text, compressed or not.
  pub decode-build_frame : decode_payload x dek f.flags f.nonce f.ct ≡ ok plain
  unfolding build_frame decode_payload
  decode-build_frame = elim (Option-cases (x.new_gcm dek)) [
    | inl no_key ↦ elim (Option-cases (x.deflate plain)) [
      | inl no_zip ↦ ground (arith, no_key, no_zip)
      | inr (packed, zip) ↦ ground (arith, no_key, zip, law.length-deflate plain packed zip)
    ]
    | inr (g, key) ↦ elim (Option-cases (x.deflate plain)) [
      | inl no_zip ↦
          ground
            (arith, key, no_zip, law.gcm_open-seal g nonce plain, law.length-gcm_seal g nonce plain)
      | inr (packed, zip) ↦ ground (
        arith,
        key,
        zip,
        law.gcm_open-seal g nonce plain,
        law.length-gcm_seal g nonce plain,
        law.gcm_open-seal g nonce packed,
        law.length-gcm_seal g nonce packed,
        law.inflate-deflate plain packed zip,
        law.length-deflate plain packed zip,
      )
    ]
  ]
