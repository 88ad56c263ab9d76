-- ===== src/Log/Scan/Truncated.antt =====
-- The second loop of scanV2 does not look at the size to truncate the file to.
use mlstore_db.Prelude.{ℕ, ◌≡◌, inl, inr, refl, List, [], ◌∷◌, arith, Result, ok, err, Result-cases}
use mlstore_db.Prelude.Bytes.{Bytes}
use mlstore_db.Log.Extern.{Extern}
use mlstore_db.Log.Scan.{
  Applied, ScanResult, apply_record, apply_records, note_suspect, apply_committed, fates, unborn,
}

module _ (x : Extern) where
  abbrev pub truncate_to : ℕ → Result (ScanResult x) → Result (ScanResult x)
  truncate_to t (ok res) = ok (record res { truncated = t })
  truncate_to t (err e) = err e

  pub truncate_to_twice :
      (s t : ℕ) (r : Result (ScanResult x)) → truncate_to t (truncate_to s r) ≡ truncate_to t r
  truncate_to_twice s t (ok res) = refl
  truncate_to_twice s t (err e) = refl

module _ (x : Extern) (dek : Bytes) where
  apply_record-truncated :
      (r : Applied) (res : ScanResult x) (t : ℕ)
      → apply_record x dek r (record res { truncated = t })
        ≡ truncate_to x t (apply_record x dek r res)
  unfolding apply_record
  apply_record-truncated r res t = ground arith

  note_suspect-truncated :
      (r : Applied) (res : ScanResult x) (t : ℕ)
      → note_suspect x r (record res { truncated = t })
        ≡ record (note_suspect x r res) { truncated = t }
  unfolding note_suspect
  note_suspect-truncated r res t = ground arith

  apply_records-truncated :
      (rs : List Applied) (res : ScanResult x) (t : ℕ)
      → apply_records x dek rs (record res { truncated = t })
        ≡ truncate_to x t (apply_records x dek rs res)
  unfolding apply_records
  apply_records-truncated [] res t = refl
  apply_records-truncated (r ∷ rs) res t =
      rw (note_suspect-truncated r res t, apply_record-truncated r (note_suspect x r res) t)
        (elim (Result-cases (apply_record x dek r (note_suspect x r res))) [
          | inl (e, q) ↦ rw q
          | inr (seen, q) ↦ rw q (apply_records-truncated rs seen t)
        ])

  pub apply_committed-truncated :
      (rs : List Applied) (res : ScanResult x) (t : ℕ)
      → apply_committed x dek rs (record res { truncated = t })
        ≡ truncate_to x t (apply_committed x dek rs res)
  unfolding apply_committed
  apply_committed-truncated rs res t =
      rw (apply_records-truncated rs res t) (elim (Result-cases (apply_records x dek rs res)) [
        | inl (e, q) ↦ rw q
        | inr (seen, q) ↦
            rw q
              (elim (Result-cases (fates unborn rs)) [ inl (e, q') ↦ rw q' | inr (m, q') ↦ rw q' ])
      ])
