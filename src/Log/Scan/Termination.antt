-- ===== src/Log/Scan/Termination.antt =====
-- The first loop of scanV2 ends: every round passes a record of at least 24 bytes.
use mlstore_db.Prelude.{
  ℕ, zero, suc, ◌+◌, ◌-◌, ◌≤◌, ◌<◌, ◌≡◌, ◌≢◌, ◌⊎◌, refl, drop, Option, none, some, Result, err,
  arith, length, Bool-cases, inl, inr, ltb, ltb→lt,
}
use mlstore_db.Prelude.Bytes.{Byte, Bytes}
use mlstore_db.Log.Extern.{Extern}
use mlstore_db.Log.Record.{Parsed, torn, damaged, parsed, parse_record, parse_record_at}
use mlstore_db.Log.Scan.{
  Applied, Walked, out_of_fuel, refused, walked, with_record, next_commit, torn_tail, walk,
  after_walk, ScanResult, finish, scan_v2, header_size,
}

Parsed-cases :
    (p : Parsed)
    → (p ≡ torn)
      ⊎ ((p ≡ damaged)
          ⊎ ((typ : Byte) × (flags : ℕ) × (id : Bytes) × (ct : Bytes) × (total : ℕ) × (p
                ≡ parsed typ flags id ct total)))
Parsed-cases torn = inl refl
Parsed-cases damaged = inr (inl refl)
Parsed-cases (parsed typ flags id ct total) = inr (inr (typ, flags, id, ct, total, refl))

torn_tail-ne : (off : ℕ) (last : Option ℕ) → torn_tail off last ≢ out_of_fuel
unfolding torn_tail
torn_tail-ne off last = ground arith

module _ (x : Extern) where
  size-parse_record :
      (rest : Bytes) (typ : Byte) (flags : ℕ) (id ct : Bytes) (total : ℕ)
      → parse_record x rest ≡ parsed typ flags id ct total
      → 24 ≤ total
  unfolding parse_record
  size-parse_record rest typ flags id ct total e = ground arith

  size_at :
      (bytes : Bytes) (off : ℕ) (typ : Byte) (flags : ℕ) (id ct : Bytes) (total : ℕ)
      → parse_record_at x bytes off ≡ parsed typ flags id ct total
      → 24 ≤ total
  unfolding parse_record_at
  size_at bytes off = size-parse_record (drop off bytes)

  with_record-ne : (r : Applied) (w : Walked) → w ≢ out_of_fuel → with_record r w ≢ out_of_fuel
  with_record-ne r out_of_fuel h = λ e. h e
  with_record-ne r (refused e) h = h
  with_record-ne r (walked w) h = λ e. cc

  walk-ne :
      (fuel : ℕ) (bytes : Bytes) (off : ℕ) (last : Option ℕ)
      → length bytes - off < fuel
      → walk x fuel bytes off last ≢ out_of_fuel
  unfolding walk
  walk-ne zero bytes off last h = elim h [ ]
  walk-ne (suc fuel) bytes off last h = elim (Bool-cases (ltb off (length bytes))) [
    | inl more ↦
        rw (more, walk)
          (elim (Parsed-cases (parse_record_at x bytes off)) [
            | inl q ↦ rw q (torn_tail-ne off last)
            | inr (inl q) ↦ rw q (λ e. cc)
            | inr (inr (typ, flags, id, ct, total, q)) ↦ rw q (
                with_record-ne _ _ (
                  walk-ne fuel bytes (off + total) (next_commit typ (off + total) last) (
                    omega (
                      arith,
                      ltb→lt off (length bytes) more,
                      size_at bytes off typ flags id ct total q,
                    ))))
          ])
    | inr done ↦ rw (done, walk) (λ e. cc)
  ]

  after_walk-some :
      (dek : Bytes) (w : Walked)
      → w ≢ out_of_fuel
      → (r : Result (ScanResult x)) × (after_walk x dek w ≡ some r)
  unfolding after_walk
  after_walk-some dek out_of_fuel h = absurd (h refl)
  after_walk-some dek (refused e) h = (err e, refl)
  after_walk-some dek (walked w) h = (finish x dek w, refl)

  -- On every file, whatever its bytes and the libraries, the fuel is enough: the scan ends with a
  -- result or an error.
  pub scan_v2_total :
      (bytes dek : Bytes) → (r : Result (ScanResult x)) × (scan_v2 x bytes dek ≡ some r)
  unfolding scan_v2
  scan_v2_total bytes dek =
      after_walk-some dek (walk x (suc (length bytes)) bytes header_size none)
        (walk-ne (suc (length bytes)) bytes header_size none (omega arith))
