-- ===== src/Log/Scan/Tail.antt =====
-- The end of the walk of scanV2 on what a crash leaves behind the last complete record.
use mlstore_db.Prelude.{
  ℕ, zero, suc, ◌<◌, ◌≡◌, ◌⊎◌, inl, inr, refl, ap, ◌∙◌, some, [], ◌∷◌, length, take, drop, arith,
  length-drop, lt→ltb, le→not-ltb, length-take,
}
use mlstore_db.Prelude.Bytes.{Bytes}
use mlstore_db.Log.Extern.{Extern, Lawful}
use mlstore_db.Log.Record.{Frame, frame_bytes, parse_record_at, torn}
use mlstore_db.Log.Record.Roundtrip.{IsFrame, parse-torn}
use mlstore_db.Log.Scan.{walked, walk, torn_tail}

-- What a crash leaves of the record that was being written: nothing, or a strict prefix of it.
abbrev pub IsTail : Extern → Bytes → Type 0
IsTail x tail =
    (tail ≡ [])
    ⊎ ((g : Frame) × (n : ℕ) × IsFrame g
        × (0 < n)
        × (n < length (frame_bytes x g))
        × (tail ≡ take n (frame_bytes x g)))

abbrev pub trunc_at : Bytes → ℕ → ℕ
trunc_at [] off = 0
trunc_at (b ∷ bs) off = off

module _ (x : Extern) (law : Lawful x) where
  parse_tail :
      (bytes tail : Bytes) (off : ℕ) (g : Frame) (n : ℕ)
      → IsFrame g
      → n < length (frame_bytes x g)
      → tail ≡ take n (frame_bytes x g)
      → drop off bytes ≡ tail
      → parse_record_at x bytes off ≡ torn
  unfolding parse_record_at
  parse_tail bytes tail off g n fits high cut e = rw (e, cut) (parse-torn x law g fits n high)

  pub trunc_at_pos : (tail : Bytes) (off : ℕ) → 0 < length tail → off ≡ trunc_at tail off
  trunc_at_pos [] off h = absurd (omega arith)
  trunc_at_pos (b ∷ bs) off h = refl

  pub walk_tail :
      (bytes tail : Bytes) (fuel off end : ℕ)
      → 0 < fuel
      → IsTail x tail
      → drop off bytes ≡ tail
      → walk x fuel bytes off (some end)
        ≡ walked (record { recs = []; last_commit = some end; truncated = trunc_at tail off })
  unfolding walk torn_tail
  walk_tail bytes tail zero off end pos h e = absurd (omega arith)
  walk_tail bytes tail (suc fuel) off end pos (inl none_left) e = rw (
    le→not-ltb off (length bytes)
        (omega (arith, ap length e, ap length none_left, length-drop off bytes)),
    walk,
    none_left,
  )
  walk_tail bytes tail (suc fuel) off end pos (inr (g, n, fits, low, high, cut)) e =
      let size : length tail ≡ n = ap length cut ∙ length-take n (frame_bytes x g) (omega arith) in
      rw
        (
          lt→ltb off (length bytes) (omega (arith, ap length e, size, length-drop off bytes)),
          parse_tail bytes tail off g n fits high cut e,
          walk,
        )
        (ap (λ t. walked (record { recs = []; last_commit = some end; truncated = t }))
          (trunc_at_pos tail off (omega (arith, size))))
