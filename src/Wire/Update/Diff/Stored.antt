-- ===== src/Wire/Update/Diff/Stored.antt =====
-- What the store holds after an update.
use mlstore_db.Prelude.{
  ◌≡◌, ◌⊎◌, inl, inr, refl, true, false, not, ◌&&◌, Option, none, some, arith, if◌then◌else◌,
  Bool-cases, Option-cases,
}
use mlstore_db.Prelude.Bytes.{Bytes, bytes_eq, bytes_eq_iff}
use mlstore_db.Wire.Bson.{Value, Fields, get_field}
use mlstore_db.Wire.Update.{FloatOps, deep_equal}
use mlstore_db.Wire.Update.Keys
use mlstore_db.Wire.Update.Diff.{diff_remove, patch_all, remove_all, IsMap, diff_patch}
use mlstore_db.Wire.Update.Diff.Entries.{
  patch_get, patch_get_absent, get-patch_all, get-remove_all, is_absent, removed_lem, id-patch_all,
}

module _ (ops : FloatOps) where
  -- What the store holds after an update from the one document to the other.
  abbrev pub updated : Fields → Fields → Fields
  updated old fresh = remove_all (diff_remove old fresh) (patch_all (diff_patch ops old fresh) old)

  -- The new value, or the old one where deepEqual tells no difference.
  abbrev pub IsUpdated : Option Value → Option Value → Option Value → Type 0
  IsUpdated r old none = r ≡ none
  IsUpdated r old (some v) =
      (r ≡ some v) ⊎ ((w : Value) × (r ≡ some w) × (old ≡ some w) × (deep_equal ops w v ≡ true))

  updated_get :
      (old fresh : Fields) (j : Bytes) (o : Option Value)
      → bytes_eq j Keys.id_key ≡ false
      → get_field j (diff_patch ops old fresh) ≡ o
      → get_field j (updated old fresh) ≡ (
          if not (is_absent (get_field j old)) && is_absent (get_field j fresh)
          then none
          else elim o as (λ _. Option Value) [ none ↦ get_field j old | some v ↦ some v ])
  updated_get old fresh j o h e =
      let patched = rw e at (get-patch_all (diff_patch ops old fresh) old j h) in
      let gone = removed_lem old fresh j in
      let named : not (bytes_eq j Keys.id_key) ≡ true = rw h refl in
      rw
        (
          get-remove_all (diff_remove old fresh) (patch_all (diff_patch ops old fresh) old) j,
          gone,
          named,
          patched,
        )
        refl

  absent_lem :
      (old fresh : Fields) (j : Bytes)
      → bytes_eq j Keys.id_key ≡ false
      → get_field j fresh ≡ none
      → get_field j (updated old fresh) ≡ none
  absent_lem old fresh j h absent =
      let r = updated_get old fresh j none h (patch_get_absent ops old fresh j absent) in
      elim (Option-cases (get_field j old)) [
        | inl never ↦ ground (arith, r, never)
        | inr (w, before) ↦ ground (arith, r, before, absent)
      ]

  present_lem :
      (old fresh : Fields) (j : Bytes) (v : Value)
      → IsMap fresh
      → bytes_eq j Keys.id_key ≡ false
      → get_field j fresh ≡ some v
      → IsUpdated (get_field j (updated old fresh)) (get_field j old) (some v)
  present_lem old fresh j v m h there =
      let p = patch_get ops old fresh j v m h there in
      elim (Option-cases (get_field j old)) [
        | inl never ↦
            let r = updated_get old fresh j (some v) h (ground (arith, p, never)) in
            inl (ground (arith, r, never))
        | inr (w, before) ↦ elim (Bool-cases (deep_equal ops w v)) [
          | inl same ↦
              let r = updated_get old fresh j none h (ground (arith, p, before, same)) in
              inr (w, ground (arith, r, before, there), before, same)
          | inr other ↦
              let r = updated_get old fresh j (some v) h (ground (arith, p, before, other)) in
              inl (ground (arith, r, before, there))
        ]
      ]

  -- The difference that an update sends to the store makes of the old document the new one: its id
  -- stays, every other field that the new document lacks is gone, and every other field that it has
  -- gets its value, but a field keeps the old value if that is deep-equal.
  pub updated_lem :
      (old fresh : Fields)
      → IsMap fresh
      → (get_field Keys.id_key (updated old fresh) ≡ get_field Keys.id_key old)
        × ((j : Bytes)
            → bytes_eq j Keys.id_key ≡ false
            → IsUpdated (get_field j (updated old fresh)) (get_field j old) (get_field j fresh))
  updated_lem old fresh m =
      let patch = diff_patch ops old fresh in
      let removed = diff_remove old fresh in
      (
        ground (
          arith,
          get-remove_all removed (patch_all patch old) Keys.id_key,
          removed_lem old fresh Keys.id_key,
          id-patch_all patch old,
          bytes_eq_iff Keys.id_key Keys.id_key,
        ),
        λ j h. elim (Option-cases (get_field j fresh)) [
          | inl absent ↦ rw absent (absent_lem old fresh j h absent)
          | inr (v, there) ↦ rw there (present_lem old fresh j v m h there)
        ],
      )
