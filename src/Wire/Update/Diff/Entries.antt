-- ===== src/Wire/Update/Diff/Entries.antt =====
-- The entries of the difference, and of the document that it is applied to.
use mlstore_db.Prelude.{
  ◌≡◌, inl, inr, refl, Bool, true, false, not, ◌&&◌, ◌||◌, Option, none, some, List, [], ◌∷◌, arith,
  if◌then◌else◌, Bool-cases, Option-cases,
}
use mlstore_db.Prelude.Bytes.{Bytes, bytes_eq, bytes_eq_iff}
use mlstore_db.Prelude.Maps.{contains}
use mlstore_db.Wire.Bson.{Value, Fields, no_fields, field, get_field}
use mlstore_db.Wire.Update.{FloatOps}
use mlstore_db.Wire.Update.Keys
use mlstore_db.Wire.Update.Paths.{get_field-put_field, get_field-drop_field}
use mlstore_db.Wire.Update.Diff.{diff_remove, patch_all, remove_all, IsMap, unchanged, diff_patch}

module _ (ops : FloatOps) where
  pub patch_get_absent :
      (old fresh : Fields) (j : Bytes)
      → get_field j fresh ≡ none
      → get_field j (diff_patch ops old fresh) ≡ none
  unfolding diff_patch get_field
  patch_get_absent old no_fields j h = refl
  patch_get_absent old (field k v fresh) j h = ground (arith, patch_get_absent old fresh j)

  pub patch_get :
      (old fresh : Fields) (j : Bytes) (v : Value)
      → IsMap fresh
      → bytes_eq j Keys.id_key ≡ false
      → get_field j fresh ≡ some v
      → get_field j (diff_patch ops old fresh)
        ≡ (if unchanged ops (get_field j old) v then none else some v)
  unfolding diff_patch get_field
  patch_get old no_fields j v m h e = absurd (ground (arith, e))
  patch_get old (field k w fresh) j v m h e = elim (Bool-cases (bytes_eq k j)) [
    | inl same ↦
        let here = (bytes_eq_iff k j).0 same in
        let absent = patch_get_absent old fresh j (rw here at m.0) in
        let value : w ≡ v = ground (arith, same, e) in
        let skip : (bytes_eq k Keys.id_key || unchanged ops (get_field k old) w)
            ≡ unchanged ops (get_field j old) v =
          rw (here, value, h) refl in
        elim (Bool-cases (unchanged ops (get_field j old) v)) [
          | inl kept ↦ ground (arith, skip, kept, absent)
          | inr new ↦ ground (arith, skip, new, same, value)
        ]
    | inr other ↦
        let later = patch_get old fresh j v m.1 h (ground (arith, other, e)) in
        elim (Bool-cases (bytes_eq k Keys.id_key || unchanged ops (get_field k old) w)) [
          | inl skip ↦ ground (arith, skip, later)
          | inr put ↦ ground (arith, put, other, later)
        ]
  ]

pub get-patch_all :
    (patch next : Fields) (j : Bytes)
    → bytes_eq j Keys.id_key ≡ false
    → get_field j (patch_all patch next) ≡ elim (get_field j patch) as (λ o. Option Value) [
      | none ↦ get_field j next
      | some v ↦ some v
    ]
unfolding patch_all get_field
get-patch_all no_fields next j h = refl
get-patch_all (field k v patch) next j h = elim (Bool-cases (bytes_eq k j)) [
  | inl same ↦
      let here = (bytes_eq_iff k j).0 same in
      let named : bytes_eq k Keys.id_key ≡ false = rw here h in
      rw (same, named, patch_all, get_field-put_field k j v (patch_all patch next), same) refl
  | inr other ↦ elim (Bool-cases (bytes_eq k Keys.id_key)) [
    | inl id ↦ rw (other, id, patch_all) (get-patch_all patch next j h)
    | inr named ↦
        rw (other, named, patch_all, get_field-put_field k j v (patch_all patch next), other)
          (get-patch_all patch next j h)
  ]
]

pub get-remove_all :
    (ks : List Bytes) (next : Fields) (j : Bytes)
    → get_field j (remove_all ks next) ≡ (if contains ks j then none else get_field j next)
unfolding remove_all contains
get-remove_all [] next j = refl
get-remove_all (k ∷ ks) next j =
    ground (arith, get_field-drop_field k j (remove_all ks next), get-remove_all ks next j)

abbrev pub is_absent : Option Value → Bool
is_absent none = true
is_absent (some v) = false

pub removed_lem :
    (old fresh : Fields) (j : Bytes)
    → contains (diff_remove old fresh) j ≡ (
        not (bytes_eq j Keys.id_key)
        && (not (is_absent (get_field j old)) && is_absent (get_field j fresh)))
unfolding diff_remove get_field contains
removed_lem no_fields fresh j = ground arith
removed_lem (field k v old) fresh j = elim (Bool-cases (bytes_eq k j)) [
  | inl same ↦
      let here = (bytes_eq_iff k j).0 same in
      let rest = removed_lem old fresh j in
      rw here (elim (Bool-cases (bytes_eq j Keys.id_key)) [
        | inl id ↦ ground (arith, id, rest)
        | inr named ↦ elim (Option-cases (get_field j fresh)) [
          | inl gone ↦ ground (arith, named, gone, bytes_eq_iff j j)
          | inr (w, there) ↦ ground (arith, named, there, rest, bytes_eq_iff j j)
        ]
      ])
  | inr other ↦
      let rest = removed_lem old fresh j in
      elim (Bool-cases (bytes_eq k Keys.id_key)) [
        | inl id ↦ ground (arith, id, other, rest)
        | inr named ↦ elim (Option-cases (get_field k fresh)) [
          | inl gone ↦ ground (arith, named, gone, other, rest)
          | inr (w, there) ↦ ground (arith, named, there, other, rest)
        ]
      ]
]

pub id-patch_all :
    (patch next : Fields)
    → get_field Keys.id_key (patch_all patch next) ≡ get_field Keys.id_key next
unfolding patch_all
id-patch_all no_fields next = refl
id-patch_all (field k v patch) next = elim (Bool-cases (bytes_eq k Keys.id_key)) [
  | inl id ↦ rw (id, patch_all) (id-patch_all patch next)
  | inr named ↦
      rw (named, patch_all, get_field-put_field k Keys.id_key v (patch_all patch next), named)
        (id-patch_all patch next)
]
