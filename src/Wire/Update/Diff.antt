-- ===== src/Wire/Update/Diff.antt =====
-- wire/update.go: diffTopLevel, and what updateApply of db/store.go makes of its result.
pub mod Entries
pub mod Stored
use mlstore_db.Prelude.{
  ◌≡◌, ◌⊎◌, inl, inr, refl, Bool, true, false, not, ◌&&◌, ◌||◌, Option, none, some, List, [], ◌∷◌,
  arith, if◌then◌else◌, Bool-cases, Option-cases,
}
use mlstore_db.Prelude.Bytes.{Bytes, bytes_eq, bytes_eq_iff}
use mlstore_db.Prelude.Maps.{contains}
use mlstore_db.Wire.Bson.{Value, Fields, no_fields, field, get_field, put_field}
use mlstore_db.Wire.Update.{FloatOps, deep_equal, drop_field}
use mlstore_db.Wire.Update.Keys

-- The removed fields: those of `old` that `fresh` has not.
unfoldable pub diff_remove : Fields → Fields → List Bytes
diff_remove no_fields fresh = []
diff_remove (field k v old) fresh = elim (bytes_eq k Keys.id_key) [
  | true ↦ diff_remove old fresh
  | false ↦ elim (get_field k fresh) [
    | none ↦ k ∷ diff_remove old fresh
    | some w ↦ diff_remove old fresh
  ]
]

-- next[k] = v for all but "_id", and delete(next, k).
unfoldable pub patch_all : Fields → Fields → Fields
patch_all no_fields next = next
patch_all (field k v patch) next = elim (bytes_eq k Keys.id_key) [
  | true ↦ patch_all patch next
  | false ↦ put_field k v (patch_all patch next)
]

unfoldable pub remove_all : List Bytes → Fields → Fields
remove_all [] next = next
remove_all (k ∷ ks) next = drop_field k (remove_all ks next)

-- A map has at most one entry for a key.
abbrev pub IsMap : Fields → Type 0
IsMap no_fields = Unit {0}
IsMap (field k v fs) = (get_field k fs ≡ none) × IsMap fs

module _ (ops : FloatOps) where
  abbrev pub unchanged : Option Value → Value → Bool
  unchanged none v = false
  unchanged (some w) v = deep_equal ops w v

  unfoldable pub diff_patch : Fields → Fields → Fields
  diff_patch old no_fields = no_fields
  diff_patch old (field k v fresh) =
      let rest = diff_patch old fresh in
      if bytes_eq k Keys.id_key || unchanged (get_field k old) v then rest else field k v rest
