-- ===== src/Wire/Update/Apply.antt =====
-- wire/update.go: applyUpdateOp and applyUpdateExpr. A range over a map visits it in the order of its
-- list, which is any.
use mlstore_db.Prelude.{ℕ, Bool, true, false, not, Option, none, some, List, [], ◌∷◌, if◌then◌else◌}
use mlstore_db.Prelude.Bytes.{Bytes, bytes_eq}
use mlstore_db.Prelude.Strings.{str_less}
use mlstore_db.Wire.Bson.{
  Value, null, bool, float, string, document, Fields, no_fields, field, get_field,
}
use mlstore_db.Wire.Bson.Names
use mlstore_db.Wire.Update.{
  UpdateError, Updated, done, failed, FloatOps, to_float, set_path, remove_path, lookup_path,
}
use mlstore_db.Wire.Update.Arrays.{apply_push, apply_add_to_set, apply_pull, apply_pop}
use mlstore_db.Wire.Update.Keys

-- The operators of updateOps.
pub data UpdateOp : Type 0 where
  set unset inc mul min max rename push : UpdateOp
  add_to_set pop pull pull_all current_date set_on_insert : UpdateOp

abbrev find_op : List (Bytes × UpdateOp) → Bytes → Option UpdateOp
find_op [] k = none
find_op ((name, op) ∷ l) k = if bytes_eq name k then some op else find_op l k

abbrev pub update_op : Bytes → Option UpdateOp
update_op = find_op (
    (Keys.op_set, set)
    ∷ (Keys.op_unset, unset)
    ∷ (Keys.op_inc, inc)
    ∷ (Keys.op_mul, mul)
    ∷ (Keys.op_min, min)
    ∷ (Keys.op_max, max)
    ∷ (Keys.op_rename, rename)
    ∷ (Keys.op_push, push)
    ∷ (Keys.op_add_to_set, add_to_set)
    ∷ (Keys.op_pop, pop)
    ∷ (Keys.op_pull, pull)
    ∷ (Keys.op_pull_all, pull_all)
    ∷ (Keys.op_current_date, current_date)
    ∷ (Keys.op_set_on_insert, set_on_insert)
    ∷ [])

-- The value of a path, unless it is missing or nil.
abbrev pub present : Option Value → Option Value
present none = none
present (some null) = none
present (some v) = some v

-- The time of the update, in seconds and in milliseconds, as float64.
pub record Now : Type 0 where
  pub unix : ℕ
  pub unix_milli : ℕ

module _ (ops : FloatOps) (now : Now) where
  -- The number that $inc and $mul start from; none if the value is no number.
  abbrev pub base_of : Option Value → Option ℕ
  base_of none = some ops.zero_float
  base_of (some null) = some ops.zero_float
  base_of (some v) = to_float ops v

  unfoldable pub arithmetic : (ℕ → ℕ → ℕ) → Fields → Bytes → Value → Updated Fields
  arithmetic combine doc path val = elim (to_float ops val) [
    | none ↦ failed UpdateError.type_mismatch
    | some delta ↦ elim (base_of (lookup_path doc path)) [
      | none ↦ failed UpdateError.type_mismatch
      | some base ↦ set_path doc path (float (combine base delta))
    ]
  ]

  -- compareValues of wire/update.go: whether the first is less.
  abbrev pub below_floats : Option ℕ → Option ℕ → Bool → Bool
  below_floats (some f) (some g) otherwise = ops.below f g
  below_floats _ _ otherwise = otherwise

  abbrev pub text_less : Value → Value → Bool
  text_less (string s) (string t) = str_less s t
  text_less _ _ = false

  unfoldable pub is_less : Value → Value → Bool
  is_less a b = below_floats (to_float ops a) (to_float ops b) (text_less a b)

  -- $min and $max: `better` says whether the value takes the place of the one that is there.
  unfoldable pub keep_extreme : (Value → Value → Bool) → Fields → Bytes → Value → Updated Fields
  keep_extreme better doc path val = elim (present (lookup_path doc path)) [
    | none ↦ set_path doc path val
    | some cur ↦ if better val cur then set_path doc path val else done doc
  ]

  -- The new path of $rename, which is a string and not empty.
  abbrev pub destination : Value → Option Bytes
  destination (string (c ∷ s)) = some (c ∷ s)
  destination _ = none

  unfoldable pub rename_path : Fields → Bytes → Value → Updated Fields
  rename_path doc path val = elim (destination val) [
    | none ↦ failed UpdateError.bad_value
    | some new_path ↦ elim (lookup_path doc path) [
      | none ↦ done doc
      | some cur ↦ set_path (remove_path doc path) new_path cur
    ]
  ]

  abbrev pub date_document : Value
  date_document = document (field Names.date (float now.unix_milli) no_fields)

  abbrev pub timestamp_document : Value
  timestamp_document = document (
      field Names.timestamp
        (document (
          field Keys.seconds (float now.unix)
            (field Keys.increment (float ops.one_float) no_fields)))
        no_fields)

  abbrev pub is_timestamp : Option Value → Bool
  is_timestamp (some (string s)) = bytes_eq s Keys.timestamp_text
  is_timestamp _ = false

  abbrev pub date_of : Value → Option Value
  date_of (document d) =
      some (if is_timestamp (get_field Keys.type_key d) then timestamp_document else date_document)
  date_of (bool true) = some date_document
  date_of _ = none

  unfoldable pub apply_current_date : Fields → Bytes → Value → Updated Fields
  apply_current_date doc path val = elim (date_of val) [
    | none ↦ failed UpdateError.bad_value
    | some v ↦ set_path doc path v
  ]

  unfoldable pub apply_update_op : UpdateOp → Fields → Bytes → Value → Updated Fields
  apply_update_op set doc path val = set_path doc path val
  apply_update_op set_on_insert doc path val = set_path doc path val
  apply_update_op unset doc path val = done (remove_path doc path)
  apply_update_op inc doc path val = arithmetic ops.plus doc path val
  apply_update_op mul doc path val = arithmetic ops.times doc path val
  apply_update_op min doc path val = keep_extreme is_less doc path val
  apply_update_op max doc path val = keep_extreme (λ v cur. is_less cur v) doc path val
  apply_update_op rename doc path val = rename_path doc path val
  apply_update_op push doc path val = apply_push ops doc path val
  apply_update_op add_to_set doc path val = apply_add_to_set ops doc path val
  apply_update_op pop doc path val = apply_pop ops doc path val
  apply_update_op pull doc path val = apply_pull ops doc path val false
  apply_update_op pull_all doc path val = apply_pull ops doc path val true
  apply_update_op current_date doc path val = apply_current_date doc path val

  -- The loop over the paths of one operator, and that over the operators.
  unfoldable pub apply_paths : UpdateOp → Fields → Fields → Updated Fields
  apply_paths op no_fields doc = done doc
  apply_paths op (field path val spec) doc = elim (apply_update_op op doc path val) [
    | failed x ↦ failed x
    | done after ↦ apply_paths op spec after
  ]

  abbrev pub is_skipped : UpdateOp → Bool → Bool
  is_skipped set_on_insert is_upsert = not is_upsert
  is_skipped _ is_upsert = false

  abbrev pub apply_operator : UpdateOp → Value → Fields → Updated Fields
  apply_operator op (document spec) doc = apply_paths op spec doc
  apply_operator op _ doc = failed UpdateError.failed_to_parse

  unfoldable pub apply_operators : Bool → Fields → Fields → Updated Fields
  apply_operators is_upsert no_fields doc = done doc
  apply_operators is_upsert (field k v e) doc = elim (update_op k) [
    | none ↦ failed UpdateError.failed_to_parse
    | some op ↦ elim (if is_skipped op is_upsert then done doc else apply_operator op v doc) [
      | failed x ↦ failed x
      | done after ↦ apply_operators is_upsert e after
    ]
  ]
