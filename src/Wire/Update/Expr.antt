-- ===== src/Wire/Update/Expr.antt =====
-- wire/update.go: applyUpdateExpr, with normalizeIDValue of wire/query.go.
use mlstore_db.Prelude.{
  ℕ, ◌+◌, Bool, true, false, Option, none, some, length, ltb, ◌==◌, if◌then◌else◌,
}
use mlstore_db.Prelude.Bytes.{Bytes, bytes_eq}
use mlstore_db.Wire.Bson.{
  Value, null, bool, float, int32, int64, string, document, Fields, get_field, put_field,
}
use mlstore_db.Wire.Bson.Names
use mlstore_db.Wire.Bson.Text.{format_int}
use mlstore_db.Wire.Update.{UpdateError, Updated, done, failed, FloatOps}
use mlstore_db.Wire.Update.Arrays.{has_dollar}
use mlstore_db.Wire.Update.Keys
use mlstore_db.Wire.Update.Apply.{Now, apply_operators}

module _ (ops : FloatOps) where
  -- normalizeIDValue of wire/query.go, with its trunc and formatIDNumber.
  abbrev pub trunc : ℕ → ℕ
  trunc f =
      if ops.below f ops.zero_float
      then ops.negated (ops.of_int64 (ops.int64_of (ops.negated f)))
      else ops.of_int64 (ops.int64_of f)

  unfoldable pub format_id_number : ℕ → Bytes
  format_id_number f =
      if ops.equals f (trunc f) then format_int (ops.int64_of f) else ops.format_float f

  abbrev pub sign_extended : ℕ → ℕ
  sign_extended n = if ltb n 2147483648 then n else n + 18446744069414584320

  abbrev pub long_id : Fields → Option Bytes
  long_id doc = elim (get_field Names.number_long doc) [ some (string s) ↦ some s | _ ↦ none ]

  abbrev pub document_id : Fields → Option Bytes
  document_id doc = elim (get_field Names.oid doc) [
    | some (string s) ↦ if length s == 24 then some s else long_id doc
    | _ ↦ long_id doc
  ]

  unfoldable pub normalize_id_value : Value → Option Bytes
  normalize_id_value (string s) = some s
  normalize_id_value (document doc) = document_id doc
  normalize_id_value (float f) = some (format_id_number f)
  normalize_id_value (int32 n) = some (format_int (sign_extended n))
  normalize_id_value (int64 n) = some (format_int n)
  normalize_id_value (bool b) = some (if b then Keys.true_text else Keys.false_text)
  normalize_id_value _ = none

  abbrev pub is_id : Option Bytes → Option Value → Bool
  is_id (some s) (some (string t)) = bytes_eq s t
  is_id _ _ = false

  abbrev pub with_id : Option Value → Fields → Fields
  with_id none e = e
  with_id (some null) e = e
  with_id (some v) e = put_field Keys.id_key v e

  unfoldable pub replacement : Fields → Fields → Updated Fields
  replacement old e = elim (get_field Keys.id_key e) [
    | none ↦ done (with_id (get_field Keys.id_key old) e)
    | some id ↦
        if is_id (normalize_id_value id) (get_field Keys.id_key old)
        then done e
        else failed UpdateError.immutable_field
  ]

  module _ (now : Now) where
    unfoldable pub apply_update_expr : Fields → Value → Bool → Updated Fields
    apply_update_expr old (document e) is_upsert = elim (has_dollar e) [
      | true ↦ apply_operators ops now is_upsert e old
      | false ↦ replacement old e
    ]
    apply_update_expr old _ is_upsert = failed UpdateError.failed_to_parse
