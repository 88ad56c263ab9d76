-- ===== src/Wire/Update/Tests.antt =====
-- Updates of {"_id": "a", "n": 1}.
use mlstore_db.Prelude.{◌+◌, ◌*◌, ◌≡◌, ◌⊎◌, refl, false, none, some, [], ◌∷◌, ltb, ◌==◌}
use mlstore_db.Prelude.Bytes.{Bytes, bytes_eq}
use mlstore_db.Prelude.Int.{pos}
use mlstore_db.Filter.{split_dots}
use mlstore_db.Wire.Bson.{
  float, string, document, array, Fields, no_fields, field, item, no_items, get_field, put_field,
}
use mlstore_db.Wire.Update.{
  FloatOps, done, set_path, set_parts, lookup_path, lookup_steps, starts_at_id, deep_equal,
  to_float,
}
use mlstore_db.Wire.Update.Apply.{Now, inc, unset, rename, add_to_set, apply_update_op, arithmetic}
use mlstore_db.Wire.Update.Arrays.{apply_add_to_set, add_items, has_equal, array_at}
use mlstore_db.Wire.Update.Ids.{id_of, apply_update_op_lem}
use mlstore_db.Wire.Update.Keys
use mlstore_db.Wire.Update.Diff.{diff_remove, diff_patch, patch_all, remove_all}
use mlstore_db.Wire.Update.Diff.Stored.{updated, IsUpdated, updated_lem}
use mlstore_db.Wire.Update.Paths.{starts_with, set_path_lem}

abbrev nat_ops : FloatOps
nat_ops = record {
  equals = λ a b. a == b;
  below = λ a b. ltb a b;
  plus = λ a b. a + b;
  times = λ a b. a * b;
  of_int32 = λ n. n;
  of_int64 = λ n. n;
  parse_float = λ s. none;
  zero_float = 0;
  one_float = 1;
  minus_one = 2;
  negated = λ n. n;
  int64_of = λ n. n;
  truncated = λ n. pos n;
  format_float = λ n. [];
}

abbrev n_key : Bytes
n_key = 110 ∷ []

abbrev x_key : Bytes
x_key = 120 ∷ []

abbrev old_doc : Fields
old_doc = field Keys.id_key (string (97 ∷ [])) (field n_key (float 1) no_fields)

-- {"_id": "b", "x": 5}
abbrev new_doc : Fields
new_doc = field Keys.id_key (string (98 ∷ [])) (field x_key (float 5) no_fields)

-- "x.n" of a document without "x".
set_path_lem_example :
    (lookup_path
        (field Keys.id_key (string (97 ∷ [])) (
          field n_key
            (float 1)
            (field x_key (document (field n_key (float 7) no_fields)) no_fields)))
        (120 ∷ 46 ∷ 110 ∷ [])
      ≡ some (float 7))
    × ((j : Bytes)
        → starts_with j (split_dots (120 ∷ 46 ∷ 110 ∷ [])) ≡ false
        → get_field j (
            field Keys.id_key (string (97 ∷ [])) (
              field n_key
                (float 1)
                (field x_key (document (field n_key (float 7) no_fields)) no_fields)))
          ≡ get_field j old_doc)
    × (starts_at_id (split_dots (120 ∷ 46 ∷ 110 ∷ [])) ≡ false)
unfolding set_path set_parts split_dots get_field put_field bytes_eq
set_path_lem_example =
    set_path_lem old_doc
      (field Keys.id_key (string (97 ∷ [])) (
        field n_key (float 1) (field x_key (document (field n_key (float 7) no_fields)) no_fields)))
      (120 ∷ 46 ∷ 110 ∷ []) (float 7) refl

updated_new :
    updated nat_ops old_doc new_doc
    ≡ field Keys.id_key (string (97 ∷ [])) (field x_key (float 5) no_fields)
unfolding diff_remove diff_patch patch_all remove_all get_field put_field bytes_eq
    mlstore_db.Wire.Update.drop_field
updated_new = refl

updated_lem_example :
    (get_field Keys.id_key (updated nat_ops old_doc new_doc) ≡ get_field Keys.id_key old_doc)
    × ((j : Bytes)
        → bytes_eq j Keys.id_key ≡ false
        → IsUpdated nat_ops
            (get_field j (updated nat_ops old_doc new_doc))
            (get_field j old_doc)
            (get_field j new_doc))
unfolding get_field bytes_eq
updated_lem_example = updated_lem nat_ops old_doc new_doc (refl, (refl, tt))

-- "n" is 3 after an increment by 2.
abbrev incremented : Fields
incremented = field Keys.id_key (string (97 ∷ [])) (field n_key (float 3) no_fields)

abbrev at_noon : Now
at_noon = record { unix = 43200; unix_milli = 43200000 }

apply_update_op_lem_example :
    (id_of incremented ≡ some (string (97 ∷ [])))
    ⊎ ((id_of incremented ≡ none) × ((inc ≡ unset) ⊎ (inc ≡ rename)))
unfolding apply_update_op arithmetic lookup_path lookup_steps to_float set_path set_parts split_dots
    get_field put_field bytes_eq
apply_update_op_lem_example =
    apply_update_op_lem nat_ops at_noon old_doc incremented n_key (97 ∷ []) (float 2) refl inc refl

-- An empty "$each" adds the document that holds it.
each_nothing :
    apply_update_op nat_ops at_noon add_to_set old_doc x_key
      (document (field Keys.each (array no_items) no_fields))
    ≡ done (
        field Keys.id_key (string (97 ∷ [])) (
          field n_key (float 1) (
            field x_key
              (array (item (document (field Keys.each (array no_items) no_fields)) no_items))
              no_fields)))
unfolding apply_update_op apply_add_to_set add_items has_equal array_at set_parts split_dots
    get_field put_field bytes_eq
each_nothing = refl
