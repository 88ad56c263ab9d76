-- ===== src/Filter/Tests.antt =====
-- The theorems on filters at a document with an array of items.
use mlstore_db.Prelude.{◌≡◌, ◌≢◌, refl, ◌↔◌, true, false, none, some, [], ◌∷◌, ◌==◌, ltb}
use mlstore_db.Prelude.Bytes.{Bytes, bytes_eq}
use mlstore_db.Filter.{
  null, number, document, array, Fields, no_fields, field, no_items, item, FilterLib, answer,
  panics, negate, match, match_ops, lookup_multi, split_dots, results, match_field, lookup_parts,
  values_below, values_at, get_key, match_equal, equal_json, any_of, all_of, has_op_keys,
  match_ops_multi, op_results, leaf_op, compare_op,
}
use mlstore_db.Filter.Logic.{single, match_ops_negated, logical_negated}
use mlstore_db.Filter.Paths.{In, Leads, values_of, lookup_multi-Leads}
use mlstore_db.Filter.Names

-- Numbers that stand for themselves, and patterns that match themselves.
abbrev plain : FilterLib
plain = record {
  float_eq = λ a b. a == b;
  float_lt = λ a b. ltb a b;
  compile = λ p. some (bytes_eq p);
}

-- {"n": 3, "a": [{"x": 1}, {"x": 2}]}
abbrev doc : Fields
doc = field (110 ∷ []) (number 3) (
    field (97 ∷ [])
      (array (
        item (document (field (120 ∷ []) (number 1) no_fields))
          (item (document (field (120 ∷ []) (number 2) no_fields)) no_items)))
      no_fields)

-- "a.x"
abbrev a_x : Bytes
a_x = 97 ∷ 46 ∷ 120 ∷ []

-- {"a.x": 2}, {"n": {"$gt": 3}} and {"a": []}
finds_element : match plain doc (field a_x (number 2) no_fields) ≡ answer true
unfolding match results match_field lookup_multi lookup_parts split_dots values_below values_at
    get_key match_equal equal_json any_of all_of bytes_eq
finds_element = refl

not_greater :
    match plain doc (field (110 ∷ []) (document (single plain Names.op_gt (number 3))) no_fields)
    ≡ answer false
unfolding match results match_field lookup_multi lookup_parts split_dots values_below values_at
    get_key has_op_keys match_ops_multi match_ops op_results leaf_op compare_op any_of all_of
    bytes_eq
not_greater = refl

compares_arrays : match plain doc (field (97 ∷ []) (array no_items) no_fields) ≡ panics
unfolding match results match_field lookup_multi lookup_parts split_dots values_below values_at
    get_key match_equal equal_json any_of all_of bytes_eq
compares_arrays = refl

match_ops_negated_example :
    (match_ops plain none (single plain Names.op_ne null)
      ≡ negate (match_ops plain none (single plain Names.op_eq null)))
    × (match_ops plain none (single plain Names.op_nin null)
        ≡ negate (match_ops plain none (single plain Names.op_in null)))
match_ops_negated_example = match_ops_negated plain none null

logical_negated_example :
    (match plain doc (single plain Names.op_nor (array no_items))
      ≡ negate (match plain doc (single plain Names.op_or (array no_items))))
    × (match plain doc (single plain Names.op_not (document doc)) ≡ negate (match plain doc doc))
    × (match plain doc
          (single plain Names.op_not (document (single plain Names.op_nor (array no_items))))
        ≡ match plain doc (single plain Names.op_or (array no_items)))
    × (match plain doc
          (single plain Names.op_not (document (single plain Names.op_not (document doc))))
        ≡ match plain doc doc)
logical_negated_example = logical_negated plain doc (array no_items) doc

lookup_multi-Leads_example :
    In (number 2) (values_of (lookup_multi doc a_x))
    ↔ ((a_x ≢ []) × Leads (split_dots a_x) (document doc) (number 2))
lookup_multi-Leads_example = lookup_multi-Leads doc a_x (number 2)
