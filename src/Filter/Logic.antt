-- ===== src/Filter/Logic.antt =====
-- The operators of db/filter.go that are each other's negation.
use mlstore_db.Prelude.{◌≡◌, refl, ap, ◌∙◌, true, false, not, Option, none, some, List, [], ◌∷◌}
use mlstore_db.Prelude.Bytes.{Bytes, bytes_eq}
use mlstore_db.Filter.{
  Json, document, array, documents, Fields, no_fields, field, FilterLib, Outcome, answer,
  bad_filter, panics, negate, all_of, any_of, none_of, leaf_op, match_ops, op_results, equal_json,
  is_in, get_key, to_any_list, match, results, match_field, logical_list, logical_doc, each_match,
  is_null, to_list,
}
use mlstore_db.Filter.Names

all_of_one : (o : Outcome) → all_of (o ∷ []) ≡ o
unfolding all_of
all_of_one (answer true) = refl
all_of_one (answer false) = refl
all_of_one bad_filter = refl
all_of_one panics = refl

module _ (lib : FilterLib) where
  -- The filter {field: {op: arg}}, of one operator.
  abbrev pub single : Bytes → Json → Fields
  single op arg = field op arg no_fields

  ne_lem :
      (v : Option Json) (arg : Json)
      → match_ops lib v (single Names.op_ne arg) ≡ negate (match_ops lib v (single Names.op_eq arg))
  unfolding match_ops op_results get_key bytes_eq leaf_op
  ne_lem none arg =
      rw (all_of_one (answer (not (is_null arg))), all_of_one (answer (is_null arg))) refl
  ne_lem (some x) arg =
      rw (all_of_one (negate (equal_json lib x arg)), all_of_one (equal_json lib x arg)) refl

  in_cases : (v : Option Json) (l : Option (List Json)) → Outcome
  in_cases v none = bad_filter
  in_cases none (some l) = answer false
  in_cases (some x) (some l) = is_in lib x l

  in_lem :
      (v : Option Json) (arg : Json)
      → match_ops lib v (single Names.op_in arg) ≡ in_cases v (to_any_list arg)
  unfolding match_ops op_results get_key bytes_eq leaf_op in_cases
  in_lem none (array vs) = all_of_one (answer false)
  in_lem none (documents vs) = all_of_one (answer false)
  in_lem none _ = all_of_one bad_filter
  in_lem (some x) (array vs) = all_of_one (is_in lib x (to_list vs))
  in_lem (some x) (documents vs) = all_of_one (is_in lib x (to_list vs))
  in_lem (some x) _ = all_of_one bad_filter

  nin_lem :
      (v : Option Json) (arg : Json)
      → match_ops lib v (single Names.op_nin arg) ≡ negate (in_cases v (to_any_list arg))
  unfolding match_ops op_results get_key bytes_eq leaf_op in_cases
  nin_lem none (array vs) = all_of_one (answer true)
  nin_lem none (documents vs) = all_of_one (answer true)
  nin_lem none _ = all_of_one bad_filter
  nin_lem (some x) (array vs) = all_of_one (negate (is_in lib x (to_list vs)))
  nin_lem (some x) (documents vs) = all_of_one (negate (is_in lib x (to_list vs)))
  nin_lem (some x) _ = all_of_one bad_filter

  -- On every value, missing ones included, "$ne" gives the negation of "$eq" and "$nin" that of
  -- "$in"; they fail, and panic, where the other does.
  pub match_ops_negated :
      (v : Option Json) (arg : Json)
      → (match_ops lib v (single Names.op_ne arg)
          ≡ negate (match_ops lib v (single Names.op_eq arg)))
        × (match_ops lib v (single Names.op_nin arg)
            ≡ negate (match_ops lib v (single Names.op_in arg)))
  match_ops_negated v arg = (ne_lem v arg, rw (in_lem v arg) (nin_lem v arg))

  none_of_lem : (rs : List Outcome) → none_of rs ≡ negate (any_of rs)
  unfolding none_of any_of
  none_of_lem [] = refl
  none_of_lem (answer true ∷ rs) = refl
  none_of_lem (answer false ∷ rs) = none_of_lem rs
  none_of_lem (bad_filter ∷ rs) = refl
  none_of_lem (panics ∷ rs) = refl

  nor_list :
      (rs : Option (List Outcome))
      → logical_list lib Names.op_nor rs ≡ negate (logical_list lib Names.op_or rs)
  unfolding logical_list bytes_eq
  nor_list none = refl
  nor_list (some rs) = none_of_lem rs

  nor_field :
      (doc : Fields) (cond : Json)
      → match_field lib doc Names.op_nor cond ≡ negate (match_field lib doc Names.op_or cond)
  unfolding match_field logical_doc bytes_eq
  nor_field doc (array vs) = nor_list (each_match lib doc vs)
  nor_field doc (documents vs) = nor_list (each_match lib doc vs)
  nor_field doc _ = refl

  match-single :
      (doc : Fields) (k : Bytes) (cond : Json)
      → match lib doc (single k cond) ≡ match_field lib doc k cond
  unfolding match results
  match-single doc k cond = all_of_one (match_field lib doc k cond)

  not_doc : (o : Outcome) → logical_doc lib Names.op_not o ≡ negate o
  unfolding logical_doc bytes_eq
  not_doc (answer b) = refl
  not_doc bad_filter = refl
  not_doc panics = refl

  not_field :
      (doc fs : Fields) → match_field lib doc Names.op_not (document fs) ≡ negate (match lib doc fs)
  unfolding match_field bytes_eq match
  not_field doc fs = not_doc (match lib doc fs)

  negate_twice : (o : Outcome) → negate (negate o) ≡ o
  negate_twice (answer true) = refl
  negate_twice (answer false) = refl
  negate_twice bad_filter = refl
  negate_twice panics = refl

  nor_match :
      (doc : Fields) (cond : Json)
      → match lib doc (single Names.op_nor cond) ≡ negate (match lib doc (single Names.op_or cond))
  nor_match doc cond =
      rw (match-single doc Names.op_nor cond, match-single doc Names.op_or cond)
        (nor_field doc cond)

  not_match :
      (doc fs : Fields)
      → match lib doc (single Names.op_not (document fs)) ≡ negate (match lib doc fs)
  not_match doc fs = rw (match-single doc Names.op_not (document fs)) (not_field doc fs)

  -- For every document and every argument, the loop of "$nor" gives the negation of what that of
  -- "$or" gives, and "$not" of a document of conditions that of the conditions; they fail, and
  -- panic, where the other does. So "$not" of "$nor" is "$or", and "$not" of "$not" is the
  -- conditions themselves.
  pub logical_negated :
      (doc : Fields) (cond : Json) (fs : Fields)
      → (match lib doc (single Names.op_nor cond)
          ≡ negate (match lib doc (single Names.op_or cond)))
        × (match lib doc (single Names.op_not (document fs)) ≡ negate (match lib doc fs))
        × (match lib doc (single Names.op_not (document (single Names.op_nor cond)))
            ≡ match lib doc (single Names.op_or cond))
        × (match lib doc (single Names.op_not (document (single Names.op_not (document fs))))
            ≡ match lib doc fs)
  logical_negated doc cond fs = (
    nor_match doc cond,
    not_match doc fs,
    not_match doc (single Names.op_nor cond)
        ∙ ap negate (nor_match doc cond)
        ∙ negate_twice (match lib doc (single Names.op_or cond)),
    not_match doc (single Names.op_not (document fs))
        ∙ ap negate (not_match doc fs)
        ∙ negate_twice (match lib doc fs),
  )
