-- ===== src/Filter.antt =====
-- db/filter.go with equalJSON, toFloat and compareValues of db/store.go: whether a document matches
-- a filter. A range over a map visits it in the order of its list, which is any.
pub mod Names
pub mod Logic
pub mod Paths
pub mod Probe
mod Tests
use mlstore_db.Prelude.{
  ℕ, Bool, true, false, not, ◌&&◌, ◌||◌, Option, none, some, List, [], ◌∷◌, ◌++◌, map,
  if◌then◌else◌, ◌==◌,
}
use mlstore_db.Prelude.Bytes.{Bytes, bytes_eq}
use mlstore_db.Prelude.Strings.{str_less}
use mlstore_db.Filter.Names

-- An `any` of a document or a filter. A number of any numeric type is the float64 that toFloat makes
-- of it. Document, map[string]any, []any and []Document are types of their own.
mutual
  pub data Json : Type 0 where
    null : Json
    bool : Bool → Json
    number : ℕ → Json
    string : Bytes → Json
    document : Fields → Json
    plain_map : Fields → Json
    array : Items → Json
    documents : Items → Json

  pub data Fields : Type 0 where
    no_fields : Fields
    field : Bytes → Json → Fields → Fields

  pub data Items : Type 0 where
    no_items : Items
    item : Json → Items → Items

-- == and < on float64, and regexp: the test that a pattern compiles to.
pub record FilterLib : Type 0 where
  pub float_eq : ℕ → ℕ → Bool
  pub float_lt : ℕ → ℕ → Bool
  pub compile : Bytes → Option (Bytes → Bool)

-- What match returns: a bool, or ErrBadFilter; or a panic of == on two values of one type that
-- cannot be compared.
pub data Outcome : Type 0 where
  answer : Bool → Outcome
  bad_filter : Outcome
  panics : Outcome

abbrev pub negate : Outcome → Outcome
negate (answer b) = answer (not b)
negate bad_filter = bad_filter
negate panics = panics

-- A loop that goes on while the answers are true, and one that goes on while they are false.
unfoldable pub all_of : List Outcome → Outcome
all_of [] = answer true
all_of (answer true ∷ r) = all_of r
all_of (o ∷ r) = o

unfoldable pub any_of : List Outcome → Outcome
any_of [] = answer false
any_of (answer false ∷ r) = any_of r
any_of (o ∷ r) = o

-- The loop of "$nor", which goes on while the answers are false and then answers true.
unfoldable pub none_of : List Outcome → Outcome
none_of [] = answer true
none_of (answer false ∷ r) = none_of r
none_of (answer true ∷ r) = answer false
none_of (bad_filter ∷ r) = bad_filter
none_of (panics ∷ r) = panics

unfoldable pub get_key : Bytes → Fields → Option Json
get_key key no_fields = none
get_key key (field k v fs) = if bytes_eq k key then some v else get_key key fs

abbrev pub to_list : Items → List Json
to_list no_items = []
to_list (item v vs) = v ∷ to_list vs

-- The values under a key of a node, whose arrays are expanded.
unfoldable mutual
  pub values_at : Bytes → Json → List Json
  values_at key null = []
  values_at key (bool _) = []
  values_at key (number _) = []
  values_at key (string _) = []
  values_at key (document fs) = elim (get_key key fs) [ none ↦ [] | some v ↦ v ∷ [] ]
  values_at key (plain_map fs) = elim (get_key key fs) [ none ↦ [] | some v ↦ v ∷ [] ]
  values_at key (array vs) = items_at key vs
  values_at key (documents _) = []

  pub items_at : Bytes → Items → List Json
  items_at key no_items = []
  items_at key (item v vs) = values_at key v ++ items_at key vs

unfoldable pub values_below : Bytes → List Json → List Json
values_below key [] = []
values_below key (v ∷ vs) = values_at key v ++ values_below key vs

-- lookupPartsMulti, of a list of nodes in turn.
unfoldable pub lookup_parts : List Bytes → List Json → List Json
lookup_parts [] nodes = nodes
lookup_parts (p ∷ ps) nodes = lookup_parts ps (values_below p nodes)

-- strings.Split at the dots
unfoldable pub split_dots : Bytes → List Bytes
split_dots [] = [] ∷ []
split_dots (c ∷ s) = elim (c == 46) [
  | true ↦ [] ∷ split_dots s
  | false ↦ elim (split_dots s) [ [] ↦ (c ∷ []) ∷ [] | p ∷ ps ↦ (c ∷ p) ∷ ps ]
]

-- lookupMulti: the values, and none for a missing field. Without a dot in the path, it is one part.
unfoldable pub lookup_multi : Fields → Bytes → Option (List Json)
lookup_multi doc [] = none
lookup_multi doc (c ∷ path) = elim (lookup_parts (split_dots (c ∷ path)) (document doc ∷ [])) [
  | [] ↦ none
  | v ∷ vs ↦ some (v ∷ vs)
]

abbrev pub to_any_list : Json → Option (List Json)
to_any_list (array vs) = some (to_list vs)
to_any_list (documents vs) = some (to_list vs)
to_any_list _ = none

abbrev pub is_null : Json → Bool
is_null null = true
is_null _ = false

-- strings.HasPrefix(s, prefix), and strings.Contains(s, "i")
abbrev pub has_prefix : Bytes → Bytes → Bool
has_prefix [] s = true
has_prefix (p ∷ ps) [] = false
has_prefix (p ∷ ps) (c ∷ s) = p == c && has_prefix ps s

abbrev pub has_i : Bytes → Bool
has_i [] = false
has_i (c ∷ s) = c == 105 || has_i s

unfoldable pub has_op_keys : Fields → Bool
has_op_keys no_fields = false
has_op_keys (field k v fs) = has_prefix (36 ∷ []) k || has_op_keys fs

abbrev pub string_at : Bytes → Fields → Bytes
string_at key fs = elim (get_key key fs) [ some (string s) ↦ s | _ ↦ [] ]

-- The two operators that matchOps treats apart.
abbrev pub is_regex_op : Bytes → Bool
is_regex_op op = bytes_eq op Names.op_regex || bytes_eq op Names.op_options

module _ (lib : FilterLib) where
  -- equalJSON
  unfoldable pub equal_json : Json → Json → Outcome
  equal_json (number a) (number b) = answer (lib.float_eq a b)
  equal_json null null = answer true
  equal_json (bool a) (bool b) = answer ((a && b) || (not a && not b))
  equal_json (string a) (string b) = answer (bytes_eq a b)
  equal_json (document a) (document b) = panics
  equal_json (plain_map a) (plain_map b) = panics
  equal_json (array a) (array b) = panics
  equal_json (documents a) (documents b) = panics
  equal_json _ _ = answer false

  -- The four comparisons, of two numbers or two strings: by whether the first is less, and whether
  -- it is greater.
  abbrev pub compare_by : Bytes → Bool → Bool → Bool
  compare_by op less greater =
      if bytes_eq op Names.op_gt
      then greater
      else if bytes_eq op Names.op_gte
      then not less
      else if bytes_eq op Names.op_lt
      then less
      else not greater

  unfoldable pub compare_op : Bytes → Json → Json → Outcome
  compare_op op (number a) (number b) = answer (compare_by op (lib.float_lt a b) (lib.float_lt b a))
  compare_op op (string a) (string b) = answer (compare_by op (str_less a b) (str_less b a))
  compare_op op _ _ = answer false

  -- The loops of "$in" over the list.
  unfoldable pub is_in : Json → List Json → Outcome
  is_in v l = any_of (map (equal_json v) l)

  -- applyRegex
  unfoldable pub apply_regex : Option Json → Fields → Outcome
  apply_regex (some (string s)) ops =
      let pattern = string_at Names.op_regex ops in
      elim (lib.compile (
        if has_i (string_at Names.op_options ops) && not (has_prefix Names.ignore_case pattern)
        then Names.ignore_case ++ pattern
        else pattern)) [ none ↦ bad_filter | some test ↦ answer (test s) ]
  apply_regex _ ops = answer false

  -- matchOneOp of every operator but "$not"; a missing value is none.
  unfoldable pub leaf_op : Bytes → Option Json → Json → Outcome
  leaf_op op v arg =
      if bytes_eq op Names.op_eq
      then elim v [ none ↦ answer (is_null arg) | some x ↦ equal_json x arg ]
      else if bytes_eq op Names.op_ne
      then elim v [ none ↦ answer (not (is_null arg)) | some x ↦ negate (equal_json x arg) ]
      else if bytes_eq op Names.op_gt
          || (bytes_eq op Names.op_gte || (bytes_eq op Names.op_lt || bytes_eq op Names.op_lte))
      then elim v [ none ↦ answer false | some x ↦ compare_op op x arg ]
      else if bytes_eq op Names.op_in
      then elim (to_any_list arg) [
        | none ↦ bad_filter
        | some l ↦ elim v [ none ↦ answer false | some x ↦ is_in x l ]
      ]
      else if bytes_eq op Names.op_nin
      then elim (to_any_list arg) [
        | none ↦ bad_filter
        | some l ↦ elim v [ none ↦ answer true | some x ↦ negate (is_in x l) ]
      ]
      else if bytes_eq op Names.op_exists
      then elim arg [
        | bool want ↦ elim v [ none ↦ answer (not want) | some _ ↦ answer want ]
        | _ ↦ bad_filter
      ]
      else bad_filter

  -- matchOps, of what its loop comes to.
  abbrev pub with_regex : Option Json → Fields → List Outcome → Outcome
  with_regex v ops rest = elim (get_key Names.op_regex ops) [
    | none ↦ all_of rest
    | some _ ↦ all_of (apply_regex v ops ∷ rest)
  ]

  unfoldable mutual
    -- The operators of a map in turn, less "$regex" and "$options".
    pub op_results : Option Json → Fields → List Outcome
    op_results v no_fields = []
    op_results v (field op arg fs) = elim (is_regex_op op) [
      | true ↦ op_results v fs
      | false ↦ elim (bytes_eq op Names.op_not) [
        | true ↦ not_op v arg ∷ op_results v fs
        | false ↦ leaf_op op v arg ∷ op_results v fs
      ]
    ]

    -- "$not" with an expression of operators
    pub not_op : Option Json → Json → Outcome
    not_op v (document ops) = negate (with_regex v ops (op_results v ops))
    not_op v (plain_map ops) = negate (with_regex v ops (op_results v ops))
    not_op v null = bad_filter
    not_op v (bool _) = bad_filter
    not_op v (number _) = bad_filter
    not_op v (string _) = bad_filter
    not_op v (array _) = bad_filter
    not_op v (documents _) = bad_filter

  unfoldable pub match_ops : Option Json → Fields → Outcome
  match_ops v ops = with_regex v ops (op_results v ops)

  unfoldable pub match_ops_multi : Option (List Json) → Fields → Outcome
  match_ops_multi none ops = match_ops none ops
  match_ops_multi (some vals) ops = any_of (map (λ v. match_ops (some v) ops) vals)

  -- matchField behind its operators: equality with one of the values.
  unfoldable pub match_equal : Option (List Json) → Json → Outcome
  match_equal none cond = answer (is_null cond)
  match_equal (some vals) cond = any_of (map (λ v. equal_json v cond) vals)

  abbrev pub is_logical_op : Bytes → Bool
  is_logical_op k =
      bytes_eq k Names.op_and
      || (bytes_eq k Names.op_or || (bytes_eq k Names.op_not || bytes_eq k Names.op_nor))

  -- The cases of matchLogical, of the results on the list's documents; none is the error of
  -- toDocList.
  unfoldable pub logical_list : Bytes → Option (List Outcome) → Outcome
  logical_list k none = bad_filter
  logical_list k (some rs) =
      if bytes_eq k Names.op_and
      then all_of rs
      else if bytes_eq k Names.op_or
      then any_of rs
      else if bytes_eq k Names.op_nor
      then none_of rs
      else bad_filter

  -- matchLogical with a document, of what match returns on it
  unfoldable pub logical_doc : Bytes → Outcome → Outcome
  logical_doc k o =
      if bytes_eq k Names.op_not
      then elim o [ answer b ↦ answer (not b) | bad_filter ↦ bad_filter | panics ↦ panics ]
      else bad_filter

  module _ (doc : Fields) where
    -- matchField of a map: a logical operator, operators, or equality
    abbrev pub map_condition : Bytes → Json → Fields → Outcome → Outcome
    map_condition k cond fs matched =
        if is_logical_op k
        then logical_doc k matched
        else if has_op_keys fs
        then match_ops_multi (lookup_multi doc k) fs
        else match_equal (lookup_multi doc k) cond

    abbrev pub list_condition : Bytes → Json → Option (List Outcome) → Outcome
    list_condition k cond matched =
        if is_logical_op k then logical_list k matched else match_equal (lookup_multi doc k) cond

    abbrev pub value_condition : Bytes → Json → Outcome
    value_condition k cond =
        if is_logical_op k then bad_filter else match_equal (lookup_multi doc k) cond

    unfoldable mutual
      -- The conditions of a filter in turn.
      pub results : Fields → List Outcome
      results no_fields = []
      results (field k cond fs) = match_field k cond ∷ results fs

      pub match_field : Bytes → Json → Outcome
      match_field k (document fs) = map_condition k (document fs) fs (all_of (results fs))
      match_field k (plain_map fs) = map_condition k (plain_map fs) fs (all_of (results fs))
      match_field k (array vs) = list_condition k (array vs) (each_match vs)
      match_field k (documents vs) = list_condition k (documents vs) (each_match vs)
      match_field k null = value_condition k null
      match_field k (bool b) = value_condition k (bool b)
      match_field k (number n) = value_condition k (number n)
      match_field k (string s) = value_condition k (string s)

      -- match of each document of a list, none where one of them is no document.
      pub each_match : Items → Option (List Outcome)
      each_match no_items = some []
      each_match (item v vs) = elim (match_item v) [
        | none ↦ none
        | some o ↦ elim (each_match vs) [ none ↦ none | some rs ↦ some (o ∷ rs) ]
      ]

      pub match_item : Json → Option Outcome
      match_item (document fs) = some (all_of (results fs))
      match_item (plain_map fs) = some (all_of (results fs))
      match_item (array _) = none
      match_item (documents _) = none
      match_item null = none
      match_item (bool _) = none
      match_item (number _) = none
      match_item (string _) = none

    unfoldable pub match : Fields → Outcome
    match filter = all_of (results filter)
