-- ===== src/Wire/Update.antt =====
-- wire/update.go: the values that updates compare, and the paths that they read and write. A value
-- is a copy of its own, so deepClone has no counterpart; a write that fails leaves no trace, since
-- its copy of the document is dropped.
pub mod Keys
pub mod Apply
pub mod Arrays
pub mod Diff
pub mod Expr
pub mod Ids
pub mod Paths
mod Tests
use mlstore_db.Prelude.{
  ℕ, zero, suc, ◌+◌, Bool, true, false, not, ◌&&◌, ◌||◌, Option, none, some, List, [], ◌∷◌, ◌==◌,
  get_elem?, if◌then◌else◌, Result, ok, err,
}
use mlstore_db.Prelude.Bytes.{Bytes, bytes_eq}
use mlstore_db.Prelude.Int.{ℤ}
use mlstore_db.Prelude.Options.{◌>>=◌}
use mlstore_db.Filter.{split_dots}
use mlstore_db.Wire.Bson.{
  Value, null, bool, float, int, int32, int64, uint64, time, string, bytes, document, array,
  documents, strings, unsupported, Fields, no_fields, field, Items, no_items, item, get_field,
  put_field,
}
use mlstore_db.Wire.Bson.Names
use mlstore_db.Wire.Bson.Text.{parse_int}
use mlstore_db.Wire.Update.Keys

-- The errors of errWire: their code names.
pub data UpdateError : Type 0 where
  bad_value : UpdateError
  failed_to_parse : UpdateError
  type_mismatch : UpdateError
  immutable_field : UpdateError

pub data Updated (A : Type 0) : Type 0 where
  done : A → Updated A
  failed : UpdateError → Updated A

-- What the updates use of float64: ==, <, +, * and -, the conversions of integers, and strconv's.
pub record FloatOps : Type 0 where
  pub equals : ℕ → ℕ → Bool
  pub below : ℕ → ℕ → Bool
  pub plus : ℕ → ℕ → ℕ
  pub times : ℕ → ℕ → ℕ
  pub of_int32 : ℕ → ℕ
  pub of_int64 : ℕ → ℕ
  pub parse_float : Bytes → Option ℕ
  pub zero_float : ℕ
  pub one_float : ℕ
  pub minus_one : ℕ
  pub negated : ℕ → ℕ
  -- int64(f), as its bit pattern and as an int
  pub int64_of : ℕ → ℕ
  pub truncated : ℕ → ℤ
  -- strconv.FormatFloat(f, 'g', -1, 64)
  pub format_float : ℕ → Bytes

-- delete(m, key)
unfoldable pub drop_field : Bytes → Fields → Fields
drop_field key no_fields = no_fields
drop_field key (field k v fs) =
    if bytes_eq k key then drop_field key fs else field k v (drop_field key fs)

abbrev pub item_list : Items → List Value
item_list no_items = []
item_list (item v vs) = v ∷ item_list vs

abbrev pub items_of : List Value → Items
items_of [] = no_items
items_of (v ∷ vs) = item v (items_of vs)

abbrev pub count_fields : Fields → ℕ
count_fields no_fields = 0
count_fields (field k v fs) = suc (count_fields fs)

module _ (ops : FloatOps) where
  abbrev pub number_in : Fields → Option ℕ
  number_in doc = elim (get_field Names.number_long doc) [
    | some (string s) ↦ ops.parse_float s
    | _ ↦ elim (get_field Names.number_double doc) [
      | some (float f) ↦ some f
      | _ ↦ elim (get_field Names.number_int doc) [ some (float f) ↦ some f | _ ↦ none ]
    ]
  ]

  -- toFloat
  unfoldable pub to_float : Value → Option ℕ
  to_float (float f) = some f
  to_float (int32 n) = some (ops.of_int32 n)
  to_float (int64 n) = some (ops.of_int64 n)
  to_float (int n) = some (ops.of_int64 n)
  to_float (document doc) = number_in doc
  to_float _ = none

  unfoldable pub strings_equal : List Bytes → List Bytes → Bool
  strings_equal [] [] = true
  strings_equal [] (t ∷ m) = false
  strings_equal (s ∷ l) [] = false
  strings_equal (s ∷ l) (t ∷ m) = bytes_eq s t && strings_equal l m

  -- reflect.DeepEqual
  unfoldable mutual
    pub reflect_equal : Value → Value → Bool
    reflect_equal null null = true
    reflect_equal (bool a) (bool b) = if a then b else not b
    reflect_equal (float a) (float b) = ops.equals a b
    reflect_equal (int a) (int b) = a == b
    reflect_equal (int32 a) (int32 b) = a == b
    reflect_equal (int64 a) (int64 b) = a == b
    reflect_equal (uint64 a) (uint64 b) = a == b
    reflect_equal (time a) (time b) = a == b
    reflect_equal (string s) (string t) = bytes_eq s t
    reflect_equal (bytes s) (bytes t) = bytes_eq s t
    reflect_equal (document m) (document n) = count_fields m == count_fields n && all_in m n
    reflect_equal (array l) (array m) = items_equal l m
    reflect_equal (documents l) (documents m) = items_equal l m
    reflect_equal (strings l) (strings m) = strings_equal l m
    reflect_equal a b = false

    pub all_in : Fields → Fields → Bool
    all_in no_fields n = true
    all_in (field k v m) n =
        elim (get_field k n) [ none ↦ false | some w ↦ reflect_equal v w ] && all_in m n

    pub items_equal : Items → Items → Bool
    items_equal no_items no_items = true
    items_equal no_items (item w m) = false
    items_equal (item v l) no_items = false
    items_equal (item v l) (item w m) = reflect_equal v w && items_equal l m

  abbrev pub equal_floats : Option ℕ → Option ℕ → Bool → Bool
  equal_floats (some f) (some g) otherwise = ops.equals f g
  equal_floats (some f) none otherwise = false
  equal_floats none (some g) otherwise = false
  equal_floats none none otherwise = otherwise

  abbrev pub is_nil : Value → Bool
  is_nil null = true
  is_nil _ = false

  unfoldable pub deep_equal : Value → Value → Bool
  deep_equal a b = elim (is_nil a || is_nil b) [
    | true ↦ is_nil a && is_nil b
    | false ↦ equal_floats (to_float a) (to_float b) (reflect_equal a b)
  ]

-- What a path leads through: a missing value and nil become a document.
abbrev pub sub_document : Option Value → Option Fields
sub_document none = some no_fields
sub_document (some null) = some no_fields
sub_document (some (document m)) = some m
sub_document (some _) = none

abbrev pub put_under : Bytes → Fields → Updated Fields → Updated Fields
put_under p m (done n) = done (put_field p (document n) m)
put_under p m (failed x) = failed x

-- The loop of setPath over the parts of a path.
unfoldable pub set_parts : List Bytes → Value → Fields → Updated Fields
set_parts [] v m = failed UpdateError.bad_value
set_parts (last ∷ []) v m = done (put_field last v m)
set_parts (p ∷ q ∷ ps) v m = elim (sub_document (get_field p m)) [
  | none ↦ failed UpdateError.bad_value
  | some n ↦ put_under p m (set_parts (q ∷ ps) v n)
]

abbrev pub starts_at_id : List Bytes → Bool
starts_at_id [] = false
starts_at_id (p ∷ ps) = bytes_eq p Keys.id_key

unfoldable pub set_path : Fields → Bytes → Value → Updated Fields
set_path doc path v = elim (starts_at_id (split_dots path)) [
  | true ↦ failed UpdateError.immutable_field
  | false ↦ set_parts (split_dots path) v doc
]

abbrev pub nested : Option Value → Option Fields
nested (some (document n)) = some n
nested _ = none

unfoldable pub remove_parts : List Bytes → Fields → Fields
remove_parts [] m = m
remove_parts (last ∷ []) m = drop_field last m
remove_parts (p ∷ q ∷ ps) m = elim (nested (get_field p m)) [
  | none ↦ m
  | some n ↦ put_field p (document (remove_parts (q ∷ ps) n)) m
]

unfoldable pub remove_path : Fields → Bytes → Fields
remove_path doc path = remove_parts (split_dots path) doc

-- One step of lookupPath. A negative index is above every length here.
abbrev pub value_step : Bytes → Value → Option Value
value_step p (document m) = get_field p m
value_step p (array l) = parse_int p >>= (λ i. get_elem? (item_list l) i)
value_step p _ = none

unfoldable pub lookup_steps : List Bytes → Value → Option Value
lookup_steps [] v = some v
lookup_steps (p ∷ ps) v = elim (value_step p v) [ none ↦ none | some w ↦ lookup_steps ps w ]

unfoldable pub lookup_path : Fields → Bytes → Option Value
lookup_path doc path = lookup_steps (split_dots path) (document doc)
