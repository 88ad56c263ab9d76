-- ===== src/Wire/Update/Arrays.antt =====
-- wire/update.go: the operators on arrays.
use mlstore_db.Prelude.{
  ℕ, zero, suc, ◌-◌, Bool, true, false, not, ◌&&◌, ◌||◌, Option, none, some, List, [], ◌∷◌, ◌++◌,
  length, ltb, take, drop, if◌then◌else◌, ◌==◌,
}
use mlstore_db.Prelude.Bytes.{Bytes, bytes_eq}
use mlstore_db.Prelude.Int.{ℤ, pos, negsuc}
use mlstore_db.Prelude.Options.{◌>>=◌}
use mlstore_db.Filter.{split_dots}
use mlstore_db.Wire.Bson.{
  Value, null, float, document, array, Fields, no_fields, field, get_field, item,
}
use mlstore_db.Wire.Update.{
  UpdateError, Updated, done, failed, FloatOps, item_list, items_of, to_float, deep_equal,
  set_parts,
}
use mlstore_db.Wire.Update.Keys

abbrev pub new_array : Bool → Updated (List Value)
new_array create = if create then done [] else failed UpdateError.bad_value

-- What arrayAtPath goes on with.
abbrev pub next_document : Bool → Option Value → Option Fields
next_document create none = if create then some no_fields else none
next_document create (some null) = if create then some no_fields else none
next_document create (some (document n)) = some n
next_document create (some _) = none

unfoldable pub array_at : Bool → List Bytes → Fields → Updated (List Value)
array_at create [] m = failed UpdateError.bad_value
array_at create (last ∷ []) m = elim (get_field last m) [
  | none ↦ new_array create
  | some null ↦ new_array create
  | some (array l) ↦ done (item_list l)
  | some _ ↦ failed UpdateError.type_mismatch
]
array_at create (p ∷ q ∷ ps) m = elim (next_document create (get_field p m)) [
  | none ↦ failed UpdateError.bad_value
  | some n ↦ array_at create (q ∷ ps) n
]

-- parent[last] = items, with the documents that arrayAtPath made.
abbrev pub store_array : Fields → Bytes → List Value → Updated Fields
store_array doc path items = set_parts (split_dots path) (array (items_of items)) doc

abbrev pub with_array : Fields → Bytes → (List Value → List Value) → Updated Fields
with_array doc path change = elim (array_at true (split_dots path) doc) [
  | failed x ↦ failed x
  | done arr ↦ store_array doc path (change arr)
]

-- A key that begins with a dollar.
abbrev pub is_dollar : Bytes → Bool
is_dollar [] = false
is_dollar (c ∷ k) = c == 36

unfoldable pub has_dollar : Fields → Bool
has_dollar no_fields = false
has_dollar (field k v fs) = is_dollar k || has_dollar fs

abbrev pub each_of : Fields → List Value
each_of spec = elim (get_field Keys.each spec) [ some (array l) ↦ item_list l | _ ↦ [] ]

-- "$position" of an array of that length, from 0; a negative one is at the end.
abbrev pub insert_position : ℤ → List Value → List Value → List Value
insert_position (pos p) each arr =
    let at = if ltb p (length arr) then p else length arr in take at arr ++ (each ++ drop at arr)
insert_position (negsuc p) each arr = arr ++ each

-- "$slice"
abbrev pub sliced : ℤ → List Value → List Value
sliced (pos zero) l = l
sliced (pos (suc n)) l = if ltb (suc n) (length l) then take (suc n) l else l
sliced (negsuc n) l = if ltb (suc n) (length l) then drop (length l - suc n) l else l

module _ (ops : FloatOps) where
  abbrev pub int_at : Bytes → Fields → Option ℤ
  int_at key spec = elim (get_field key spec) [ some (float f) ↦ some (ops.truncated f) | _ ↦ none ]

  abbrev pub push_each : Fields → List Value → List Value
  push_each spec arr =
      let pushed : List Value = elim (int_at Keys.position spec) [
        | none ↦ arr ++ each_of spec
        | some p ↦ insert_position p (each_of spec) arr
      ] in
      elim (int_at Keys.slice spec) [ none ↦ pushed | some n ↦ sliced n pushed ]

  unfoldable pub push_items : Value → List Value → List Value
  push_items (document spec) arr =
      if has_dollar spec then push_each spec arr else arr ++ document spec ∷ []
  push_items val arr = arr ++ val ∷ []

  -- One of the list is deep-equal to the value.
  unfoldable pub has_equal : List Value → Value → Bool
  has_equal [] v = false
  has_equal (e ∷ l) v = deep_equal ops e v || has_equal l v

  unfoldable pub add_items : List Value → List Value → List Value
  add_items [] out = out
  add_items (it ∷ items) out = add_items items (if has_equal out it then out else out ++ it ∷ [])

  -- An empty array of the wire is a nil slice, so it does not count as one.
  abbrev pub set_items : Value → List Value
  set_items (document spec) = elim (get_field Keys.each spec) [
    | some (array (item v l)) ↦ v ∷ item_list l
    | _ ↦ document spec ∷ []
  ]
  set_items val = val ∷ []

  -- The value is deep-equal to one of the list.
  unfoldable pub equal_to_one : Value → List Value → Bool
  equal_to_one e [] = false
  equal_to_one e (v ∷ l) = deep_equal ops e v || equal_to_one e l

  -- The values that $pull and $pullAll leave out.
  abbrev pub in_range : Bytes → ℕ → ℕ → Bool
  in_range key e c =
      if bytes_eq key Keys.gt_key
      then ops.below c e
      else if bytes_eq key Keys.gte_key
      then not (ops.below e c)
      else if bytes_eq key Keys.lt_key
      then ops.below e c
      else not (ops.below c e)

  abbrev pub compare_floats : Bytes → Option ℕ → Option ℕ → Bool
  compare_floats key (some e) (some c) = in_range key e c
  compare_floats key _ _ = false

  unfoldable pub match_condition : Value → Bytes → Value → Bool
  match_condition e key v =
      if bytes_eq key Keys.eq_key
      then deep_equal ops e v
      else if bytes_eq key Keys.ne_key
      then not (deep_equal ops e v)
      else if bytes_eq key Keys.gt_key
          || (bytes_eq key Keys.gte_key || (bytes_eq key Keys.lt_key || bytes_eq key Keys.lte_key))
      then compare_floats key (to_float ops e) (to_float ops v)
      else if bytes_eq key Keys.in_key
      then elim v [ array l ↦ equal_to_one e (item_list l) | _ ↦ false ]
      else false

  unfoldable pub match_element : Value → Fields → Bool
  match_element e no_fields = true
  match_element e (field k v cond) = match_condition e k v && match_element e cond

  unfoldable pub keep_unless : (Value → Bool) → List Value → List Value
  keep_unless drop_it [] = []
  keep_unless drop_it (e ∷ l) =
      if drop_it e then keep_unless drop_it l else e ∷ keep_unless drop_it l

  abbrev pub pulled : Value → Value → Bool
  pulled (document cond) e =
      if has_dollar cond then match_element e cond else deep_equal ops e (document cond)
  pulled val e = deep_equal ops e val

  abbrev pub pulled_all : Value → Value → Bool
  pulled_all (array l) e = equal_to_one e (item_list l)
  pulled_all _ e = false

  -- applyPush, applyAddToSet and applyPull
  unfoldable pub apply_push : Fields → Bytes → Value → Updated Fields
  apply_push doc path val = with_array doc path (push_items val)

  unfoldable pub apply_add_to_set : Fields → Bytes → Value → Updated Fields
  apply_add_to_set doc path val = with_array doc path (add_items (set_items val))

  unfoldable pub apply_pull : Fields → Bytes → Value → Bool → Updated Fields
  apply_pull doc path val pull_all =
      with_array doc path (keep_unless (if pull_all then pulled_all val else pulled val))

  -- applyPop: 1 takes the last, -1 the first.
  abbrev pub pop_end : ℕ → List Value → Option (List Value)
  pop_end n arr =
      if ops.equals n ops.one_float
      then some (take (length arr - 1) arr)
      else if ops.equals n ops.minus_one
      then some (drop 1 arr)
      else none

  unfoldable pub apply_pop : Fields → Bytes → Value → Updated Fields
  apply_pop doc path val = elim (array_at false (split_dots path) doc) [
    | failed x ↦ done doc
    | done arr ↦ elim (to_float ops val >>= (λ n. pop_end n arr)) [
      | none ↦ failed UpdateError.failed_to_parse
      | some [] ↦ if length arr == 0 then done doc else store_array doc path []
      | some (v ∷ rest) ↦ store_array doc path (v ∷ rest)
    ]
  ]
