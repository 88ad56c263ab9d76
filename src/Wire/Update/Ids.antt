-- ===== src/Wire/Update/Ids.antt =====
-- What the operators make of the id.
use mlstore_db.Prelude.{
  ℕ, ◌≡◌, ◌⊎◌, inl, inr, refl, ◌∙◌, Bool, true, false, Option, none, some, List, [], ◌∷◌, arith,
  Bool-cases, Option-cases, length, ◌==◌,
}
use mlstore_db.Prelude.Bytes.{Bytes, bytes_eq, bytes_eq_iff}
use mlstore_db.Prelude.Options.{◌>>=◌}
use mlstore_db.Filter.{split_dots}
use mlstore_db.Wire.Bson.{Value, float, string, document, array, Fields, get_field, put_field}
use mlstore_db.Wire.Update.{
  UpdateError, Updated, done, failed, items_of, FloatOps, to_float, starts_at_id, set_path,
  remove_parts, remove_path, lookup_path, nested,
}
use mlstore_db.Wire.Update.Apply.{
  UpdateOp, set, unset, inc, mul, min, max, rename, push, add_to_set, pop, pull, pull_all,
  current_date, set_on_insert, Now, base_of, arithmetic, is_less, keep_extreme, rename_path,
  apply_current_date, apply_update_op, present, destination, date_of,
}
use mlstore_db.Wire.Update.Arrays.{
  array_at, store_array, with_array, apply_push, apply_add_to_set, apply_pull, apply_pop, pop_end,
  push_items, add_items, set_items, keep_unless, pulled, pulled_all,
}
use mlstore_db.Wire.Update.Keys
use mlstore_db.Wire.Update.Paths.{
  get_field-put_field, get_field-drop_field, starts_with, set_parts_lem, set_path_lem,
}

abbrev pub id_of : Fields → Option Value
id_of doc = get_field Keys.id_key doc

array_cases :
    (r : Updated (List Value))
    → ((arr : List Value) × (r ≡ done arr)) ⊎ ((x : UpdateError) × (r ≡ failed x))
array_cases (done arr) = inl (arr, refl)
array_cases (failed x) = inr (x, refl)

starts_same : (parts : List Bytes) → starts_with Keys.id_key parts ≡ starts_at_id parts
starts_same [] = refl
starts_same (p ∷ ps) = refl

set_keeps :
    (doc after : Fields) (path : Bytes) (v : Value)
    → set_path doc path v ≡ done after
    → id_of after ≡ id_of doc
set_keeps doc after path v h =
    let (read, kept, other) = set_path_lem doc after path v h in
    kept Keys.id_key (starts_same (split_dots path) ∙ other)

-- No array is found at or below an id that is a string.
array_elsewhere :
    (create : Bool) (parts : List Bytes) (doc : Fields) (s : Bytes) (arr : List Value)
    → id_of doc ≡ some (string s)
    → array_at create parts doc ≡ done arr
    → starts_at_id parts ≡ false
unfolding array_at
array_elsewhere create [] doc s arr h e = refl
array_elsewhere create (p ∷ []) doc s arr h e = elim (Bool-cases (bytes_eq p Keys.id_key)) [
  | inl at_id ↦
      let name : p ≡ Keys.id_key = (bytes_eq_iff p Keys.id_key).0 at_id in
      let there : get_field p doc ≡ some (string s) = rw name h in absurd (ground (arith, there, e))
  | inr other ↦ other
]
array_elsewhere create (p ∷ q ∷ ps) doc s arr h e = elim (Bool-cases (bytes_eq p Keys.id_key)) [
  | inl at_id ↦
      let name : p ≡ Keys.id_key = (bytes_eq_iff p Keys.id_key).0 at_id in
      let there : get_field p doc ≡ some (string s) = rw name h in absurd (ground (arith, there, e))
  | inr other ↦ other
]

store_keeps :
    (create : Bool) (doc after : Fields) (path s : Bytes) (arr items : List Value)
    → id_of doc ≡ some (string s)
    → array_at create (split_dots path) doc ≡ done arr
    → store_array doc path items ≡ done after
    → id_of after ≡ id_of doc
store_keeps create doc after path s arr items h e k =
    let elsewhere = array_elsewhere create (split_dots path) doc s arr h e in
    (set_parts_lem (split_dots path) (array (items_of items)) doc after k).1 Keys.id_key
      (starts_same (split_dots path) ∙ elsewhere)

with_keeps :
    (doc after : Fields) (path s : Bytes) (change : List Value → List Value)
    → id_of doc ≡ some (string s)
    → with_array doc path change ≡ done after
    → id_of after ≡ id_of doc
with_keeps doc after path s change h e = elim (array_cases (array_at true (split_dots path) doc)) [
  | inl (arr, q) ↦ store_keeps true doc after path s arr (change arr) h q (ground (arith, q, e))
  | inr (x, q) ↦ absurd (ground (arith, q, e))
]

parts_kept :
    (parts : List Bytes) (doc : Fields) (s : Bytes)
    → id_of doc ≡ some (string s)
    → (id_of (remove_parts parts doc) ≡ some (string s)) ⊎ (id_of (remove_parts parts doc) ≡ none)
unfolding remove_parts
parts_kept [] doc s h = inl h
parts_kept (p ∷ []) doc s h = elim (Bool-cases (bytes_eq p Keys.id_key)) [
  | inl at_id ↦ inr (ground (arith, at_id, get_field-drop_field p Keys.id_key doc))
  | inr other ↦ inl (ground (arith, other, h, get_field-drop_field p Keys.id_key doc))
]
parts_kept (p ∷ q ∷ ps) doc s h = elim (Bool-cases (bytes_eq p Keys.id_key)) [
  | inl at_id ↦
      let name : p ≡ Keys.id_key = (bytes_eq_iff p Keys.id_key).0 at_id in
      let there : get_field p doc ≡ some (string s) = rw name h in inl (rw (there, remove_parts) h)
  | inr other ↦ elim (Option-cases (nested (get_field p doc))) [
    | inl e ↦ inl (rw (e, remove_parts) h)
    | inr (n, e) ↦
        let w = document (remove_parts (q ∷ ps) n) in
        let kept : id_of (put_field p w doc) ≡ some (string s) =
          ground (arith, other, h, get_field-put_field p Keys.id_key w doc) in
        inl (rw (e, remove_parts) kept)
  ]
]

removed_or_kept :
    (doc : Fields) (path s : Bytes)
    → id_of doc ≡ some (string s)
    → (id_of (remove_path doc path) ≡ some (string s)) ⊎ (id_of (remove_path doc path) ≡ none)
unfolding remove_path
removed_or_kept doc path s h = parts_kept (split_dots path) doc s h

module _ (ops : FloatOps) (now : Now) (doc after : Fields) (path s : Bytes) (val : Value)
    (h : id_of doc ≡ some (string s)) where
  arithmetic_keeps :
      (combine : ℕ → ℕ → ℕ)
      → arithmetic ops now combine doc path val ≡ done after
      → id_of after ≡ id_of doc
  unfolding arithmetic
  arithmetic_keeps combine e = elim (Option-cases (to_float ops val)) [
    | inl q ↦ absurd (ground (arith, q, e))
    | inr (delta, q) ↦ elim (Option-cases (base_of ops now (lookup_path doc path))) [
      | inl r ↦ absurd (ground (arith, q, r, e))
      | inr (base, r) ↦
          set_keeps doc after path (float (combine base delta)) (rw (q, r, arithmetic) at e)
    ]
  ]

  extreme_keeps :
      (better : Value → Value → Bool)
      → keep_extreme ops now better doc path val ≡ done after
      → id_of after ≡ id_of doc
  unfolding keep_extreme
  extreme_keeps better e = elim (Option-cases (present (lookup_path doc path))) [
    | inl q ↦ set_keeps doc after path val (rw (q, keep_extreme) at e)
    | inr (cur, q) ↦ elim (Bool-cases (better val cur)) [
      | inl b ↦ set_keeps doc after path val (rw (q, b, keep_extreme) at e)
      | inr b ↦ ground (arith, q, b, e)
    ]
  ]

  date_keeps : apply_current_date ops now doc path val ≡ done after → id_of after ≡ id_of doc
  unfolding apply_current_date
  date_keeps e = elim (Option-cases (date_of ops now val)) [
    | inl q ↦ absurd (ground (arith, q, e))
    | inr (v, q) ↦ set_keeps doc after path v (rw (q, apply_current_date) at e)
  ]

  pop_keeps : apply_pop ops doc path val ≡ done after → id_of after ≡ id_of doc
  unfolding apply_pop
  pop_keeps e = elim (array_cases (array_at false (split_dots path) doc)) [
    | inr (x, q) ↦ ground (arith, q, e)
    | inl (arr, q) ↦ elim (Option-cases (to_float ops val >>= (λ n. pop_end ops n arr))) [
      | inl r ↦ absurd (ground (arith, q, r, e))
      | inr ([], r) ↦ elim (Bool-cases (length arr == 0)) [
        | inl z ↦ ground (arith, q, r, z, e)
        | inr z ↦ store_keeps false doc after path s arr [] h q (rw (q, r, z, apply_pop) at e)
      ]
      | inr (v ∷ rest, r) ↦
          store_keeps false doc after path s arr (v ∷ rest) h q (rw (q, r, apply_pop) at e)
    ]
  ]

  rename_keeps :
      rename_path ops now doc path val ≡ done after
      → (id_of after ≡ some (string s)) ⊎ (id_of after ≡ none)
  unfolding rename_path
  rename_keeps e = elim (Option-cases (destination ops now val)) [
    | inl q ↦ absurd (ground (arith, q, e))
    | inr (new_path, q) ↦ elim (Option-cases (lookup_path doc path)) [
      | inl r ↦ inl (ground (arith, q, r, e, h))
      | inr (cur, r) ↦
          let kept =
            set_keeps (remove_path doc path) after new_path cur (rw (q, r, rename_path) at e) in
          rw kept (removed_or_kept doc path s h)
    ]
  ]

  -- An operator on a document whose id is a string leaves the id as it is; $unset and $rename may
  -- take it away, and none puts another in its place.
  pub apply_update_op_lem :
      (op : UpdateOp)
      → apply_update_op ops now op doc path val ≡ done after
      → (id_of after ≡ some (string s)) ⊎ ((id_of after ≡ none) × ((op ≡ unset) ⊎ (op ≡ rename)))
  unfolding apply_update_op apply_push apply_add_to_set apply_pull
  apply_update_op_lem set e = inl (set_keeps doc after path val e ∙ h)
  apply_update_op_lem set_on_insert e = inl (set_keeps doc after path val e ∙ h)
  apply_update_op_lem unset e = elim (removed_or_kept doc path s h) [
    | inl k ↦ inl (ground (arith, k, e))
    | inr k ↦ inr (ground (arith, k, e), inl refl)
  ]
  apply_update_op_lem inc e = inl (arithmetic_keeps ops.plus e ∙ h)
  apply_update_op_lem mul e = inl (arithmetic_keeps ops.times e ∙ h)
  apply_update_op_lem min e = inl (extreme_keeps (is_less ops now) e ∙ h)
  apply_update_op_lem max e = inl (extreme_keeps (λ v cur. is_less ops now cur v) e ∙ h)
  apply_update_op_lem rename e = elim (rename_keeps e) [ inl k ↦ inl k | inr k ↦ inr (k, inr refl) ]
  apply_update_op_lem push e = inl (with_keeps doc after path s (push_items ops val) h e ∙ h)
  apply_update_op_lem add_to_set e =
      inl (with_keeps doc after path s (add_items ops (set_items ops val)) h e ∙ h)
  apply_update_op_lem pop e = inl (pop_keeps e ∙ h)
  apply_update_op_lem pull e =
      inl (with_keeps doc after path s (keep_unless ops (pulled ops val)) h e ∙ h)
  apply_update_op_lem pull_all e =
      inl (with_keeps doc after path s (keep_unless ops (pulled_all ops val)) h e ∙ h)
  apply_update_op_lem current_date e = inl (date_keeps e ∙ h)
