-- ===== src/Filter/Probe/Blind.antt =====
-- What a filter that the test lets through can tell of the denied fields.
use mlstore_db.Prelude.{
  ◌≡◌, ◌⊎◌, refl, sym, ◌∙◌, ap, Bool, true, false, ◌&&◌, Option, none, some, List, ◌∷◌, arith,
  if◌then◌else◌, Bool-cases, Option-cases, inl, inr,
}
use mlstore_db.Prelude.Bytes.{Bytes, bytes_eq, bytes_eq_iff}
use mlstore_db.Prelude.Maps.{contains}
use mlstore_db.Filter.{
  Json, null, bool, number, string, document, plain_map, array, documents, Fields, no_fields, field,
  Items, no_items, item, FilterLib, Outcome, bad_filter, all_of, is_logical_op, logical_list,
  logical_doc, map_condition, list_condition, value_condition, lookup_multi, match, results,
  match_field, each_match, match_item,
}
use mlstore_db.Filter.Names
use mlstore_db.Filter.Probe.{
  is_dollar_key, is_list_op, found_one, doc_touches, list_touches, filter_touches, key_touches,
  items_touch, item_touches,
}

is_dollar_of : (k op : Bytes) → bytes_eq k op ≡ true → is_dollar_key k ≡ is_dollar_key op
is_dollar_of k op h = ap is_dollar_key ((bytes_eq_iff k op).0 h)

is_dollar_list : (k : Bytes) → is_list_op k ≡ true → is_dollar_key k ≡ true
is_dollar_list k h =
    ground (
      arith,
      h,
      is_dollar_of k Names.op_and,
      is_dollar_of k Names.op_or,
      is_dollar_of k Names.op_nor,
    )

module _ (lib : FilterLib) (deny : List Bytes) (doc : Fields) where
  no_item : (v : Json) → item_touches deny v ≡ none → match_item lib doc v ≡ none
  unfolding item_touches match_item
  no_item (document fs) h = absurd (ground (arith, h))
  no_item (plain_map fs) h = absurd (ground (arith, h))
  no_item (array vs) h = refl
  no_item (documents vs) h = refl
  no_item null h = refl
  no_item (bool b) h = refl
  no_item (number n) h = refl
  no_item (string t) h = refl

  -- A list that is refused is refused by match.
  no_list : (vs : Items) → items_touch deny vs ≡ none → each_match lib doc vs ≡ none
  unfolding items_touch each_match
  no_list no_items h = absurd (ground (arith, h))
  no_list (item v vs) h = elim (Option-cases (item_touches deny v)) [
    | inl e ↦ rw (no_item v e, each_match) refl
    | inr (b, e) ↦ elim (Option-cases (items_touch deny vs)) [
      | inr (c, f) ↦ absurd (ground (arith, e, f, h))
      | inl f ↦ elim (Option-cases (match_item lib doc v)) [
        | inl g ↦ rw (g, each_match) refl
        | inr (o, g) ↦ rw (g, no_list vs f, each_match) refl
      ]
    ]
  ]

refused_list :
    (lib : FilterLib) (k : Bytes) (a : Option (List Outcome))
    → is_list_op k ≡ false
    → logical_list lib k a ≡ bad_filter
unfolding logical_list
refused_list lib k none h = refl
refused_list lib k (some rs) h = ground (arith, h)

cons_same : {A : Type 0} {x y : A} {l m : List A} → x ≡ y → l ≡ m → x ∷ l ≡ y ∷ m
cons_same e f = cc

module _ (deny : List Bytes) where
  both_free :
      (v : Json) (vs : Items) (b : Bool)
      → items_touch deny (item v vs) ≡ some b
      → b ≡ false
      → (found_one (item_touches deny v) ≡ false) × (found_one (items_touch deny vs) ≡ false)
  unfolding items_touch
  both_free v vs b e h = elim (Option-cases (item_touches deny v)) [
    | inl f ↦ absurd (ground (arith, e, f))
    | inr (x, f) ↦ elim (Option-cases (items_touch deny vs)) [
      | inl g ↦ absurd (ground (arith, e, f, g))
      | inr (y, g) ↦ ground (arith, e, f, g, h)
    ]
  ]

module _ (lib : FilterLib) (deny : List Bytes) (doc other : Fields)
    (agree : (k : Bytes)
      → (is_dollar_key k ≡ true) ⊎ (contains deny k ≡ false)
      → lookup_multi doc k ≡ lookup_multi other k) where
  plain_key :
      (k : Bytes) (b : Bool)
      → (if is_dollar_key k then b else contains deny k) ≡ false
      → (is_dollar_key k ≡ true) ⊎ (contains deny k ≡ false)
  plain_key k b h = elim (Bool-cases (is_dollar_key k)) [
    | inl d ↦ inl d
    | inr d ↦ inr (ground (arith, d, h))
  ]

  same_value :
      (k : Bytes) (cond : Json)
      → lookup_multi doc k ≡ lookup_multi other k
      → value_condition lib doc k cond ≡ value_condition lib other k cond
  same_value k cond h = rw h refl

  same_map :
      (k : Bytes) (cond : Json) (fs : Fields) (a b : Outcome)
      → (is_logical_op lib k ≡ true → logical_doc lib k a ≡ logical_doc lib k b)
      → lookup_multi doc k ≡ lookup_multi other k
      → map_condition lib doc k cond fs a ≡ map_condition lib other k cond fs b
  same_map k cond fs a b e h = elim (Bool-cases (is_logical_op lib k)) [
    | inl l ↦ rw l (e l)
    | inr n ↦ rw (n, h) refl
  ]

  same_list :
      (k : Bytes) (cond : Json) (a b : Option (List Outcome))
      → (is_logical_op lib k ≡ true → logical_list lib k a ≡ logical_list lib k b)
      → lookup_multi doc k ≡ lookup_multi other k
      → list_condition lib doc k cond a ≡ list_condition lib other k cond b
  same_list k cond a b e h = elim (Bool-cases (is_logical_op lib k)) [
    | inl l ↦ rw l (e l)
    | inr n ↦ rw (n, h) refl
  ]

  not_same :
      (k : Bytes) (sub : Bool) (a b : Outcome)
      → doc_touches deny k sub ≡ false
      → (sub ≡ false → a ≡ b)
      → logical_doc lib k a ≡ logical_doc lib k b
  unfolding logical_doc
  not_same k sub a b h e = elim (Bool-cases (bytes_eq k Names.op_not)) [
    | inl n ↦ rw (e (ground (arith, n, h, is_dollar_of k Names.op_not n))) refl
    | inr n ↦ rw n refl
  ]

  list_same :
      (k : Bytes) (subs : Option Bool) (a b : Option (List Outcome))
      → list_touches deny k subs ≡ false
      → (found_one subs ≡ false → a ≡ b)
      → logical_list lib k a ≡ logical_list lib k b
  unfolding logical_list
  list_same k subs a b h e = elim (Bool-cases (is_list_op k)) [
    | inl n ↦ ap (logical_list lib k) (e (ground (arith, n, h, is_dollar_list k n)))
    | inr n ↦ refused_list lib k a n ∙ sym (refused_list lib k b n)
  ]

  mutual
    unfolding results match_field each_match match_item filter_touches key_touches items_touch
        item_touches

    results_same :
        (fs : Fields) → filter_touches deny fs ≡ false → results lib doc fs ≡ results lib other fs
    results_same no_fields h = refl
    results_same (field k v fs) h =
        cons_same (field_same k v (ground (arith, h))) (results_same fs (ground (arith, h)))

    field_same :
        (k : Bytes) (v : Json)
        → key_touches deny k v ≡ false
        → match_field lib doc k v ≡ match_field lib other k v
    field_same k (document fs) h =
        same_map k (document fs) fs (all_of (results lib doc fs)) (all_of (results lib other fs))
          (λ l.
            not_same k (filter_touches deny fs) (all_of (results lib doc fs))
              (all_of (results lib other fs)) h (λ e. ap all_of (results_same fs e)))
          (agree k (plain_key k (bytes_eq k Names.op_not && filter_touches deny fs) h))
    field_same k (plain_map fs) h =
        same_map k (plain_map fs) fs (all_of (results lib doc fs)) (all_of (results lib other fs))
          (λ l.
            not_same k (filter_touches deny fs) (all_of (results lib doc fs))
              (all_of (results lib other fs)) h (λ e. ap all_of (results_same fs e)))
          (agree k (plain_key k (bytes_eq k Names.op_not && filter_touches deny fs) h))
    field_same k (array vs) h =
        same_list k (array vs) (each_match lib doc vs) (each_match lib other vs)
          (λ l.
            list_same k (items_touch deny vs) (each_match lib doc vs) (each_match lib other vs) h
              (items_same vs))
          (agree k (plain_key k (is_list_op k && found_one (items_touch deny vs)) h))
    field_same k (documents vs) h =
        same_list k (documents vs) (each_match lib doc vs) (each_match lib other vs)
          (λ l.
            list_same k (items_touch deny vs) (each_match lib doc vs) (each_match lib other vs) h
              (items_same vs))
          (agree k (plain_key k (is_list_op k && found_one (items_touch deny vs)) h))
    field_same k null h = same_value k null (agree k (plain_key k false h))
    field_same k (bool b) h = same_value k (bool b) (agree k (plain_key k false h))
    field_same k (number n) h = same_value k (number n) (agree k (plain_key k false h))
    field_same k (string t) h = same_value k (string t) (agree k (plain_key k false h))

    items_same :
        (vs : Items)
        → found_one (items_touch deny vs) ≡ false
        → each_match lib doc vs ≡ each_match lib other vs
    items_same no_items h = refl
    items_same (item v vs) h = elim (Option-cases (items_touch deny (item v vs))) [
      | inl e ↦ no_list lib deny doc (item v vs) e ∙ sym (no_list lib deny other (item v vs) e)
      | inr (b, e) ↦
          let (v_free, vs_free) = both_free deny v vs b e (ground (arith, e, h)) in
          rw (item_same v v_free, items_same vs vs_free) refl
    ]

    item_same :
        (v : Json)
        → found_one (item_touches deny v) ≡ false
        → match_item lib doc v ≡ match_item lib other v
    item_same (document fs) h = ap (λ r. some (all_of r)) (results_same fs h)
    item_same (plain_map fs) h = ap (λ r. some (all_of r)) (results_same fs h)
    item_same (array vs) h = refl
    item_same (documents vs) h = refl
    item_same null h = refl
    item_same (bool b) h = refl
    item_same (number n) h = refl
    item_same (string t) h = refl

  -- A filter that filterTouchesFields lets through gives the same answer on two documents that agree
  -- on every path that starts with a dollar or is not itself a denied field.
  pub match_same :
      (filter : Fields)
      → filter_touches deny filter ≡ false
      → match lib doc filter ≡ match lib other filter
  unfolding match
  match_same filter h = ap all_of (results_same filter h)
