-- ===== src/Filter/Paths.antt =====
-- The values that a dotted path of db/filter.go reaches.
use mlstore_db.Prelude.{
  ℕ, ◌≡◌, ◌≢◌, refl, ◌↔◌, ◌⊎◌, inl, inr, Option, none, some, List, [], ◌∷◌, ◌++◌,
}
use mlstore_db.Prelude.Bytes.{Bytes}
use mlstore_db.Filter.{
  Json, null, bool, number, string, document, plain_map, array, documents, Fields, Items, no_items,
  item, get_key, values_at, items_at, values_below, lookup_parts, lookup_multi, split_dots, to_list,
}

abbrev pub In : Json → List Json → Type 0
In v [] = ⊥
In v (x ∷ l) = (v ≡ x) ⊎ In v l

-- One part of a path: a key of an object, or of an element of an array, at any depth of arrays.
pub data Step (key : Bytes) : Json → Json → Type 0 where
  of_document : (fs : Fields) (v : Json) → get_key key fs ≡ some v → Step key (document fs) v
  of_map : (fs : Fields) (v : Json) → get_key key fs ≡ some v → Step key (plain_map fs) v
  of_element : (vs : Items) (x v : Json) → In x (to_list vs) → Step key x v → Step key (array vs) v

-- A path that leads from a node to a value.
pub data Leads : List Bytes → Json → Json → Type 0 where
  here : (v : Json) → Leads [] v v
  next :
      (key : Bytes) (path : List Bytes) (a b v : Json)
      → Step key a b
      → Leads path b v
      → Leads (key ∷ path) a v

In-append : (v : Json) (l m : List Json) → In v (l ++ m) → In v l ⊎ In v m
In-append v [] m h = inr h
In-append v (x ∷ l) m (inl e) = inl (inl e)
In-append v (x ∷ l) m (inr h) = elim (In-append v l m h) [ inl a ↦ inl (inr a) | inr b ↦ inr b ]

In-append_left : (v : Json) (l m : List Json) → In v l → In v (l ++ m)
In-append_left v [] m h = elim h [ ]
In-append_left v (x ∷ l) m (inl e) = inl e
In-append_left v (x ∷ l) m (inr h) = inr (In-append_left v l m h)

In-append_right : (v : Json) (l m : List Json) → In v m → In v (l ++ m)
In-append_right v [] m h = h
In-append_right v (x ∷ l) m h = inr (In-append_right v l m h)

abbrev as_list : Option Json → List Json
as_list o = elim o [ none ↦ [] | some w ↦ w ∷ [] ]

as_list_sound : (o : Option Json) (v : Json) → In v (as_list o) → o ≡ some v
as_list_sound none v h = elim h [ ]
as_list_sound (some w) v (inl same) = rw same refl
as_list_sound (some w) v (inr h) = elim h [ ]

found_sound :
    (key : Bytes) (fs : Fields) (v : Json)
    → In v (as_list (get_key key fs))
    → get_key key fs ≡ some v
found_sound key fs v h = as_list_sound (get_key key fs) v h

mutual
  unfolding values_at

  values_at_sound : (key : Bytes) (a v : Json) → In v (values_at key a) → Step key a v
  values_at_sound key (document fs) v h = of_document fs v (found_sound key fs v h)
  values_at_sound key (plain_map fs) v h = of_map fs v (found_sound key fs v h)
  values_at_sound key (array vs) v h =
      let (x, (inside, step)) = items_at_sound key vs v h in of_element vs x v inside step
  values_at_sound key null v h = elim h [ ]
  values_at_sound key (bool _) v h = elim h [ ]
  values_at_sound key (number _) v h = elim h [ ]
  values_at_sound key (string _) v h = elim h [ ]
  values_at_sound key (documents _) v h = elim h [ ]

  items_at_sound :
      (key : Bytes) (vs : Items) (v : Json)
      → In v (items_at key vs)
      → (x : Json) × (In x (to_list vs) × Step key x v)
  items_at_sound key no_items v h = elim h [ ]
  items_at_sound key (item x vs) v h = elim (In-append v (values_at key x) (items_at key vs) h) [
    | inl first ↦ (x, (inl refl, values_at_sound key x v first))
    | inr rest ↦ let (y, (inside, step)) = items_at_sound key vs v rest in (y, (inr inside, step))
  ]

items_at_complete :
    (key : Bytes) (vs : Items) (x v : Json)
    → In x (to_list vs)
    → In v (values_at key x)
    → In v (items_at key vs)
unfolding values_at
items_at_complete key no_items x v inside h = elim inside [ ]
items_at_complete key (item y vs) x v (inl same) h =
    In-append_left v (values_at key y) (items_at key vs) (rw (← same) h)
items_at_complete key (item y vs) x v (inr inside) h =
    In-append_right v (values_at key y) (items_at key vs) (items_at_complete key vs x v inside h)

as_list_complete : (o : Option Json) (v : Json) → o ≡ some v → In v (as_list o)
as_list_complete o v e = rw e (inl refl)

values_at_complete : (key : Bytes) (a v : Json) → Step key a v → In v (values_at key a)
unfolding values_at
values_at_complete key _ v (of_document fs _ e) = as_list_complete (get_key key fs) v e
values_at_complete key _ v (of_map fs _ e) = as_list_complete (get_key key fs) v e
values_at_complete key _ v (of_element vs x _ inside step) =
    items_at_complete key vs x v inside (values_at_complete key x v step)

values_below_sound :
    (key : Bytes) (nodes : List Json) (v : Json)
    → In v (values_below key nodes)
    → (a : Json) × (In a nodes × Step key a v)
unfolding values_below
values_below_sound key [] v h = elim h [ ]
values_below_sound key (a ∷ nodes) v h =
    elim (In-append v (values_at key a) (values_below key nodes) h) [
      | inl first ↦ (a, (inl refl, values_at_sound key a v first))
      | inr rest ↦
          let (b, (inside, step)) = values_below_sound key nodes v rest in (b, (inr inside, step))
    ]

values_below_complete :
    (key : Bytes) (nodes : List Json) (a v : Json)
    → In a nodes
    → Step key a v
    → In v (values_below key nodes)
unfolding values_below
values_below_complete key [] a v h step = elim h [ ]
values_below_complete key (b ∷ nodes) a v (inl same) step =
    In-append_left v (values_at key b) (values_below key nodes)
      (rw (← same) (values_at_complete key a v step))
values_below_complete key (b ∷ nodes) a v (inr h) step =
    In-append_right v (values_at key b) (values_below key nodes)
      (values_below_complete key nodes a v h step)

lookup_parts_sound :
    (path : List Bytes) (nodes : List Json) (v : Json)
    → In v (lookup_parts path nodes)
    → (a : Json) × (In a nodes × Leads path a v)
unfolding lookup_parts
lookup_parts_sound [] nodes v h = (v, (h, here v))
lookup_parts_sound (p ∷ path) nodes v h =
    let (b, (below, leads)) = lookup_parts_sound path (values_below p nodes) v h in
    let (a, (inside, step)) = values_below_sound p nodes b below in
    (a, (inside, next p path a b v step leads))

lookup_parts_complete :
    (path : List Bytes) (nodes : List Json) (a v : Json)
    → In a nodes
    → Leads path a v
    → In v (lookup_parts path nodes)
unfolding lookup_parts
lookup_parts_complete _ nodes a v inside (here _) = inside
lookup_parts_complete _ nodes a v inside (next p path _ b _ step leads) =
    lookup_parts_complete path (values_below p nodes) b v
      (values_below_complete p nodes a b inside step) leads

abbrev pub values_of : Option (List Json) → List Json
values_of o = elim o [ none ↦ [] | some l ↦ l ]

values-lookup_multi :
    (doc : Fields) (c : ℕ) (s : Bytes)
    → values_of (lookup_multi doc (c ∷ s)) ≡ lookup_parts (split_dots (c ∷ s)) (document doc ∷ [])
unfolding lookup_multi
values-lookup_multi doc c s = go (lookup_parts (split_dots (c ∷ s)) (document doc ∷ []))
  where
    go : (l : List Json) → values_of (elim l [ [] ↦ none | v ∷ vs ↦ some (v ∷ vs) ]) ≡ l
    go [] = refl
    go (v ∷ vs) = refl

root_Leads :
    (a : Json) (doc : Fields) (path : List Bytes) (v : Json)
    → In a (document doc ∷ [])
    → Leads path a v
    → Leads path (document doc) v
root_Leads a doc path v (inl same) leads = rw (← same) leads
root_Leads a doc path v (inr no_more) leads = elim no_more [ ]

-- lookupMulti gives a value if and only if the path is not empty and its parts, which the dots
-- separate, lead to the value from the document: a part goes to a key of an object, or of the
-- elements of an array. For the empty path it gives no value.
pub lookup_multi-Leads :
    (doc : Fields) (path : Bytes) (v : Json)
    → In v (values_of (lookup_multi doc path))
      ↔ ((path ≢ []) × Leads (split_dots path) (document doc) v)
unfolding lookup_multi
lookup_multi-Leads doc [] v = ((λ h. elim h [ ]), (λ h. absurd (h.0 refl)))
lookup_multi-Leads doc (c ∷ s) v = (
  (λ h.
      let (a, (inside, leads)) =
        lookup_parts_sound (split_dots (c ∷ s)) (document doc ∷ []) v
          (rw (values-lookup_multi doc c s) at h) in
      ((λ e. cc), root_Leads a doc (split_dots (c ∷ s)) v inside leads)),
  (λ h. rw (values-lookup_multi doc c s) (
      lookup_parts_complete (split_dots (c ∷ s)) (document doc ∷ []) (document doc) v (inl refl)
        h.1)),
)
