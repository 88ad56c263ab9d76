-- ===== src/Store/Sorting.antt =====
-- db/store.go: the sort of Find. sortBy with sort.SliceStable as it is on at most 20 elements, an
-- insertion sort, and sortByPartial with docHeap.
pub mod Best
pub mod Drained
pub mod Keys
pub mod Partial
pub mod Stale
mod Tests
use mlstore_db.Prelude.{
  ℕ, zero, suc, ◌+◌, ◌-◌, Bool, true, false, ◌||◌, ◌&&◌, Option, none, some, List, [], ◌∷◌, ◌++◌,
  ◌≡◌, ◌≢◌, refl, arith, map, length, leb, ltb, get_elem?, drop, take, if◌then◌else◌, ◌==◌,
}
use mlstore_db.Prelude.Bytes.{Bytes, bytes_eq, bytes_eq_iff}
use mlstore_db.Prelude.Int.{ℤ, pos, negsuc}
use mlstore_db.Prelude.Maps.{lookup, keys}
use mlstore_db.Prelude.Strings.{str_less, sort_strings}
use mlstore_db.Filter.{
  Json, null, bool, number, string, document, plain_map, array, documents, Fields, FilterLib,
  get_key,
}

-- A document of a collection with its "_id", which is a string.
pub record Ref : Type 0 where
  pub id : Bytes
  pub body : Fields

-- d[field], nil where it is missing
abbrev pub key_of : Bytes → Ref → Json
key_of field d = elim (get_key field d.body) [ none ↦ null | some v ↦ v ]

-- The int that compareValues returns: -1, 0 or 1.
pub data Compared : Type 0 where
  less : Compared
  equal : Compared
  greater : Compared

abbrev pub compared : Bool → Bool → Compared
compared below above = if below then less else if above then greater else equal

module _ (lib : FilterLib) where
  unfoldable pub compare_values : Json → Json → Compared
  compare_values (number a) (number b) = compared (lib.float_lt a b) (lib.float_lt b a)
  compare_values (string s) (string t) = compared (str_less s t) (str_less t s)
  compare_values null null = equal
  compare_values null b = less
  compare_values a null = greater
  compare_values a b = equal

  -- betterKey, and the same test in sortBy.
  unfoldable pub better_key : ℤ → Json → Json → Bool
  better_key (pos n) a b = elim (compare_values a b) [
    | less ↦ true
    | equal ↦ false
    | greater ↦ false
  ]
  better_key (negsuc n) a b = elim (compare_values a b) [
    | less ↦ false
    | equal ↦ false
    | greater ↦ true
  ]

  abbrev pub better_doc : ℤ → Bytes → Ref → Ref → Bool
  better_doc dir field d e = better_key dir (key_of field d) (key_of field e)

-- The swap of two neighbours.
unfoldable pub swap_at : ℕ → List Ref → List Ref
swap_at j [] = []
swap_at j (a ∷ []) = a ∷ []
swap_at zero (a ∷ b ∷ l) = b ∷ a ∷ l
swap_at (suc j) (a ∷ b ∷ l) = a ∷ swap_at j (b ∷ l)

-- An insertion sort whose test reads the list as it is then, by position.
module _ (less_at : List Ref → ℕ → ℕ → Bool) where
  unfoldable pub sink : ℕ → List Ref → List Ref
  sink zero docs = docs
  sink (suc j) docs = elim (less_at docs (suc j) j) [
    | true ↦ sink j (swap_at j docs)
    | false ↦ docs
  ]

  -- From position `i` on, that many.
  unfoldable pub insertion : ℕ → ℕ → List Ref → List Ref
  insertion zero i docs = docs
  insertion (suc n) i docs = insertion n (suc i) (sink i docs)

  abbrev pub slice_stable : List Ref → List Ref
  slice_stable docs = insertion (length docs - 1) 1 docs

abbrev pub id_at : List Ref → ℕ → Bytes
id_at docs i = elim (get_elem? docs i) [ none ↦ [] | some d ↦ d.id ]

abbrev pub json_at : List Json → ℕ → Json
json_at ks i = elim (get_elem? ks i) [ none ↦ null | some k ↦ k ]

abbrev pub id_less : List Ref → ℕ → ℕ → Bool
id_less docs a b = str_less (id_at docs a) (id_at docs b)

abbrev pub dir_of : Bytes → List (Bytes × ℤ) → ℤ
dir_of k spec = elim (lookup k spec) [ none ↦ pos 0 | some d ↦ d ]

module _ (lib : FilterLib) where
  -- The keys are read before the sort and stay where they are.
  unfoldable pub key_pass : ℤ → Bytes → List Ref → List Ref
  key_pass dir k docs =
      let ks = map (key_of k) docs in
      slice_stable (λ _ a b. better_key lib dir (json_at ks a) (json_at ks b)) docs

  -- The last of the keys first.
  unfoldable pub key_passes : List (Bytes × ℤ) → List Bytes → List Ref → List Ref
  key_passes spec [] docs = docs
  key_passes spec (k ∷ ks) docs = key_pass (dir_of k spec) k (key_passes spec ks docs)

  unfoldable pub sort_by : List (Bytes × ℤ) → List Ref → List Ref
  sort_by spec docs = elim (ltb (length docs) 2) [
    | true ↦ docs
    | false ↦ key_passes spec (sort_strings (keys spec)) (slice_stable id_less docs)
  ]

unfoldable pub delete_at {ℓ} : {A : Type ℓ} → ℕ → List A → List A
delete_at i [] = []
delete_at zero (a ∷ l) = l
delete_at (suc i) (a ∷ l) = a ∷ delete_at i l

-- docHeap: what it keeps, in the order of the pushes. Its list of keys is that of its documents, so
-- the test takes the documents. A panic of an index is none.
module _ {ℓ} {A : Type ℓ} (better : A → A → Bool) where
  -- The loop of worstIdx: `worst` at `wi`, from `i` on.
  unfoldable pub worst_from : A → ℕ → ℕ → List A → ℕ
  worst_from worst wi i [] = wi
  worst_from worst wi i (a ∷ l) = elim (better worst a) [
    | true ↦ worst_from a i (suc i) l
    | false ↦ worst_from worst wi (suc i) l
  ]

  unfoldable pub worst_idx : List A → ℕ
  worst_idx [] = 0
  worst_idx (a ∷ l) = worst_from a 0 1 l

  unfoldable pub pop : List A → Option (A × List A)
  pop l = elim (get_elem? l (worst_idx l)) [
    | none ↦ none
    | some a ↦ some (a, delete_at (worst_idx l) l)
  ]

  unfoldable pub keep_best : ℕ → List A → List A → Option (List A)
  keep_best need [] heap = some heap
  keep_best need (d ∷ ds) heap = elim (ltb need (length (heap ++ d ∷ []))) [
    | true ↦ elim (pop (heap ++ d ∷ [])) [
      | none ↦ none
      | some (worst, kept) ↦ keep_best need ds kept
    ]
    | false ↦ keep_best need ds (heap ++ d ∷ [])
  ]

  -- The documents of the heap, the worst last.
  unfoldable pub drain : ℕ → List A → List A → Option (List A)
  drain zero heap out = some out
  drain (suc n) heap out = elim (pop heap) [
    | none ↦ none
    | some (worst, kept) ↦ drain n kept (worst ∷ out)
  ]

  -- What the partial sort writes to the front.
  unfoldable pub best_first : ℕ → List A → Option (List A)
  best_first need docs = elim (keep_best need docs []) [
    | none ↦ none
    | some heap ↦ drain (length heap) heap []
  ]

module _ (lib : FilterLib) where
  -- A negative `need` is as 0. The list after the front stays as it was.
  unfoldable pub sort_by_partial : List (Bytes × ℤ) → ℕ → List Ref → Option (List Ref)
  sort_by_partial [] need docs = some (sort_by lib [] docs)
  sort_by_partial (p ∷ q ∷ r) need docs = some (sort_by lib (p ∷ q ∷ r) docs)
  sort_by_partial ((field, dir) ∷ []) need docs = elim (need == 0 || leb (length docs) need) [
    | true ↦ some (sort_by lib ((field, dir) ∷ []) docs)
    | false ↦ elim (best_first (better_doc lib dir field) need docs) [
      | none ↦ none
      | some front ↦ some (front ++ drop (length front) docs)
    ]
  ]

-- What Find returns of the sorted documents, by Skip and Limit.
unfoldable pub page : ℕ → ℕ → List Ref → List Ref
page skip limit docs = elim (ltb 0 skip && leb (length docs) skip) [
  | true ↦ []
  | false ↦
      if ltb 0 limit && ltb limit (length docs - skip)
      then take limit (drop skip docs)
      else drop skip docs
]

-- reverseRefs
unfoldable pub reverse_refs : List Ref → List Ref
reverse_refs [] = []
reverse_refs (d ∷ docs) = reverse_refs docs ++ d ∷ []

-- The documents when sortedByIndex is set: the plan is in the order of an index, whose field is
-- given, and the Sort is of that field alone.
unfoldable pub index_order : Option Bytes → List (Bytes × ℤ) → List Ref → Option (List Ref)
index_order (some order_field) ((field, pos n) ∷ []) docs =
    if bytes_eq field order_field then some docs else none
index_order (some order_field) ((field, negsuc n) ∷ []) docs =
    if bytes_eq field order_field then some (reverse_refs docs) else none
index_order _ _ docs = none

-- The end of Find with a Sort of some key, and a Skip and a Limit that are not negative. The field
-- of plan.order comes first, none where the plan has no order.
unfoldable pub sort_page :
    FilterLib → Option Bytes → List (Bytes × ℤ) → ℕ → ℕ → List Ref → Option (List Ref)
sort_page lib order spec skip limit docs = elim (index_order order spec docs) [
  | some refs ↦ some (page skip limit refs)
  | none ↦ elim (sort_by_partial lib spec (if ltb 0 limit then skip + limit else 0) docs) [
    | none ↦ none
    | some sorted ↦ some (page skip limit sorted)
  ]
]

pub index_order_other :
    (order : Option Bytes) (field : Bytes) (dir : ℤ) (docs : List Ref)
    → order ≢ some field
    → index_order order ((field, dir) ∷ []) docs ≡ none
unfolding index_order
index_order_other none field dir docs h = refl
index_order_other (some f) field (pos n) docs h =
    let e : bytes_eq field f ≡ false = ground (arith, h, bytes_eq_iff field f) in rw e refl
index_order_other (some f) field (negsuc n) docs h =
    let e : bytes_eq field f ≡ false = ground (arith, h, bytes_eq_iff field f) in rw e refl
