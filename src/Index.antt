-- ===== src/Index.antt =====
-- The in-memory index of db/index.go. A document enters through the rows that extractIndexRows
-- makes of it: each is an encoded key with the value of the first field.
pub mod Holds
pub mod Docs
use mlstore_db.Prelude.{
  ℕ, zero, suc, ◌+◌, ◌/◌, Bool, true, false, not, ◌&&◌, ◌||◌, Option, none, some, List, [], ◌∷◌,
  ◌++◌, length, take, drop, get_elem?, ltb, ◌==◌, if◌then◌else◌, Result, ok, err, DbError,
}
use mlstore_db.Prelude.Bytes.{Bytes, bytes_eq}
use mlstore_db.Prelude.Maps.{get_set, lookup, put, remove, contains, add, discard}

-- ordEntry
pub record OrdEntry (Val : Type 0) : Type 0 where
  pub val : Val
  pub key : Bytes

-- csrMatrix
pub record CsrMatrix (Val : Type 0) : Type 0 where
  pub keys : List Bytes
  pub vals : List Val
  pub indptr : List ℕ
  pub indices : List ℕ
  pub ids : List Bytes
  pub checksum : ℕ

-- index; idx.Unique is `is_unique`.
pub record Index (Val : Type 0) : Type 0 where
  pub fields : List Bytes
  pub is_unique : Bool
  pub entries : List (Bytes × List Bytes)
  pub unique : List (Bytes × Bytes)
  pub ord : List (OrdEntry Val)
  pub ord_dirty : Bool
  pub matrix : Option (CsrMatrix Val)

unfoldable pub new_index : {Val : Type 0} → List Bytes → Bool → Index Val
new_index fields unique = record {
  fields = fields;
  is_unique = unique;
  entries = [];
  unique = [];
  ord = [];
  ord_dirty = true;
  matrix = none;
}

-- sort.Search(n, f) on the interval [i, j): the binary search of the standard library. A round
-- halves the interval, so `n` rounds are enough.
unfoldable pub search_from : ℕ → (ℕ → Bool) → ℕ → ℕ → ℕ
search_from zero f i j = i
search_from (suc fuel) f i j =
    let mid = (i + j) / 2 in
    let low = search_from fuel f (mid + 1) j in
    let high = search_from fuel f i mid in if ltb i j then (if f mid then high else low) else i

unfoldable pub search : ℕ → (ℕ → Bool) → ℕ
unfolding search_from
search n f = search_from n f 0 n

abbrev pub is_some {ℓ} : {A : Type ℓ} → Option A → Bool
is_some none = false
is_some (some a) = true

abbrev pub is_empty {ℓ} : {A : Type ℓ} → List A → Bool
is_empty [] = true
is_empty (a ∷ as_) = false

-- `owner` is in the index under that key, and it is not `id`.
abbrev pub taken_by_other : Option Bytes → Bytes → Bool
taken_by_other none id = false
taken_by_other (some owner) id = not (bytes_eq owner id)

module _ {Val : Type 0} where
  -- The rows of a document without repeated keys, in order.
  unfoldable pub distinct_rows : List Bytes → List (Bytes × Val) → List (Bytes × Val)
  distinct_rows seen [] = []
  distinct_rows seen ((k, v) ∷ rows) =
      if contains seen k then distinct_rows seen rows else (k, v) ∷ distinct_rows (k ∷ seen) rows

  -- A unique key that another document owns.
  unfoldable pub conflicts : Index Val → Bytes → List (Bytes × Val) → Bool
  conflicts idx id [] = false
  conflicts idx id ((k, v) ∷ rows) =
      if idx.is_unique && taken_by_other (lookup k idx.unique) id
      then true
      else conflicts idx id rows

  -- lookupIDs of a full key
  unfoldable pub lookup_ids : Bytes → Index Val → List Bytes
  lookup_ids k idx =
      if idx.is_unique
      then elim (lookup k idx.unique) [ none ↦ [] | some id ↦ id ∷ [] ]
      else get_set k idx.entries

  unfoldable pub count_key : Bytes → Index Val → ℕ
  count_key k idx =
      if idx.is_unique
      then (if is_some (lookup k idx.unique) then 1 else 0)
      else length (get_set k idx.entries)

  unfoldable pub covers : List (Bytes × Val) → Bytes → Index Val → Bool
  covers [] id idx = true
  covers ((k, v) ∷ rows) id idx =
      if idx.is_unique
      then (if not (is_some (lookup k idx.unique)) || taken_by_other (lookup k idx.unique) id
          then false
          else covers rows id idx)
      else if not (contains (get_set k idx.entries) id)
      then false
      else covers rows id idx

module _ {Val : Type 0} (ord_less : OrdEntry Val → OrdEntry Val → Bool) where
  -- idx.ord[:i], e, idx.ord[i:]
  unfoldable pub insert_at : ℕ → OrdEntry Val → List (OrdEntry Val) → List (OrdEntry Val)
  insert_at i e ord = take i ord ++ e ∷ drop i ord

  -- The first position whose entry is not below `e`.
  unfoldable pub ord_position : OrdEntry Val → List (OrdEntry Val) → ℕ
  unfolding search
  ord_position e ord =
      search (length ord)
        (λ i. elim (get_elem? ord i) [ none ↦ true | some d ↦ not (ord_less d e) ])

  unfoldable pub ord_add : OrdEntry Val → Index Val → Index Val
  unfolding insert_at ord_position
  ord_add e idx =
      if idx.ord_dirty
      then record idx { ord = idx.ord ++ e ∷ [] }
      else record idx { ord = insert_at (ord_position e idx.ord) e idx.ord }

  unfoldable pub drop_first : Bytes → List (OrdEntry Val) → List (OrdEntry Val)
  drop_first k [] = []
  drop_first k (d ∷ ord) = if bytes_eq d.key k then ord else d ∷ drop_first k ord

  unfoldable pub ord_remove : OrdEntry Val → Index Val → Index Val
  unfolding ord_position drop_first
  ord_remove e idx =
      if idx.ord_dirty
      then record idx { ord = drop_first e.key idx.ord }
      else let i = ord_position e idx.ord in
        let here : Bool = elim (get_elem? idx.ord i) [
          | none ↦ false
          | some d ↦ bytes_eq d.key e.key
        ] in
        if here
        then record idx { ord = take i idx.ord ++ drop (i + 1) idx.ord }
        else record idx { ord = drop_first e.key idx.ord }

  unfoldable pub add_key : Bytes → Val → Bytes → Index Val → Index Val
  add_key k v id idx =
      let e : OrdEntry Val = record { val = v; key = k } in
      if idx.is_unique
      then (let grown = if is_some (lookup k idx.unique) then idx else ord_add e idx in
          record grown { unique = put k id idx.unique; matrix = none })
      else (let grown = if is_some (lookup k idx.entries) then idx else ord_add e idx in
          record grown {
            entries = put k (add id (get_set k idx.entries)) idx.entries;
            matrix = none;
          })

  unfoldable pub remove_key : Bytes → Val → Bytes → Index Val → Index Val
  remove_key k v id idx =
      let e : OrdEntry Val = record { val = v; key = k } in
      let bare = record idx { matrix = none } in
      if idx.is_unique
      then elim (lookup k idx.unique) [
        | none ↦ bare
        | some owner ↦
            if bytes_eq owner id
            then record (ord_remove e bare) { unique = remove k idx.unique }
            else bare
      ]
      else elim (lookup k idx.entries) [
        | none ↦ bare
        | some s ↦
            if is_empty (discard id s)
            then record (ord_remove e bare) { entries = remove k idx.entries }
            else record bare { entries = put k (discard id s) idx.entries }
      ]

  unfoldable pub add_keys : List (Bytes × Val) → Bytes → Index Val → Index Val
  add_keys [] id idx = idx
  add_keys ((k, v) ∷ rows) id idx = add_keys rows id (add_key k v id idx)

  -- addDoc: all keys, or ErrDuplicate and none.
  unfoldable pub add_doc : List (Bytes × Val) → Bytes → Index Val → Result (Index Val)
  add_doc rows id idx =
      if conflicts idx id (distinct_rows [] rows)
      then err DbError.duplicate
      else ok (add_keys (distinct_rows [] rows) id idx)

  unfoldable pub remove_doc : List (Bytes × Val) → Bytes → Index Val → Index Val
  remove_doc [] id idx = idx
  remove_doc ((k, v) ∷ rows) id idx = remove_doc rows id (remove_key k v id idx)
