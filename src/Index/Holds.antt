-- ===== src/Index/Holds.antt =====
-- What an index holds: a document under a key. The laws of addKey, removeKey, addDoc, removeDoc.
use mlstore_db.Prelude.{
  ◌≡◌, refl, Bool, true, false, ◌&&◌, ◌||◌, Option, none, some, List, [], ◌∷◌, arith, if◌then◌else◌,
}
use mlstore_db.Prelude.Bytes.{Bytes, bytes_eq, bytes_eq_iff}
use mlstore_db.Prelude.Maps.{
  get_set, lookup, contains, add, discard, lookup-put, lookup-remove, contains-add,
  contains-discard,
}
use mlstore_db.Index.{
  Index, OrdEntry, is_empty, taken_by_other, add_key, remove_key, ord_add, ord_remove, lookup_ids,
}

-- A lookup of the key returns the document.
unfoldable pub holds : {Val : Type 0} → Index Val → Bytes → Bytes → Bool
unfolding lookup_ids
holds idx k id = contains (lookup_ids k idx) id

-- The rows have the key.
unfoldable pub has_key : {Val : Type 0} → List (Bytes × Val) → Bytes → Bool
has_key [] k = false
has_key ((j, v) ∷ rows) k = bytes_eq j k || has_key rows k

-- The definition of an index: its fields, and whether it is unique.
abbrev pub SameDef : {Val : Type 0} → Index Val → Index Val → Type 0
SameDef a b = (a.is_unique ≡ b.is_unique) × (a.fields ≡ b.fields)

pub contains_of_empty : (s : List Bytes) (w : Bytes) → is_empty s ≡ true → contains s w ≡ false
unfolding contains
contains_of_empty [] w h = refl
contains_of_empty (a ∷ s) w h = cc

abbrev owner_or : Option Bytes → Bytes
owner_or none = []
owner_or (some o) = o

-- A unique key that no other document has is held by this one alone.
pub unique_owner :
    {Val : Type 0} (k id : Bytes) (idx : Index Val) (w : Bytes)
    → (idx.is_unique && taken_by_other (lookup k idx.unique) id) ≡ false
    → idx.is_unique ≡ true
    → holds idx k w ≡ true
    → id ≡ w
unfolding holds contains
unique_owner k id idx w free u h = ground (
  arith,
  bytes_eq_iff (owner_or (lookup k idx.unique)) id,
  bytes_eq_iff (owner_or (lookup k idx.unique)) w,
)

-- A unique key holds one document at most.
pub unique_single :
    {Val : Type 0} (k a b : Bytes) (idx : Index Val)
    → idx.is_unique ≡ true
    → holds idx k a ≡ true
    → holds idx k b ≡ true
    → a ≡ b
unfolding holds contains
unique_single k a b idx u ha hb = ground (
  arith,
  bytes_eq_iff (owner_or (lookup k idx.unique)) a,
  bytes_eq_iff (owner_or (lookup k idx.unique)) b,
)

-- If nobody else holds the key, no other document has it.
pub owner_holds :
    {Val : Type 0} (k id : Bytes) (idx : Index Val)
    → ((w : Bytes) → idx.is_unique ≡ true → holds idx k w ≡ true → id ≡ w)
    → (idx.is_unique && taken_by_other (lookup k idx.unique) id) ≡ false
unfolding holds contains
owner_holds k id idx h =
    let o = owner_or (lookup k idx.unique) in
    ground (arith, h o, bytes_eq_iff o id, bytes_eq_iff o o)

module _ {Val : Type 0} (ord_less : OrdEntry Val → OrdEntry Val → Bool) where
  -- The order slice does not touch the maps.
  ord_add_maps :
      (e : OrdEntry Val) (idx : Index Val)
      → ((ord_add ord_less e idx).is_unique ≡ idx.is_unique)
        × ((ord_add ord_less e idx).entries ≡ idx.entries)
        × ((ord_add ord_less e idx).unique ≡ idx.unique)
        × ((ord_add ord_less e idx).fields ≡ idx.fields)
  unfolding ord_add
  ord_add_maps e idx = ground arith

  ord_remove_maps :
      (e : OrdEntry Val) (idx : Index Val)
      → ((ord_remove ord_less e idx).is_unique ≡ idx.is_unique)
        × ((ord_remove ord_less e idx).entries ≡ idx.entries)
        × ((ord_remove ord_less e idx).unique ≡ idx.unique)
        × ((ord_remove ord_less e idx).fields ≡ idx.fields)
  unfolding ord_remove
  ord_remove_maps e idx = ground arith

  pub add_key-SameDef :
      (k : Bytes) (v : Val) (id : Bytes) (idx : Index Val)
      → SameDef (add_key ord_less k v id idx) idx
  unfolding add_key
  add_key-SameDef k v id idx = ground (arith, ord_add_maps (record { val = v; key = k }) idx)

  pub remove_key-SameDef :
      (k : Bytes) (v : Val) (id : Bytes) (idx : Index Val)
      → SameDef (remove_key ord_less k v id idx) idx
  unfolding remove_key
  remove_key-SameDef k v id idx =
      ground (arith, ord_remove_maps (record { val = v; key = k }) (record idx { matrix = none }))

  -- The owners of the unique keys after an addition.
  pub lookup-add_key :
      (k : Bytes) (v : Val) (id : Bytes) (idx : Index Val) (j : Bytes)
      → idx.is_unique ≡ true
      → lookup j (add_key ord_less k v id idx).unique
        ≡ (if bytes_eq k j then some id else lookup j idx.unique)
  unfolding add_key
  lookup-add_key k v id idx j u = ground (arith, lookup-put k j id idx.unique)

  -- A unique key has the new owner alone; another key gets one more document.
  pub holds-add_key :
      (k : Bytes) (v : Val) (id : Bytes) (idx : Index Val) (j w : Bytes)
      → holds (add_key ord_less k v id idx) j w ≡ (
          if bytes_eq k j
          then (if idx.is_unique then bytes_eq id w else bytes_eq id w || holds idx j w)
          else holds idx j w)
  unfolding add_key holds contains
  holds-add_key k v id idx j w = ground (
    arith,
    ord_add_maps (record { val = v; key = k }) idx,
    lookup-put k j id idx.unique,
    lookup-put k j (add id (get_set k idx.entries)) idx.entries,
    contains-add (get_set k idx.entries) id w,
    bytes_eq_iff k j,
  )

  pub holds-remove_key :
      (k : Bytes) (v : Val) (id : Bytes) (idx : Index Val) (j w : Bytes)
      → holds (remove_key ord_less k v id idx) j w
        ≡ (if bytes_eq k j && bytes_eq id w then false else holds idx j w)
  unfolding remove_key holds contains
  holds-remove_key k v id idx j w =
      let owner = owner_or (lookup k idx.unique) in
      ground (
        arith,
        ord_remove_maps (record { val = v; key = k }) (record idx { matrix = none }),
        lookup-remove k j idx.unique,
        lookup-remove k j idx.entries,
        lookup-put k j (discard id (get_set k idx.entries)) idx.entries,
        contains-discard (get_set k idx.entries) id w,
        contains_of_empty (discard id (get_set k idx.entries)) w,
        bytes_eq_iff k j,
        bytes_eq_iff id w,
        bytes_eq_iff owner id,
        bytes_eq_iff owner w,
      )
