-- ===== src/Index/Docs.antt =====
-- addDoc and removeDoc of db/index.go: what an index holds before and after.
use mlstore_db.Prelude.{
  ◌≡◌, refl, Bool, true, false, not, ◌&&◌, ◌||◌, List, [], ◌∷◌, arith, if◌then◌else◌, ok,
  Bool-cases, inl, inr,
}
use mlstore_db.Prelude.Bytes.{Bytes, bytes_eq, bytes_eq_iff}
use mlstore_db.Prelude.Maps.{contains, bytes_eq_refl}
use mlstore_db.Index.{
  Index, OrdEntry, add_key, add_keys, add_doc, remove_key, remove_doc, distinct_rows, conflicts,
}
use mlstore_db.Index.Holds.{
  holds, has_key, unique_owner, owner_holds, SameDef, add_key-SameDef, remove_key-SameDef,
  lookup-add_key, holds-add_key, holds-remove_key,
}

has_key-distinct_rows :
    {Val : Type 0} (seen : List Bytes) (rows : List (Bytes × Val)) (k : Bytes)
    → has_key (distinct_rows seen rows) k ≡ (not (contains seen k) && has_key rows k)
unfolding has_key distinct_rows contains
has_key-distinct_rows seen [] k = ground arith
has_key-distinct_rows seen ((j, v) ∷ rows) k = ground (
  arith,
  bytes_eq_iff j k,
  has_key-distinct_rows seen rows k,
  has_key-distinct_rows (j ∷ seen) rows k,
)

module _ {Val : Type 0} (ord_less : OrdEntry Val → OrdEntry Val → Bool) where
  conflicts-add_key :
      (rows : List (Bytes × Val)) (k : Bytes) (v : Val) (id : Bytes) (idx : Index Val)
      → conflicts idx id rows ≡ false
      → conflicts (add_key ord_less k v id idx) id rows ≡ false
  unfolding conflicts
  conflicts-add_key [] k v id idx h = refl
  conflicts-add_key ((j, u) ∷ rows) k v id idx h = ground (
    arith,
    add_key-SameDef ord_less k v id idx,
    lookup-add_key ord_less k v id idx j,
    bytes_eq_refl id,
    conflicts-add_key rows k v id idx,
  )

  -- Without a conflict an index holds what it held, and the document under its keys.
  holds-add_keys :
      (rows : List (Bytes × Val)) (id : Bytes) (idx : Index Val) (j w : Bytes)
      → conflicts idx id rows ≡ false
      → holds (add_keys ord_less rows id idx) j w
        ≡ ((has_key rows j && bytes_eq id w) || holds idx j w)
  unfolding add_keys has_key conflicts
  holds-add_keys [] id idx j w h = refl
  holds-add_keys ((k, v) ∷ rows) id idx j w h = ground (
    arith,
    conflicts-add_key rows k v id idx,
    holds-add_keys rows id (add_key ord_less k v id idx) j w,
    holds-add_key ord_less k v id idx j w,
    unique_owner k id idx w,
    bytes_eq_iff k j,
    bytes_eq_iff id w,
  )

  add_keys-SameDef :
      (rows : List (Bytes × Val)) (id : Bytes) (idx : Index Val)
      → SameDef (add_keys ord_less rows id idx) idx
  unfolding add_keys
  add_keys-SameDef [] id idx = (refl, refl)
  add_keys-SameDef ((k, v) ∷ rows) id idx = ground (
    arith,
    add_keys-SameDef rows id (add_key ord_less k v id idx),
    add_key-SameDef ord_less k v id idx,
  )

  pub remove_doc-SameDef :
      (rows : List (Bytes × Val)) (id : Bytes) (idx : Index Val)
      → SameDef (remove_doc ord_less rows id idx) idx
  unfolding remove_doc
  remove_doc-SameDef [] id idx = (refl, refl)
  remove_doc-SameDef ((k, v) ∷ rows) id idx = ground (
    arith,
    remove_doc-SameDef rows id (remove_key ord_less k v id idx),
    remove_key-SameDef ord_less k v id idx,
  )

  -- After removeDoc the document is under none of its keys; all else stays.
  pub holds-remove_doc :
      (rows : List (Bytes × Val)) (id : Bytes) (idx : Index Val) (j w : Bytes)
      → holds (remove_doc ord_less rows id idx) j w
        ≡ (if has_key rows j && bytes_eq id w then false else holds idx j w)
  unfolding remove_doc has_key
  holds-remove_doc [] id idx j w = refl
  holds-remove_doc ((k, v) ∷ rows) id idx j w = ground (
    arith,
    holds-remove_doc rows id (remove_key ord_less k v id idx) j w,
    holds-remove_key ord_less k v id idx j w,
  )

  -- A successful addDoc puts the document under its keys, and changes nothing else.
  pub add_doc_cases :
      (rows : List (Bytes × Val)) (id : Bytes) (idx idx' : Index Val)
      → add_doc ord_less rows id idx ≡ ok idx'
      → SameDef idx' idx
        × ((j w : Bytes) → holds idx' j w ≡ ((has_key rows j && bytes_eq id w) || holds idx j w))
  unfolding add_doc contains
  add_doc_cases rows id idx idx' h = elim (Bool-cases (conflicts idx id (distinct_rows [] rows))) [
    | inl clash ↦ absurd (ground (arith, clash))
    | inr free ↦
        let same : idx' ≡ add_keys ord_less (distinct_rows [] rows) id idx = ground (arith, free) in
        rw same (
          add_keys-SameDef (distinct_rows [] rows) id idx,
          λ j w. ground (
            arith,
            holds-add_keys (distinct_rows [] rows) id idx j w free,
            has_key-distinct_rows [] rows j,
          ),
        )
  ]

  conflicts_free :
      (rows : List (Bytes × Val)) (id : Bytes) (idx : Index Val)
      → ((k w : Bytes)
          → idx.is_unique ≡ true
          → has_key rows k ≡ true
          → holds idx k w ≡ true
          → id ≡ w)
      → conflicts idx id rows ≡ false
  unfolding conflicts has_key contains
  conflicts_free [] id idx h = refl
  conflicts_free ((k, v) ∷ rows) id idx h = ground (
    arith,
    bytes_eq_refl k,
    owner_holds k id idx (λ w u. h k w u (ground (arith, bytes_eq_refl k))),
    conflicts_free rows id idx (λ j w u e. h j w u (ground arith)),
  )

  -- addDoc succeeds if no other document is under any of the keys.
  pub add_doc-succeeds :
      (rows : List (Bytes × Val)) (id : Bytes) (idx : Index Val)
      → ((k w : Bytes)
          → idx.is_unique ≡ true
          → has_key rows k ≡ true
          → holds idx k w ≡ true
          → id ≡ w)
      → (idx' : Index Val) × (add_doc ord_less rows id idx ≡ ok idx')
  unfolding add_doc contains
  add_doc-succeeds rows id idx h = (
    add_keys ord_less (distinct_rows [] rows) id idx,
    rw (
        conflicts_free (distinct_rows [] rows) id idx
          (λ k w u e. h k w u (ground (arith, has_key-distinct_rows [] rows k)))),
  )
