-- ===== src/Store/Writes/Kept.antt =====
-- Every index of a collection has every document under exactly the keys that its stored version
-- has.
use mlstore_db.Prelude.{
  ◌≡◌, refl, sym, ap, ◌∙◌, subst, false, Option, none, some, List, [], ◌∷◌, arith, if◌then◌else◌,
  ok, err, DbError, Option-cases, Bool-cases, inl, inr,
}
use mlstore_db.Prelude.Bytes.{Bytes, bytes_eq, bytes_eq_iff}
use mlstore_db.Prelude.Maps.{lookup, put, remove, lookup-put, lookup-remove}
use mlstore_db.Index.{Index}
use mlstore_db.Store.Indexes.{apply_indexes}
use mlstore_db.Store.Indexes.Rollback.{AllSame, AllTrack, apply_indexes-rollback}
use mlstore_db.Store.Indexes.Moved.{AllMoved, apply_indexes-AllMoved}
use mlstore_db.Store.Writes.{
  DocEntry, Collection, Store, DocOps, load_entry, mark_dirty, note_edge_mutation, index_and_store,
  set_coll, mutated_entry,
}

-- What loading an entry gives; `none` if it fails.
abbrev pub doc_of : {Doc : Type 0} → DocEntry Doc → Option Doc
doc_of e = elim ((load_entry e).0) [ ok d ↦ some d | err x ↦ none ]

abbrev pub doc_at : {Doc Val : Type 0} → Bytes → Collection Doc Val → Option Doc
doc_at id c = elim (lookup id c.entries) [ none ↦ none | some e ↦ doc_of e ]

pub doc_of_load : {Doc : Type 0} (e : DocEntry Doc) → doc_of (load_entry e).1 ≡ doc_of e
unfolding load_entry
doc_of_load e = ground arith

module _ {Doc Val : Type 0} where
  pub collections-mark_dirty : (s : Store Doc Val) → (mark_dirty s).collections ≡ s.collections
  unfolding mark_dirty
  collections-mark_dirty s = ground arith

  pub collections-note_edge_mutation :
      (name : Bytes) (s : Store Doc Val) → (note_edge_mutation name s).collections ≡ s.collections
  unfolding note_edge_mutation
  collections-note_edge_mutation name s = ground arith

module _ {Doc Val : Type 0} (ops : DocOps Doc Val) where
  abbrev pub IsIndexed : Collection Doc Val → Type 0
  IsIndexed c = (id : Bytes) → AllTrack ops.ord_less ops.rows_of (doc_at id c) id c.indexes

  abbrev pub AllIndexed : List (Bytes × Collection Doc Val) → Type 0
  AllIndexed cs = (name : Bytes) (c : Collection Doc Val) → lookup name cs ≡ some c → IsIndexed c

  same_lem :
      (old : Option Doc) (id : Bytes) (bs as_ : List (Index Val))
      → AllSame bs as_
      → AllTrack ops.ord_less ops.rows_of old id as_
      → AllTrack ops.ord_less ops.rows_of old id bs
  same_lem old id [] [] h t = tt
  same_lem old id [] (a ∷ as_) h t = elim h [ ]
  same_lem old id (b ∷ bs) [] h t = elim h [ ]
  same_lem old id (b ∷ bs) (a ∷ as_) h t =
      ((λ j. ground (arith, h.0.0, h.0.1 j id, t.0 j)), same_lem old id bs as_ h.1 t.1)

  moved_other :
      (doc : Doc) (id w : Bytes) (old : Option Doc) (bs as_ : List (Index Val))
      → bytes_eq id w ≡ false
      → AllMoved ops.ord_less ops.rows_of doc id bs as_
      → AllTrack ops.ord_less ops.rows_of old w as_
      → AllTrack ops.ord_less ops.rows_of old w bs
  moved_other doc id w old [] [] o h t = tt
  moved_other doc id w old [] (a ∷ as_) o h t = elim h [ ]
  moved_other doc id w old (b ∷ bs) [] o h t = elim h [ ]
  moved_other doc id w old (b ∷ bs) (a ∷ as_) o h t =
      ((λ j. ground (arith, o, h.0.0, h.0.1 j w, t.0 j)), moved_other doc id w old bs as_ o h.1 t.1)

  moved_own :
      (doc : Doc) (id : Bytes) (bs as_ : List (Index Val))
      → AllMoved ops.ord_less ops.rows_of doc id bs as_
      → AllTrack ops.ord_less ops.rows_of (some doc) id bs
  moved_own doc id [] [] h = tt
  moved_own doc id [] (a ∷ as_) h = elim h [ ]
  moved_own doc id (b ∷ bs) [] h = elim h [ ]
  moved_own doc id (b ∷ bs) (a ∷ as_) h =
      ((λ j. ground (arith, h.0.0, h.0.1 j id, bytes_eq_iff id id)), moved_own doc id bs as_ h.1)

  pub doc_at-put :
      (id w : Bytes) (e : DocEntry Doc) (c : Collection Doc Val)
      → doc_at w (record c { entries = put id e c.entries })
        ≡ (if bytes_eq id w then doc_of e else doc_at w c)
  doc_at-put id w e c = ground (arith, lookup-put id w e c.entries)

  pub doc_at-remove :
      (id w : Bytes) (c : Collection Doc Val)
      → doc_at w (record c { entries = remove id c.entries })
        ≡ (if bytes_eq id w then none else doc_at w c)
  doc_at-remove id w c = ground (arith, lookup-remove id w c.entries)

  pub set_coll_lem :
      (name : Bytes) (c : Collection Doc Val) (cs : List (Bytes × Collection Doc Val))
      → IsIndexed c
      → AllIndexed cs
      → AllIndexed (put name c cs)
  set_coll_lem name c cs h k other d e = elim (Bool-cases (bytes_eq name other)) [
    | inl same ↦
        let it : c ≡ d = ground (arith, same, lookup-put name other c cs, e) in subst IsIndexed it h
    | inr apart ↦ k other d (ground (arith, apart, lookup-put name other c cs, e))
  ]

  -- The entry of a loaded document is the same document.
  pub load_lem :
      (id : Bytes) (e : DocEntry Doc) (c : Collection Doc Val)
      → lookup id c.entries ≡ some e
      → IsIndexed c
      → IsIndexed (record c { entries = put id (load_entry e).1 c.entries })
  load_lem id e c q h w =
      let same : doc_at w (record c { entries = put id (load_entry e).1 c.entries }) ≡ doc_at w c =
        ground (arith, doc_at-put id w (load_entry e).1 c, doc_of_load e, q, bytes_eq_iff id w) in
      subst (λ o. AllTrack ops.ord_less ops.rows_of o w c.indexes) (sym same) (h w)

  stored-IsIndexed :
      (id : Bytes) (doc : Doc) (e : DocEntry Doc) (c : Collection Doc Val) (idxs : List (Index Val))
      → doc_of e ≡ some doc
      → AllMoved ops.ord_less ops.rows_of doc id idxs c.indexes
      → IsIndexed c
      → IsIndexed (record c { entries = put id e c.entries; indexes = idxs })
  stored-IsIndexed id doc e c idxs d m h w = elim (Bool-cases (bytes_eq id w)) [
    | inl same ↦
        let here : doc_at w (record c { entries = put id e c.entries }) ≡ some doc =
          ground (arith, same, doc_at-put id w e c, d) in
        subst (λ o. AllTrack ops.ord_less ops.rows_of o w idxs) (sym here)
          (subst (λ v. AllTrack ops.ord_less ops.rows_of (some doc) v idxs)
            ((bytes_eq_iff id w).0 same) (moved_own doc id idxs c.indexes m))
    | inr apart ↦
        let there : doc_at w (record c { entries = put id e c.entries }) ≡ doc_at w c =
          ground (arith, apart, doc_at-put id w e c) in
        subst (λ o. AllTrack ops.ord_less ops.rows_of o w idxs) (sym there)
          (moved_other doc id w (doc_at w c) idxs c.indexes apart m (h w))
  ]

  refused-IsIndexed :
      (c : Collection Doc Val) (idxs : List (Index Val))
      → AllSame idxs c.indexes
      → IsIndexed c
      → IsIndexed (record c { indexes = idxs })
  refused-IsIndexed c idxs m h w = same_lem (doc_at w c) w idxs c.indexes m (h w)

  pub doc_of_marked : (s : Store Doc Val) (e : DocEntry Doc) → doc_of (mutated_entry s e) ≡ doc_of e
  unfolding load_entry
  doc_of_marked s e = ground arith

  module _ (name id : Bytes) (old : Option Doc) (doc : Doc) (e : DocEntry Doc)
      (c : Collection Doc Val) (s : Store Doc Val) where
    abbrev pub applied : List (Index Val) × Option DbError
    applied = apply_indexes ops.ord_less ops.rows_of old doc id c.indexes

    pub collections_accepted :
        applied.1 ≡ none
        → (index_and_store ops name id old doc e c s).1.collections
          ≡ put name
              (record { entries = put id (mutated_entry s e) c.entries; indexes = applied.0 })
              s.collections
    unfolding index_and_store
    collections_accepted q =
        let c' : Collection Doc Val = record {
          entries = put id (mutated_entry s e) c.entries;
          indexes = applied.0;
        } in
        rw (index_and_store, q)
          (collections-note_edge_mutation name (set_coll name c' (mark_dirty s))
            ∙ ap (put name c') (collections-mark_dirty s))

    pub collections_refused :
        (x : DbError)
        → applied.1 ≡ some x
        → (index_and_store ops name id old doc e c s).1.collections
          ≡ put name (record c { indexes = applied.0 }) s.collections
    unfolding index_and_store
    collections_refused x q = rw (index_and_store, q) refl

    pub result_accepted : applied.1 ≡ none → (index_and_store ops name id old doc e c s).0 ≡ none
    unfolding index_and_store
    result_accepted q = rw (index_and_store, q) refl

    pub result_refused :
        (x : DbError) → applied.1 ≡ some x → (index_and_store ops name id old doc e c s).0 ≡ some x
    unfolding index_and_store
    result_refused x q = rw (index_and_store, q) refl

    pub index_and_store-AllIndexed :
        doc_of e ≡ some doc
        → old ≡ doc_at id c
        → IsIndexed c
        → AllIndexed s.collections
        → AllIndexed (index_and_store ops name id old doc e c s).1.collections
    index_and_store-AllIndexed d o h k =
        let tracked : AllTrack ops.ord_less ops.rows_of old id c.indexes =
          subst (λ v. AllTrack ops.ord_less ops.rows_of v id c.indexes) (sym o) (h id) in
        elim (Option-cases applied.1) [
          | inl q ↦
              let c' : Collection Doc Val = record {
                entries = put id (mutated_entry s e) c.entries;
                indexes = applied.0;
              } in
              subst AllIndexed (sym (collections_accepted q)) (
                set_coll_lem name c' s.collections
                  (stored-IsIndexed id doc (mutated_entry s e) c applied.0 (doc_of_marked s e ∙ d)
                    (apply_indexes-AllMoved ops.ord_less ops.rows_of old doc id c.indexes tracked q)
                    h)
                  k)
          | inr (x, q) ↦ subst AllIndexed (sym (collections_refused x q)) (
              set_coll_lem name (record c { indexes = applied.0 }) s.collections
                (refused-IsIndexed c applied.0
                  (apply_indexes-rollback ops.ord_less ops.rows_of old doc id c.indexes x tracked q)
                  h)
                k)
        ]
