-- ===== src/Store/Writes/Effect.antt =====
-- What a write does to the documents, as a map from collection and id: the one that it names
-- changes if the write is accepted, and nothing else.
use mlstore_db.Prelude.{
  ◌≡◌, refl, ap, ◌∙◌, Bool, true, false, ◌&&◌, Option, none, some, List, arith, if◌then◌else◌,
  DbError, Option-cases, Bool-cases, inl, inr,
}
use mlstore_db.Prelude.Bytes.{Bytes, bytes_eq, bytes_eq_iff}
use mlstore_db.Prelude.Maps.{lookup, put, lookup-put}
use mlstore_db.Store.Writes.{DocEntry, Collection, Store, DocOps, index_and_store, mutated_entry}
use mlstore_db.Store.Writes.Kept.{
  doc_of, doc_at, doc_of_marked, doc_at-put, collections_accepted, collections_refused, applied,
}
use mlstore_db.Store.Writes.Kept.{result_accepted, result_refused}

-- The document under an id of a collection, as far as it can be loaded.
unfoldable pub documents :
    {Doc Val : Type 0} → List (Bytes × Collection Doc Val) → Bytes → Bytes → Option Doc
documents cs n i = elim (lookup n cs) [ none ↦ none | some c ↦ doc_at i c ]

abbrev pub is_accepted : Option DbError → Bool
is_accepted none = true
is_accepted (some x) = false

-- The map with the document at one place replaced.
abbrev pub replaced :
    {Doc : Type 0}
    → (Bytes → Bytes → Option Doc)
    → Bytes
    → Bytes
    → Option Doc
    → Bytes
    → Bytes
    → Option Doc
replaced m name id d n i = if bytes_eq name n && bytes_eq id i then d else m n i

-- What a write with that result may do: replace the document at one place if it is accepted.
abbrev pub Effect :
    {Doc Val : Type 0}
    → Option DbError × Store Doc Val
    → Store Doc Val
    → Bytes
    → Bytes
    → Option Doc
    → Type 0
Effect after before name id d =
    (n i : Bytes)
    → documents after.1.collections n i ≡ (
        if is_accepted after.0
        then replaced (documents before.collections) name id d n i
        else documents before.collections n i)

module _ {Doc Val : Type 0} where
  documents-put :
      (name n i : Bytes) (c : Collection Doc Val) (cs : List (Bytes × Collection Doc Val))
      → documents (put name c cs) n i ≡ (if bytes_eq name n then doc_at i c else documents cs n i)
  unfolding documents
  documents-put name n i c cs = ground (arith, lookup-put name n c cs)

  -- A collection that has the documents that the store has under that name.
  abbrev pub IsAt : Bytes → Collection Doc Val → List (Bytes × Collection Doc Val) → Type 0
  IsAt name c cs = (i : Bytes) → doc_at i c ≡ documents cs name i

  pub put-same :
      (name : Bytes) (c : Collection Doc Val) (cs : List (Bytes × Collection Doc Val))
      → IsAt name c cs
      → (n i : Bytes) → documents (put name c cs) n i ≡ documents cs n i
  put-same name c cs at n i = elim (Bool-cases (bytes_eq name n)) [
    | inl same ↦
        documents-put name n i c cs
        ∙ rw same (at i ∙ ap (λ v. documents cs v i) ((bytes_eq_iff name n).0 same))
    | inr apart ↦ documents-put name n i c cs ∙ rw apart refl
  ]

  pub put-replaced :
      (name id : Bytes) (d : Option Doc) (c : Collection Doc Val)
      (cs : List (Bytes × Collection Doc Val))
      → ((i : Bytes) → doc_at i c ≡ (if bytes_eq id i then d else documents cs name i))
      → (n i : Bytes) → documents (put name c cs) n i ≡ replaced (documents cs) name id d n i
  put-replaced name id d c cs at n i = elim (Bool-cases (bytes_eq name n)) [
    | inl same ↦
        let there : documents cs name i ≡ documents cs n i =
          ap (λ v. documents cs v i) ((bytes_eq_iff name n).0 same) in
        ground (arith, same, there, at i, documents-put name n i c cs)
    | inr apart ↦ ground (arith, apart, documents-put name n i c cs)
  ]

module _ {Doc Val : Type 0} (ops : DocOps Doc Val) where
  pub index_and_store-Effect :
      (name id : Bytes) (old : Option Doc) (doc : Doc) (e : DocEntry Doc) (c : Collection Doc Val)
      (s : Store Doc Val)
      → doc_of e ≡ some doc
      → IsAt name c s.collections
      → Effect (index_and_store ops name id old doc e c s) s name id (some doc)
  index_and_store-Effect name id old doc e c s d at n i =
      let result = applied ops name id old doc e c s in
      elim (Option-cases result.1) [
        | inl q ↦
            let c' : Collection Doc Val = record {
              entries = put id (mutated_entry s e) c.entries;
              indexes = result.0;
            } in
            rw
              (
                result_accepted ops name id old doc e c s q,
                collections_accepted ops name id old doc e c s q,
              )
              (put-replaced name id (some doc) c' s.collections
                (λ j. ground (
                  arith,
                  doc_at-put ops id j (mutated_entry s e) c,
                  doc_of_marked ops s e,
                  d,
                  at j,
                ))
                n i)
        | inr (x, q) ↦
            rw
              (
                result_refused ops name id old doc e c s x q,
                collections_refused ops name id old doc e c s x q,
              )
              (put-same name (record c { indexes = result.0 }) s.collections at n i)
      ]
