-- ===== src/Store/Writes/Stored.antt =====
-- The writes that store a document leave every collection indexed.
use mlstore_db.Prelude.{
  ◌≡◌, refl, ◌∙◌, subst, Option, none, some, List, arith, DbError, Option-cases, Result-cases, inl,
  inr,
}
use mlstore_db.Prelude.Bytes.{Bytes}
use mlstore_db.Prelude.Maps.{lookup, put, lookup-put, bytes_eq_refl}
use mlstore_db.Store.Writes.{
  DocEntry, Collection, Store, DocOps, load_entry, coll_or_new, new_doc_entry, new_collection,
  insert_apply, upsert_apply, update_apply,
}
use mlstore_db.Store.Writes.Kept.{
  doc_of, doc_at, IsIndexed, doc_of_load, AllIndexed, set_coll_lem, load_lem,
  index_and_store-AllIndexed,
}

-- The entry with the new document, whatever it was.
pub doc_of_stored :
    {Doc : Type 0} (e : DocEntry Doc) (doc : Doc)
    → doc_of (record e { resident = some doc }) ≡ some doc
unfolding load_entry
doc_of_stored e doc = refl

module _ {Doc Val : Type 0} (ops : DocOps Doc Val) where
  -- The collection that a write finds or makes.
  coll-IsIndexed :
      (name : Bytes) (s : Store Doc Val)
      → AllIndexed ops s.collections
      → IsIndexed ops (coll_or_new name s)
  unfolding lookup
  coll-IsIndexed name s h = elim (Option-cases (lookup name s.collections)) [
    | inl q ↦
        let new : new_collection {Doc = Doc} {Val = Val} ≡ coll_or_new name s = ground (arith, q) in
        subst (IsIndexed ops) new (λ w. tt)
    | inr (c, q) ↦
        let found : c ≡ coll_or_new name s = ground (arith, q) in
        subst (IsIndexed ops) found (h name c q)
  ]

  doc_at-none :
      (id : Bytes) (c : Collection Doc Val) → lookup id c.entries ≡ none → none ≡ doc_at id c
  doc_at-none id c q = ground (arith, q)

  pub insert-AllIndexed :
      (denied : Option DbError) (name id : Bytes) (doc : Doc) (s : Store Doc Val)
      → AllIndexed ops s.collections
      → AllIndexed ops (insert_apply ops denied name id doc s).1.collections
  unfolding insert_apply load_entry
  insert-AllIndexed (some x) name id doc s h = h
  insert-AllIndexed none name id doc s h =
      let c = coll_or_new name s in
      elim (Option-cases (lookup id c.entries)) [
        | inl q ↦
            rw (q, insert_apply)
              (index_and_store-AllIndexed ops name id none doc (new_doc_entry doc) c s refl
                (doc_at-none id c q) (coll-IsIndexed name s h) h)
        | inr (e, q) ↦
            rw (q, insert_apply) (set_coll_lem ops name c s.collections (coll-IsIndexed name s h) h)
      ]

  -- Loading changes no document of the collection.
  doc_at_loaded :
      (id : Bytes) (e : DocEntry Doc) (c : Collection Doc Val)
      → lookup id c.entries ≡ some e
      → doc_of e ≡ doc_at id (record c { entries = put id (load_entry e).1 c.entries })
  doc_at_loaded id e c q =
      ground (arith, doc_of_load e, lookup-put id id (load_entry e).1 c.entries, bytes_eq_refl id)

  pub upsert-AllIndexed :
      (denied : Option DbError) (name id : Bytes) (doc : Doc) (s : Store Doc Val)
      → AllIndexed ops s.collections
      → AllIndexed ops (upsert_apply ops denied name id doc s).1.collections
  unfolding upsert_apply
  upsert-AllIndexed (some x) name id doc s h = h
  upsert-AllIndexed none name id doc s h =
      let c = coll_or_new name s in
      let stored = ops.set_id id doc in
      elim (Option-cases (lookup id c.entries)) [
        | inl q ↦
            rw (q, upsert_apply)
              (index_and_store-AllIndexed ops name id none stored (new_doc_entry stored) c s
                (doc_of_stored (new_doc_entry stored) stored) (doc_at-none id c q)
                (coll-IsIndexed name s h) h)
        | inr (e, q) ↦
            let c' : Collection Doc Val = record c {
              entries = put id (load_entry e).1 c.entries;
            } in
            rw (q, upsert_apply)
              (index_and_store-AllIndexed ops name id (doc_of e) stored
                (record (load_entry e).1 { resident = some stored }) c' s
                (doc_of_stored (load_entry e).1 stored) (doc_at_loaded id e c q)
                (load_lem ops id e c q (coll-IsIndexed name s h)) h)
      ]

  pub update-AllIndexed :
      (denied : Option DbError) (name id : Bytes) (patch : Doc) (removed : List Bytes)
      (s : Store Doc Val)
      → AllIndexed ops s.collections
      → AllIndexed ops (update_apply ops denied name id patch removed s).1.collections
  unfolding update_apply
  update-AllIndexed (some x) name id patch removed s h = h
  update-AllIndexed none name id patch removed s h =
      elim (Option-cases (lookup name s.collections)) [
        | inl q ↦ rw (q, update_apply) h
        | inr (c, q) ↦ elim (Option-cases (lookup id c.entries)) [
          | inl r ↦ rw (q, r, update_apply) h
          | inr (e, r) ↦
              let c' : Collection Doc Val = record c {
                entries = put id (load_entry e).1 c.entries;
              } in
              let indexed : IsIndexed ops c' = load_lem ops id e c r (h name c q) in
              let kept = set_coll_lem ops name c' s.collections indexed h in
              elim (Result-cases (load_entry e).0) [
                | inl (x, l) ↦ rw (q, r, l, update_apply) kept
                | inr (d, l) ↦
                    let next = ops.patched d patch removed in
                    elim (Option-cases (ops.size_error next)) [
                      | inr (x, z) ↦ rw (q, r, l, z, update_apply) kept
                      | inl z ↦
                          let here : some d ≡ doc_of e = ground (arith, l) in
                          rw (q, r, l, z, update_apply)
                            (index_and_store-AllIndexed ops name id (some d) next
                              (record (load_entry e).1 { resident = some next }) c' s
                              (doc_of_stored (load_entry e).1 next) (here ∙ doc_at_loaded id e c r)
                              indexed h)
                    ]
              ]
        ]
      ]
