-- ===== src/Store/Writes/Outcome.antt =====
-- The four writes refine the replacement of one document in a map.
use mlstore_db.Prelude.{
  ◌≡◌, refl, sym, subst, Option, none, some, List, map, arith, DbError, Option-cases, Bool-cases,
  Result-cases, inl, inr,
}
use mlstore_db.Prelude.Bytes.{Bytes, bytes_eq_iff}
use mlstore_db.Prelude.Maps.{lookup, put, remove}
use mlstore_db.Index.{remove_doc}
use mlstore_db.Store.Writes.{
  DocEntry, Collection, Store, DocOps, load_entry, coll_or_new, new_doc_entry, drop_entry,
  insert_apply, upsert_apply, update_apply, delete_apply, is_not_found,
}
use mlstore_db.Store.Writes.Kept.{doc_of, doc_of_load, doc_at-put, doc_at-remove}
use mlstore_db.Store.Writes.Stored.{doc_of_stored}
use mlstore_db.Store.Writes.Run.{Write, insert, upsert, update, delete, run, collections-drop_entry}
use mlstore_db.Store.Writes.Effect.{
  documents, replaced, Effect, IsAt, put-same, put-replaced, index_and_store-Effect,
}

module _ {Doc Val : Type 0} (ops : DocOps Doc Val) where
  -- The collection that a write finds or makes has the documents of the store.
  coll-IsAt : (name : Bytes) (s : Store Doc Val) → IsAt name (coll_or_new name s) s.collections
  unfolding documents lookup
  coll-IsAt name s i = ground arith

  found-IsAt :
      (name : Bytes) (c : Collection Doc Val) (cs : List (Bytes × Collection Doc Val))
      → lookup name cs ≡ some c
      → IsAt name c cs
  unfolding documents
  found-IsAt name c cs q i = ground (arith, q)

  loaded-IsAt :
      (name id : Bytes) (e : DocEntry Doc) (c : Collection Doc Val)
      (cs : List (Bytes × Collection Doc Val))
      → lookup id c.entries ≡ some e
      → IsAt name c cs
      → IsAt name (record c { entries = put id (load_entry e).1 c.entries }) cs
  loaded-IsAt name id e c cs r at i =
      ground
        (arith, doc_at-put ops id i (load_entry e).1 c, doc_of_load e, r, at i, bytes_eq_iff id i)

  pub insert-Effect :
      (denied : Option DbError) (name id : Bytes) (doc : Doc) (s : Store Doc Val)
      → Effect (insert_apply ops denied name id doc s) s name id (some doc)
  unfolding insert_apply
  insert-Effect (some x) name id doc s = λ n i. refl
  insert-Effect none name id doc s =
      let c = coll_or_new name s in
      elim (Option-cases (lookup id c.entries)) [
        | inl q ↦
            rw (q, insert_apply)
              (index_and_store-Effect ops name id none doc (new_doc_entry doc) c s
                (doc_of_stored (new_doc_entry doc) doc) (coll-IsAt name s))
        | inr (e, q) ↦ rw (q, insert_apply) (put-same name c s.collections (coll-IsAt name s))
      ]

  pub upsert-Effect :
      (denied : Option DbError) (name id : Bytes) (doc : Doc) (s : Store Doc Val)
      → Effect (upsert_apply ops denied name id doc s) s name id (some (ops.set_id id doc))
  unfolding upsert_apply
  upsert-Effect (some x) name id doc s = λ n i. refl
  upsert-Effect none name id doc s =
      let c = coll_or_new name s in
      let stored = ops.set_id id doc in
      elim (Option-cases (lookup id c.entries)) [
        | inl q ↦
            rw (q, upsert_apply)
              (index_and_store-Effect ops name id none stored (new_doc_entry stored) c s
                (doc_of_stored (new_doc_entry stored) stored) (coll-IsAt name s))
        | inr (e, q) ↦
            let c' : Collection Doc Val = record c {
              entries = put id (load_entry e).1 c.entries;
            } in
            rw (q, upsert_apply)
              (index_and_store-Effect ops name id (doc_of e) stored
                (record (load_entry e).1 { resident = some stored }) c' s
                (doc_of_stored (load_entry e).1 stored)
                (loaded-IsAt name id e c s.collections q (coll-IsAt name s)))
      ]

  -- The document that an update makes of the one that is there.
  abbrev pub updated : Doc → List Bytes → Option Doc → Option Doc
  updated patch removed none = none
  updated patch removed (some d) = some (ops.patched d patch removed)

  pub update-Effect :
      (denied : Option DbError) (name id : Bytes) (patch : Doc) (removed : List Bytes)
      (s : Store Doc Val)
      → Effect
          (update_apply ops denied name id patch removed s)
          s
          name
          id
          (updated patch removed (documents s.collections name id))
  unfolding update_apply
  update-Effect (some x) name id patch removed s = λ n i. refl
  update-Effect none name id patch removed s = elim (Option-cases (lookup name s.collections)) [
    | inl q ↦ rw (q, update_apply) (λ n i. refl)
    | inr (c, q) ↦ elim (Option-cases (lookup id c.entries)) [
      | inl r ↦ rw (q, r, update_apply) (λ n i. refl)
      | inr (e, r) ↦
          let c' : Collection Doc Val = record c { entries = put id (load_entry e).1 c.entries } in
          let at : IsAt name c' s.collections =
            loaded-IsAt name id e c s.collections r (found-IsAt name c s.collections q) in
          elim (Result-cases (load_entry e).0) [
            | inl (x, l) ↦ rw (q, r, l, update_apply) (put-same name c' s.collections at)
            | inr (d, l) ↦
                let next = ops.patched d patch removed in
                elim (Option-cases (ops.size_error next)) [
                  | inr (x, z) ↦ rw (q, r, l, z, update_apply) (put-same name c' s.collections at)
                  | inl z ↦
                      let here : some d ≡ documents s.collections name id =
                        ground (arith, l, r, found-IsAt name c s.collections q id) in
                      rw (q, r, l, z, update_apply, ← here)
                        (index_and_store-Effect ops name id (some d) next
                          (record (load_entry e).1 { resident = some next }) c' s
                          (doc_of_stored (load_entry e).1 next) at)
                ]
          ]
    ]
  ]

  drop-Effect :
      (name id : Bytes) (c : Collection Doc Val) (s : Store Doc Val)
      → IsAt name c s.collections
      → Effect (none, drop_entry name id c s) s name id none
  drop-Effect name id c s at n i =
      let c' : Collection Doc Val = record c { entries = remove id c.entries } in
      subst (λ cs. documents cs n i ≡ replaced (documents s.collections) name id none n i)
        (sym (collections-drop_entry ops name id c s))
        (put-replaced name id none c' s.collections
          (λ j. ground (arith, doc_at-remove ops id j c, at j)) n i)

  pub delete-Effect :
      (denied : Option DbError) (name id : Bytes) (s : Store Doc Val)
      → Effect (delete_apply ops denied name id s) s name id none
  unfolding delete_apply
  delete-Effect (some x) name id s = λ n i. refl
  delete-Effect none name id s = elim (Option-cases (lookup name s.collections)) [
    | inl q ↦ rw (q, delete_apply) (λ n i. refl)
    | inr (c, q) ↦ elim (Option-cases (lookup id c.entries)) [
      | inl r ↦ rw (q, r, delete_apply) (λ n i. refl)
      | inr (e, r) ↦ elim (Result-cases (load_entry e).0) [
        | inr (d, l) ↦
            let c' : Collection Doc Val = record c {
              indexes =
                  map (λ idx. remove_doc ops.ord_less (ops.rows_of idx.fields d) id idx) c.indexes;
            } in
            rw (q, r, l, delete_apply)
              (drop-Effect name id c' s (found-IsAt name c s.collections q))
        | inl (x, l) ↦ elim (Bool-cases (is_not_found x)) [
          | inl gone ↦
              rw (q, r, l, gone, delete_apply)
                (drop-Effect name id c s (found-IsAt name c s.collections q))
          | inr failed ↦ rw (q, r, l, failed, delete_apply) (λ n i. refl)
        ]
      ]
    ]
  ]

  abbrev pub coll_of : Write Doc → Bytes
  coll_of (insert denied name id doc) = name
  coll_of (upsert denied name id doc) = name
  coll_of (update denied name id patch removed) = name
  coll_of (delete denied name id) = name

  abbrev pub id_of : Write Doc → Bytes
  id_of (insert denied name id doc) = id
  id_of (upsert denied name id doc) = id
  id_of (update denied name id patch removed) = id
  id_of (delete denied name id) = id

  -- The document that an accepted write leaves at its place.
  abbrev pub outcome : Write Doc → Store Doc Val → Option Doc
  outcome (insert denied name id doc) s = some doc
  outcome (upsert denied name id doc) s = some (ops.set_id id doc)
  outcome (update denied name id patch removed) s =
      updated patch removed (documents s.collections name id)
  outcome (delete denied name id) s = none

  -- As a map from collection and id to the document that can be loaded, the store after a write is
  -- that of before, with one place replaced if the write is accepted: by the inserted document, the
  -- upserted one with its id, the one that was there with the patch applied, or nothing after a
  -- delete.
  pub run-Effect :
      (w : Write Doc) (s : Store Doc Val)
      → Effect (run ops w s) s (coll_of w) (id_of w) (outcome w s)
  run-Effect (insert denied name id doc) s = insert-Effect denied name id doc s
  run-Effect (upsert denied name id doc) s = upsert-Effect denied name id doc s
  run-Effect (update denied name id patch removed) s = update-Effect denied name id patch removed s
  run-Effect (delete denied name id) s = delete-Effect denied name id s
