-- ===== src/Store/Writes/Run.antt =====
-- The writes, one after another.
use mlstore_db.Prelude.{
  ◌≡◌, sym, ◌∙◌, subst, Option, none, some, List, [], ◌∷◌, map, arith, DbError, Option-cases,
  Bool-cases, Result-cases, inl, inr,
}
use mlstore_db.Prelude.Bytes.{Bytes}
use mlstore_db.Prelude.Maps.{lookup, put, remove}
use mlstore_db.Index.{remove_doc}
use mlstore_db.Store.Writes.{
  DocEntry, Collection, Store, DocOps, load_entry, set_coll, drop_entry, insert_apply, upsert_apply,
  update_apply, delete_apply, mark_dirty,
}
use mlstore_db.Store.Writes.Kept.{doc_of, doc_at, IsIndexed, AllIndexed, set_coll_lem}
use mlstore_db.Store.Writes.{is_not_found}
use mlstore_db.Store.Writes.Kept.{collections-mark_dirty, collections-note_edge_mutation}
use mlstore_db.Store.Writes.Removed.{removed-IsIndexed, dropped-IsIndexed}
use mlstore_db.Store.Writes.Stored.{insert-AllIndexed, upsert-AllIndexed, update-AllIndexed}

-- A write and the error of its permission check.
pub data Write (Doc : Type 0) : Type 0 where
  insert : Option DbError → Bytes → Bytes → Doc → Write Doc
  upsert : Option DbError → Bytes → Bytes → Doc → Write Doc
  update : Option DbError → Bytes → Bytes → Doc → List Bytes → Write Doc
  delete : Option DbError → Bytes → Bytes → Write Doc

module _ {Doc Val : Type 0} (ops : DocOps Doc Val) where
  abbrev pub run : Write Doc → Store Doc Val → Option DbError × Store Doc Val
  run (insert denied name id doc) = insert_apply ops denied name id doc
  run (upsert denied name id doc) = upsert_apply ops denied name id doc
  run (update denied name id patch removed) = update_apply ops denied name id patch removed
  run (delete denied name id) = delete_apply ops denied name id

  abbrev pub run_all : List (Write Doc) → Store Doc Val → Store Doc Val
  run_all [] s = s
  run_all (w ∷ ws) s = run_all ws (run w s).1

  pub collections-drop_entry :
      (name id : Bytes) (c : Collection Doc Val) (s : Store Doc Val)
      → (drop_entry name id c s).collections
        ≡ put name (record c { entries = remove id c.entries }) s.collections
  unfolding drop_entry
  collections-drop_entry name id c s =
      let c' : Collection Doc Val = record c { entries = remove id c.entries } in
      let marked : Store Doc Val = mark_dirty s in
      ground (
        arith,
        collections-note_edge_mutation name (set_coll name c' marked),
        collections-mark_dirty s,
      )

  -- The collection without the entry is set.
  drop_lem :
      (name id : Bytes) (c : Collection Doc Val) (s : Store Doc Val)
      → IsIndexed ops (record c { entries = remove id c.entries })
      → AllIndexed ops s.collections
      → AllIndexed ops (drop_entry name id c s).collections
  drop_lem name id c s k h =
      subst (AllIndexed ops) (sym (collections-drop_entry name id c s))
        (set_coll_lem ops name (record c { entries = remove id c.entries }) s.collections k h)

  doc_at_entry :
      (id : Bytes) (c : Collection Doc Val) (e : DocEntry Doc)
      → lookup id c.entries ≡ some e
      → doc_at id c ≡ doc_of e
  doc_at_entry id c e r = ground (arith, r)

  delete-AllIndexed :
      (denied : Option DbError) (name id : Bytes) (s : Store Doc Val)
      → AllIndexed ops s.collections
      → AllIndexed ops (delete_apply ops denied name id s).1.collections
  unfolding delete_apply
  delete-AllIndexed (some x) name id s h = h
  delete-AllIndexed none name id s h = elim (Option-cases (lookup name s.collections)) [
    | inl q ↦ rw (q, delete_apply) h
    | inr (c, q) ↦ elim (Option-cases (lookup id c.entries)) [
      | inl r ↦ rw (q, r, delete_apply) h
      | inr (e, r) ↦ elim (Result-cases (load_entry e).0) [
        | inr (d, l) ↦
            let c' : Collection Doc Val = record c {
              indexes =
                  map (λ idx. remove_doc ops.ord_less (ops.rows_of idx.fields d) id idx) c.indexes;
            } in
            let here : doc_of e ≡ some d = ground (arith, l) in
            rw (q, r, l, delete_apply)
              (drop_lem name id c' s
                (removed-IsIndexed ops id d c (doc_at_entry id c e r ∙ here) (h name c q)) h)
        | inl (x, l) ↦ elim (Bool-cases (is_not_found x)) [
          | inl gone ↦
              let here : doc_of e ≡ none = ground (arith, l) in
              rw (q, r, l, gone, delete_apply)
                (drop_lem name id c s
                  (dropped-IsIndexed ops id c (doc_at_entry id c e r ∙ here) (h name c q)) h)
          | inr failed ↦ rw (q, r, l, failed, delete_apply) h
        ]
      ]
    ]
  ]

  -- Let every index of every collection have every document that can be loaded under exactly the
  -- keys of its stored version, and no other. After any sequence of inserts, upserts, updates and
  -- deletes, each accepted or refused, this holds again.
  pub run_all-AllIndexed :
      (ws : List (Write Doc)) (s : Store Doc Val)
      → AllIndexed ops s.collections
      → AllIndexed ops (run_all ws s).collections
  run_all-AllIndexed [] s h = h
  run_all-AllIndexed (insert denied name id doc ∷ ws) s h =
      run_all-AllIndexed ws (insert_apply ops denied name id doc s).1
        (insert-AllIndexed ops denied name id doc s h)
  run_all-AllIndexed (upsert denied name id doc ∷ ws) s h =
      run_all-AllIndexed ws (upsert_apply ops denied name id doc s).1
        (upsert-AllIndexed ops denied name id doc s h)
  run_all-AllIndexed (update denied name id patch removed ∷ ws) s h =
      run_all-AllIndexed ws (update_apply ops denied name id patch removed s).1
        (update-AllIndexed ops denied name id patch removed s h)
  run_all-AllIndexed (delete denied name id ∷ ws) s h =
      run_all-AllIndexed ws (delete_apply ops denied name id s).1
        (delete-AllIndexed denied name id s h)
