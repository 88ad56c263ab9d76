-- ===== src/Store/Writes/Removed.antt =====
-- A document that leaves its collection leaves every index.
use mlstore_db.Prelude.{
  ◌≡◌, refl, sym, ap, ◌∙◌, subst, true, Option, none, some, List, [], ◌∷◌, map, arith,
  if◌then◌else◌, Bool-cases, inl, inr,
}
use mlstore_db.Prelude.Bytes.{Bytes, bytes_eq, bytes_eq_iff}
use mlstore_db.Prelude.Maps.{remove}
use mlstore_db.Index.{Index, remove_doc}
use mlstore_db.Index.Holds.{holds, has_key}
use mlstore_db.Index.Docs.{holds-remove_doc, remove_doc-SameDef}
use mlstore_db.Store.Indexes.Rollback.{Tracks, AllTrack, old_rows}
use mlstore_db.Store.Writes.{Collection, DocOps}
use mlstore_db.Store.Writes.Kept.{doc_at, IsIndexed, doc_at-remove}

module _ {Doc Val : Type 0} (ops : DocOps Doc Val) where
  -- One index when a document leaves it.
  removed_one :
      (old : Option Doc) (d : Doc) (id w : Bytes) (idx : Index Val)
      → (bytes_eq id w ≡ true → old ≡ some d)
      → Tracks ops.ord_less ops.rows_of old w idx
      → Tracks ops.ord_less ops.rows_of
          (if bytes_eq id w then none else old)
          w
          (remove_doc ops.ord_less (ops.rows_of idx.fields d) id idx)
  unfolding has_key
  removed_one old d id w idx o t j =
      let rows = ops.rows_of idx.fields d in
      let def = remove_doc-SameDef ops.ord_less rows id idx in
      let held = holds-remove_doc ops.ord_less rows id idx j w in
      elim (Bool-cases (bytes_eq id w)) [
        | inl same ↦
            let before : holds idx j w ≡ has_key rows j =
              subst
                (λ v. holds idx j w ≡ has_key (old_rows ops.ord_less ops.rows_of idx.fields v) j)
                (o same) (t j) in
            rw same (ground (arith, same, before, held))
        | inr apart ↦ rw (apart, def.1) (ground (arith, apart, held, t j))
      ]

  removed_lem :
      (old : Option Doc) (d : Doc) (id w : Bytes) (idxs : List (Index Val))
      → (bytes_eq id w ≡ true → old ≡ some d)
      → AllTrack ops.ord_less ops.rows_of old w idxs
      → AllTrack ops.ord_less ops.rows_of
          (if bytes_eq id w then none else old)
          w
          (map (λ idx. remove_doc ops.ord_less (ops.rows_of idx.fields d) id idx) idxs)
  removed_lem old d id w [] o t = tt
  removed_lem old d id w (idx ∷ idxs) o t =
      (removed_one old d id w idx o t.0, removed_lem old d id w idxs o t.1)

  pub removed-IsIndexed :
      (id : Bytes) (d : Doc) (c : Collection Doc Val)
      → doc_at id c ≡ some d
      → IsIndexed ops c
      → IsIndexed ops (record {
        entries = remove id c.entries;
        indexes = map (λ idx. remove_doc ops.ord_less (ops.rows_of idx.fields d) id idx) c.indexes;
      })
  removed-IsIndexed id d c q h w =
      subst
        (λ o.
          AllTrack ops.ord_less ops.rows_of o w
            (map (λ idx. remove_doc ops.ord_less (ops.rows_of idx.fields d) id idx) c.indexes))
        (sym (doc_at-remove ops id w c))
        (removed_lem (doc_at w c) d id w c.indexes
          (λ same. ap (λ v. doc_at v c) (sym ((bytes_eq_iff id w).0 same)) ∙ q) (h w))

  -- A document that could not be loaded was in no index.
  pub dropped-IsIndexed :
      (id : Bytes) (c : Collection Doc Val)
      → doc_at id c ≡ none
      → IsIndexed ops c
      → IsIndexed ops (record c { entries = remove id c.entries })
  dropped-IsIndexed id c q h w =
      let same : doc_at w (record c { entries = remove id c.entries }) ≡ doc_at w c =
        elim (Bool-cases (bytes_eq id w)) [
          | inl here ↦
              doc_at-remove ops id w c
              ∙ rw here (sym (ap (λ v. doc_at v c) (sym ((bytes_eq_iff id w).0 here)) ∙ q))
          | inr apart ↦ doc_at-remove ops id w c ∙ rw apart refl
        ] in
      subst (λ o. AllTrack ops.ord_less ops.rows_of o w c.indexes) (sym same) (h w)
