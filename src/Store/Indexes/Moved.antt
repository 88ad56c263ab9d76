-- ===== src/Store/Indexes/Moved.antt =====
-- A change of a document that every index accepts.
use mlstore_db.Prelude.{
  ◌≡◌, sym, Bool, Option, none, List, [], ◌∷◌, map, arith, if◌then◌else◌, Result-cases,
  Option-cases, inl, inr,
}
use mathlib.Core.Path.{subst}
use mlstore_db.Prelude.Bytes.{Bytes, bytes_eq, bytes_eq_iff}
use mlstore_db.Index.{Index, OrdEntry, add_doc}
use mlstore_db.Index.Holds.{holds, has_key, SameDef}
use mlstore_db.Index.Docs.{add_doc_cases}
use mlstore_db.Store.Indexes.Rollback.{Tracks, AllTrack, remove_old_lem}
use mlstore_db.Store.Indexes.{remove_old, add_new, add_all, apply_indexes}

module _ {Doc Val : Type 0} (ord_less : OrdEntry Val → OrdEntry Val → Bool)
    (rows_of : List Bytes → Doc → List (Bytes × Val)) where
  -- Of one document: its keys are those of the new version; other documents keep theirs.
  abbrev pub Moved : Doc → Bytes → Index Val → Index Val → Type 0
  Moved doc id b a =
      SameDef b a
      × ((j w : Bytes)
          → holds b j w ≡ (if bytes_eq id w then has_key (rows_of a.fields doc) j else holds a j w))

  abbrev pub AllMoved : Doc → Bytes → List (Index Val) → List (Index Val) → Type 0
  AllMoved doc id [] [] = Unit {0}
  AllMoved doc id [] (a ∷ as_) = ⊥
  AllMoved doc id (b ∷ bs) [] = ⊥
  AllMoved doc id (b ∷ bs) (a ∷ as_) = Moved doc id b a × AllMoved doc id bs as_

  moved :
      (old : Option Doc) (doc : Doc) (id : Bytes) (idx : Index Val)
      → Tracks ord_less rows_of old id idx
      → (add_new ord_less rows_of doc id (remove_old ord_less rows_of old id idx)).1 ≡ none
      → Moved doc id
          (add_new ord_less rows_of doc id (remove_old ord_less rows_of old id idx)).0
          idx
  unfolding add_new
  moved old doc id idx t h =
      let r = remove_old ord_less rows_of old id idx in
      let (rsame, rat) = remove_old_lem ord_less rows_of old id idx in
      elim (Result-cases (add_doc ord_less (rows_of r.fields doc) id r)) [
        | inl (e, q) ↦ absurd (ground (arith, q))
        | inr (a, q) ↦
            let (def, held) = add_doc_cases ord_less (rows_of r.fields doc) id r a q in
            rw q (
              ground (arith, def, rsame),
              λ j w. ground (arith, held j w, rat j w, t j, rsame, bytes_eq_iff id w),
            )
      ]

  moved_all :
      (old : Option Doc) (doc : Doc) (id : Bytes) (idxs : List (Index Val))
      → AllTrack ord_less rows_of old id idxs
      → (add_all ord_less rows_of doc id (map (remove_old ord_less rows_of old id) idxs)).1 ≡ none
      → AllMoved doc id
          (add_all ord_less rows_of doc id (map (remove_old ord_less rows_of old id) idxs)).0
          idxs
  unfolding add_all
  moved_all old doc id [] t h = tt
  moved_all old doc id (idx ∷ idxs) t h =
      (moved old doc id idx t.0 (ground arith), moved_all old doc id idxs t.1 (ground arith))

  -- Let every index have the document under exactly the keys of its stored version, if there is
  -- one. If applyIndexes returns no error, then afterwards every index has the document under
  -- exactly the keys of its new version, and every other document under the keys that it had.
  pub apply_indexes-AllMoved :
      (old : Option Doc) (doc : Doc) (id : Bytes) (idxs : List (Index Val))
      → AllTrack ord_less rows_of old id idxs
      → (apply_indexes ord_less rows_of old doc id idxs).1 ≡ none
      → AllMoved doc id (apply_indexes ord_less rows_of old doc id idxs).0 idxs
  unfolding apply_indexes
  apply_indexes-AllMoved old doc id idxs t h =
      let added = add_all ord_less rows_of doc id (map (remove_old ord_less rows_of old id) idxs) in
      elim (Option-cases added.1) [
        | inl q ↦
            let kept : (apply_indexes ord_less rows_of old doc id idxs).0 ≡ added.0 =
              ground (arith, q) in
            subst (λ l. AllMoved doc id l idxs) (sym kept) (moved_all old doc id idxs t q)
        | inr (e', q) ↦ absurd (ground (arith, q))
      ]
