-- ===== src/Store/Indexes/Rollback.antt =====
-- A change of a document that some unique index refuses leaves every index as it was.
use mlstore_db.Prelude.{
  ◌≡◌, refl, sym, Bool, false, ◌&&◌, Option, none, some, List, [], ◌∷◌, map, arith, if◌then◌else◌,
  DbError, Result-cases, Option-cases, inl, inr,
}
use mathlib.Core.Path.{subst}
use mlstore_db.Prelude.Bytes.{Bytes, bytes_eq, bytes_eq_iff}
use mlstore_db.Index.{Index, OrdEntry, add_doc, remove_doc}
use mlstore_db.Index.Holds.{holds, has_key, SameDef, unique_single}
use mlstore_db.Index.Docs.{add_doc_cases, add_doc-succeeds, remove_doc-SameDef, holds-remove_doc}
use mlstore_db.Store.Indexes.{remove_old, add_new, add_all, undo, apply_indexes}

-- The same definition, and the same documents under the same keys.
abbrev pub SameIndex : {Val : Type 0} → Index Val → Index Val → Type 0
SameIndex a b = SameDef a b × ((j w : Bytes) → holds a j w ≡ holds b j w)

abbrev pub AllSame : {Val : Type 0} → List (Index Val) → List (Index Val) → Type 0
AllSame [] [] = Unit {0}
AllSame [] (b ∷ bs) = ⊥
AllSame (a ∷ as_) [] = ⊥
AllSame (a ∷ as_) (b ∷ bs) = SameIndex a b × AllSame as_ bs

module _ {Doc Val : Type 0} (ord_less : OrdEntry Val → OrdEntry Val → Bool)
    (rows_of : List Bytes → Doc → List (Bytes × Val)) where
  abbrev pub old_rows : List Bytes → Option Doc → List (Bytes × Val)
  old_rows fields none = []
  old_rows fields (some d) = rows_of fields d

  -- The index has the document under the keys of its stored version, and no other.
  abbrev pub Tracks : Option Doc → Bytes → Index Val → Type 0
  Tracks old id idx = (j : Bytes) → holds idx j id ≡ has_key (old_rows idx.fields old) j

  abbrev pub AllTrack : Option Doc → Bytes → List (Index Val) → Type 0
  AllTrack old id [] = Unit {0}
  AllTrack old id (idx ∷ idxs) = Tracks old id idx × AllTrack old id idxs

  pub remove_old_lem :
      (old : Option Doc) (id : Bytes) (idx : Index Val)
      → SameDef (remove_old ord_less rows_of old id idx) idx
        × ((j w : Bytes)
            → holds (remove_old ord_less rows_of old id idx) j w ≡ (
                if has_key (old_rows idx.fields old) j && bytes_eq id w
                then false
                else holds idx j w))
  unfolding remove_old has_key
  remove_old_lem none id idx = ((refl, refl), λ j w. refl)
  remove_old_lem (some d) id idx = (
    remove_doc-SameDef ord_less (rows_of idx.fields d) id idx,
    holds-remove_doc ord_less (rows_of idx.fields d) id idx,
  )

  -- Whether addDoc succeeds or not, removing the new document afterwards gives the same.
  added_then_removed :
      (doc : Doc) (id : Bytes) (r : Index Val) (j w : Bytes)
      → holds
          (remove_doc ord_less
            (rows_of (add_new ord_less rows_of doc id r).0.fields doc)
            id
            (add_new ord_less rows_of doc id r).0)
          j
          w
        ≡ (if has_key (rows_of r.fields doc) j && bytes_eq id w then false else holds r j w)
  unfolding add_new
  added_then_removed doc id r j w =
      elim (Result-cases (add_doc ord_less (rows_of r.fields doc) id r)) [
        | inl (e, q) ↦ rw q (holds-remove_doc ord_less (rows_of r.fields doc) id r j w)
        | inr (a, q) ↦
            let (same, at) = add_doc_cases ord_less (rows_of r.fields doc) id r a q in
            rw (q, same.1)
              (ground (arith, holds-remove_doc ord_less (rows_of r.fields doc) id a j w, at j w))
      ]

  add_new-SameDef :
      (doc : Doc) (id : Bytes) (r : Index Val) → SameDef (add_new ord_less rows_of doc id r).0 r
  unfolding add_new
  add_new-SameDef doc id r = elim (Result-cases (add_doc ord_less (rows_of r.fields doc) id r)) [
    | inl (e, q) ↦ rw q (refl, refl)
    | inr (a, q) ↦ rw q (add_doc_cases ord_less (rows_of r.fields doc) id r a q).0
  ]

  -- The index once the new document is out again: that of before, without the document.
  abbrev bare : Option Doc → Doc → Bytes → Index Val → Index Val
  bare old doc id idx =
      let a = (add_new ord_less rows_of doc id (remove_old ord_less rows_of old id idx)).0 in
      remove_doc ord_less (rows_of a.fields doc) id a

  bare-SameDef :
      (old : Option Doc) (doc : Doc) (id : Bytes) (idx : Index Val)
      → SameDef (bare old doc id idx) idx
  bare-SameDef old doc id idx =
      let r = remove_old ord_less rows_of old id idx in
      let a = (add_new ord_less rows_of doc id r).0 in
      ground (
        arith,
        (remove_old_lem old id idx).0,
        add_new-SameDef doc id r,
        remove_doc-SameDef ord_less (rows_of a.fields doc) id a,
      )

  holds-bare :
      (old : Option Doc) (doc : Doc) (id : Bytes) (idx : Index Val)
      → Tracks old id idx
      → (j w : Bytes)
      → holds (bare old doc id idx) j w ≡ (if bytes_eq id w then false else holds idx j w)
  holds-bare old doc id idx t j w =
      let r = remove_old ord_less rows_of old id idx in
      ground (
        arith,
        added_then_removed doc id r j w,
        (remove_old_lem old id idx).1 j w,
        t j,
        bytes_eq_iff id w,
      )

  -- The old document goes back in without a conflict.
  restored :
      (old : Doc) (id : Bytes) (idx d : Index Val)
      → SameDef d idx
      → Tracks (some old) id idx
      → ((j w : Bytes) → holds d j w ≡ (if bytes_eq id w then false else holds idx j w))
      → SameIndex (add_new ord_less rows_of old id d).0 idx
  unfolding add_new
  restored old id idx d same t at =
      let (back, q) =
        add_doc-succeeds ord_less (rows_of d.fields old) id d
          (λ k w u hk hh. ground (arith, unique_single k id w idx, t k, at k w, same)) in
      let (def, held) = add_doc_cases ord_less (rows_of d.fields old) id d back q in
      rw q (
        ground (arith, def, same),
        λ j w. ground (arith, held j w, at j w, t j, same, bytes_eq_iff id w),
      )

  undo_lem :
      (old : Option Doc) (doc : Doc) (id : Bytes) (idx : Index Val)
      → Tracks old id idx
      → SameIndex
          (undo ord_less rows_of old doc id
            (add_new ord_less rows_of doc id (remove_old ord_less rows_of old id idx)).0)
          idx
  unfolding undo has_key
  undo_lem none doc id idx t = (
    bare-SameDef none doc id idx,
    λ j w. ground (arith, holds-bare none doc id idx t j w, t j, bytes_eq_iff id w),
  )
  undo_lem (some old) doc id idx t =
      restored old id idx (bare (some old) doc id idx) (bare-SameDef (some old) doc id idx) t
        (holds-bare (some old) doc id idx t)

  undo_all :
      (old : Option Doc) (doc : Doc) (id : Bytes) (idxs : List (Index Val))
      → AllTrack old id idxs
      → AllSame
          (map
            (undo ord_less rows_of old doc id)
            (add_all ord_less rows_of doc id (map (remove_old ord_less rows_of old id) idxs)).0)
          idxs
  unfolding add_all
  undo_all old doc id [] t = tt
  undo_all old doc id (idx ∷ idxs) t = (undo_lem old doc id idx t.0, undo_all old doc id idxs t.1)

  -- Let every index have the document under exactly the keys of its stored version, if there is
  -- one. If applyIndexes returns an error, then afterwards every index has the definition it had
  -- and holds the same documents under the same keys.
  pub apply_indexes-rollback :
      (old : Option Doc) (doc : Doc) (id : Bytes) (idxs : List (Index Val)) (e : DbError)
      → AllTrack old id idxs
      → (apply_indexes ord_less rows_of old doc id idxs).1 ≡ some e
      → AllSame (apply_indexes ord_less rows_of old doc id idxs).0 idxs
  unfolding apply_indexes
  apply_indexes-rollback old doc id idxs e t h =
      let added = add_all ord_less rows_of doc id (map (remove_old ord_less rows_of old id) idxs) in
      elim (Option-cases added.1) [
        | inl q ↦ absurd (ground (arith, q))
        | inr (e', q) ↦
            let undone : (apply_indexes ord_less rows_of old doc id idxs).0
                ≡ map (undo ord_less rows_of old doc id) added.0 =
              ground (arith, q) in
            subst (λ l. AllSame l idxs) (sym undone) (undo_all old doc id idxs t)
      ]
