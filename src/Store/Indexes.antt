-- ===== src/Store/Indexes.antt =====
-- applyIndexes of db/store.go: all indexes of a collection follow a change of one document.
pub mod Rollback
pub mod Moved
use mlstore_db.Prelude.{Bool, Option, none, some, List, [], ◌∷◌, map, Result, ok, err, DbError}
use mlstore_db.Prelude.Bytes.{Bytes}
use mlstore_db.Index.{Index, OrdEntry, add_doc, remove_doc}

-- The first error that is not nil.
abbrev pub first_error : Option DbError → Option DbError → Option DbError
first_error none second = second
first_error (some e) second = some e

-- What addDoc leaves, and its error: on an error, the index as it was.
abbrev pub or_keep : {Val : Type 0} → Index Val → Result (Index Val) → Index Val × Option DbError
or_keep idx (ok idx') = (idx', none)
or_keep idx (err e) = (idx, some e)

-- `rows_of` is extractIndexRows with the keys encoded.
module _ {Doc Val : Type 0} (ord_less : OrdEntry Val → OrdEntry Val → Bool)
    (rows_of : List Bytes → Doc → List (Bytes × Val)) where
  unfoldable pub remove_old : Option Doc → Bytes → Index Val → Index Val
  remove_old none id idx = idx
  remove_old (some old) id idx = remove_doc ord_less (rows_of idx.fields old) id idx

  unfoldable pub add_new : Doc → Bytes → Index Val → Index Val × Option DbError
  add_new doc id idx = or_keep idx (add_doc ord_less (rows_of idx.fields doc) id idx)

  unfoldable pub add_all : Doc → Bytes → List (Index Val) → List (Index Val) × Option DbError
  unfolding add_new
  add_all doc id [] = ([], none)
  add_all doc id (idx ∷ idxs) = (
    (add_new doc id idx).0 ∷ (add_all doc id idxs).0,
    first_error (add_new doc id idx).1 (add_all doc id idxs).1,
  )

  -- The two loops of the rollback, for one index.
  unfoldable pub undo : Option Doc → Doc → Bytes → Index Val → Index Val
  unfolding add_new
  undo none doc id idx = remove_doc ord_less (rows_of idx.fields doc) id idx
  undo (some old) doc id idx =
      (add_new old id (remove_doc ord_less (rows_of idx.fields doc) id idx)).0

  unfoldable pub apply_indexes :
      Option Doc → Doc → Bytes → List (Index Val) → List (Index Val) × Option DbError
  unfolding remove_old add_all undo
  apply_indexes old doc id idxs =
      let (added, failed) = add_all doc id (map (remove_old old id) idxs) in
      elim (failed) [ none ↦ (added, none) | some e ↦ (map (undo old doc id) added, some e) ]
