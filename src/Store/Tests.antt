-- ===== src/Store/Tests.antt =====
-- The index theorems at a small collection: a document is one byte string, its only key.
use mlstore_db.Prelude.{
  ℕ, ◌≡◌, refl, Bool, true, false, none, some, List, [], ◌∷◌, arith, ltb, DbError,
}
use mlstore_db.Prelude.Bytes.{Bytes, bytes_eq}
use mlstore_db.Prelude.Maps.{lookup, remove, contains, discard}
use mlstore_db.Index.{
  Index, OrdEntry, add_doc, remove_doc, remove_key, distinct_rows, conflicts, ord_remove,
}
use mlstore_db.Index.Holds.{holds, has_key}
use mlstore_db.Store.Indexes.{apply_indexes}
use mlstore_db.Store.Indexes.Rollback.{AllSame, Tracks, apply_indexes-rollback}
use mlstore_db.Store.Indexes.Moved.{AllMoved, apply_indexes-AllMoved}
use mlstore_db.Index.{new_index}
use mlstore_db.Prelude.{Bool-cases, inl, inr, subst}
use mlstore_db.Store.Writes.{Store, Collection, DocOps}
use mlstore_db.Store.Writes.Kept.{IsIndexed, AllIndexed}
use mlstore_db.Store.Writes.Run.{
  Write, insert, upsert, update, delete, run, run_all, run_all-AllIndexed,
}
use mlstore_db.Store.Writes.Effect.{Effect}
use mlstore_db.Store.Writes.Outcome.{run-Effect}

abbrev less : OrdEntry ℕ → OrdEntry ℕ → Bool
less a b = ltb a.val b.val

abbrev rows_of : List Bytes → Bytes → List (Bytes × ℕ)
rows_of fields d = (d, 0) ∷ []

abbrev id1 : Bytes
id1 = 1 ∷ []

abbrev id2 : Bytes
id2 = 2 ∷ []

abbrev ann : Bytes
ann = 65 ∷ []

abbrev bob : Bytes
bob = 66 ∷ []

abbrev cid : Bytes
cid = 67 ∷ []

-- A plain and a unique index over two documents, ann under id1 and bob under id2.
abbrev plain : Index ℕ
plain = record {
  fields = ann ∷ [];
  is_unique = false;
  entries = (ann, id1 ∷ []) ∷ (bob, id2 ∷ []) ∷ [];
  unique = [];
  ord = [];
  ord_dirty = true;
  matrix = none;
}

abbrev single : Index ℕ
single = record {
  fields = bob ∷ [];
  is_unique = true;
  entries = [];
  unique = (ann, id1) ∷ (bob, id2) ∷ [];
  ord = [];
  ord_dirty = true;
  matrix = none;
}

plain-Tracks : Tracks less rows_of (some ann) id1 plain
unfolding holds has_key lookup contains bytes_eq
plain-Tracks j = ground arith

single-Tracks : Tracks less rows_of (some ann) id1 single
unfolding holds has_key lookup contains bytes_eq
single-Tracks j = ground arith

refused :
    (apply_indexes less rows_of (some ann) bob id1 (plain ∷ single ∷ [])).1 ≡ some DbError.duplicate
unfolding apply_indexes add_doc conflicts distinct_rows contains remove_doc remove_key lookup
    bytes_eq discard ord_remove remove
refused = refl

accepted : (apply_indexes less rows_of (some ann) cid id1 (plain ∷ single ∷ [])).1 ≡ none
unfolding apply_indexes add_doc conflicts distinct_rows contains remove_doc remove_key lookup
    bytes_eq discard ord_remove remove
accepted = refl

apply_indexes-rollback_example :
    AllSame
      (apply_indexes less rows_of (some ann) bob id1 (plain ∷ single ∷ [])).0
      (plain ∷ single ∷ [])
apply_indexes-rollback_example =
    apply_indexes-rollback less rows_of (some ann) bob id1 (plain ∷ single ∷ []) DbError.duplicate
      (plain-Tracks, (single-Tracks, tt)) refused

apply_indexes-AllMoved_example :
    AllMoved less rows_of cid id1
      (apply_indexes less rows_of (some ann) cid id1 (plain ∷ single ∷ [])).0
      (plain ∷ single ∷ [])
apply_indexes-AllMoved_example =
    apply_indexes-AllMoved less rows_of (some ann) cid id1 (plain ∷ single ∷ [])
      (plain-Tracks, (single-Tracks, tt)) accepted

-- A store with one collection, of no document and two indexes.
abbrev fresh_coll : Collection Bytes ℕ
fresh_coll = record {
  entries = [];
  indexes = new_index (ann ∷ []) false ∷ new_index (bob ∷ []) true ∷ [];
}

abbrev fresh : Store Bytes ℕ
fresh = record {
  collections = (cid, fresh_coll) ∷ [];
  has_path = true;
  dirty = false;
  dirty_gen = 0;
  write_seq = 0;
  graph_epoch = 0;
  saw_file = true;
  flush_in_progress = false;
  pending_dels = [];
}

-- A document is replaced as a whole by a patch, and its id is not part of it.
abbrev plain_ops : DocOps Bytes ℕ
plain_ops = record {
  ord_less = less;
  rows_of = rows_of;
  size_error = λ d. none;
  set_id = λ id d. d;
  patched = λ d patch removed. patch;
}

fresh-IsIndexed : IsIndexed plain_ops fresh_coll
unfolding lookup holds has_key new_index contains
fresh-IsIndexed id = ((λ j. refl), ((λ j. refl), tt))

fresh-AllIndexed : AllIndexed plain_ops fresh.collections
unfolding lookup
fresh-AllIndexed name c e = elim (Bool-cases (bytes_eq cid name)) [
  | inl same ↦
      let it : fresh_coll ≡ c = ground (arith, same, e) in
      subst (IsIndexed plain_ops) it fresh-IsIndexed
  | inr apart ↦ absurd (ground (arith, apart, e))
]

-- The second insert is refused by the unique index.
abbrev some_writes : List (Write Bytes)
some_writes =
    insert none cid id1 ann
    ∷ insert none cid id2 ann
    ∷ upsert none cid id2 bob
    ∷ update none cid id1 cid []
    ∷ delete none cid id2
    ∷ []

run_all-AllIndexed_example : AllIndexed plain_ops (run_all plain_ops some_writes fresh).collections
run_all-AllIndexed_example = run_all-AllIndexed plain_ops some_writes fresh fresh-AllIndexed

run-Effect_example : Effect (run plain_ops (insert none cid id1 ann) fresh) fresh cid id1 (some ann)
run-Effect_example = run-Effect plain_ops (insert none cid id1 ann) fresh
