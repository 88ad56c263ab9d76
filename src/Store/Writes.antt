-- ===== src/Store/Writes.antt =====
-- db/store.go: the four writes as they run under the store's lock: insertApply, upsertApply,
-- updateApply, deleteApply, with the helpers of db/file.go and db/graph.go that they call. The
-- record of resident documents in db/cache.go is left out: an entry is resident or not.
pub mod Kept
pub mod Removed
pub mod Stored
pub mod Run
pub mod Effect
pub mod Outcome
use mlstore_db.Prelude.{
  ℕ, ◌+◌, ◌%◌, Bool, true, false, not, ◌&&◌, ◌||◌, Option, none, some, List, [], ◌∷◌, ◌++◌, map,
  length, ltb, take, if◌then◌else◌, Result, ok, err, DbError,
}
use mlstore_db.Prelude.Bytes.{Bytes, bytes_eq}
use mlstore_db.Prelude.Maps.{lookup, put, remove}
use mlstore_db.Index.{Index, OrdEntry, remove_doc}
use mlstore_db.Store.Indexes.{apply_indexes}

-- docEntry: the document if it is resident, and what reading its record from the file gives,
-- ErrNotFound if it was never written.
pub record DocEntry (Doc : Type 0) : Type 0 where
  pub resident : Option Doc
  pub on_file : Result Doc
  pub dirty : Bool
  pub mut_gen : ℕ

pub record Collection (Doc Val : Type 0) : Type 0 where
  pub entries : List (Bytes × DocEntry Doc)
  pub indexes : List (Index Val)

pub record DelItem : Type 0 where
  pub coll : Bytes
  pub id : Bytes
  pub gen : ℕ

-- The fields of Store that the writes read or change; `has_path` is s.path != "".
pub record Store (Doc Val : Type 0) : Type 0 where
  pub collections : List (Bytes × Collection Doc Val)
  pub has_path : Bool
  pub dirty : Bool
  pub dirty_gen : ℕ
  pub write_seq : ℕ
  pub graph_epoch : ℕ
  pub saw_file : Bool
  pub flush_in_progress : Bool
  pub pending_dels : List DelItem

abbrev pub next64 : ℕ → ℕ
next64 n = (n + 1) % 18446744073709551616

-- edges.
abbrev pub edge_coll_prefix : Bytes
edge_coll_prefix = b'e' ∷ b'd' ∷ b'g' ∷ b'e' ∷ b's' ∷ b'.' ∷ []

unfoldable pub is_edge_coll : Bytes → Bool
is_edge_coll name =
    bytes_eq (take (length edge_coll_prefix) name) edge_coll_prefix
    && ltb (length edge_coll_prefix) (length name)

unfoldable pub is_not_found : DbError → Bool
is_not_found DbError.not_found = true
is_not_found x = false

-- loadEntry, with the entry as it leaves it.
unfoldable pub load_entry : {Doc : Type 0} → DocEntry Doc → Result Doc × DocEntry Doc
load_entry e = elim (e.resident) [
  | some d ↦ (ok d, e)
  | none ↦ elim (e.on_file) [ ok d ↦ (ok d, record e { resident = some d }) | err x ↦ (err x, e) ]
]

abbrev pub new_doc_entry : {Doc : Type 0} → Doc → DocEntry Doc
new_doc_entry d = record {
  resident = some d;
  on_file = err DbError.not_found;
  dirty = false;
  mut_gen = 0;
}

module _ {Doc Val : Type 0} where
  abbrev pub new_collection : Collection Doc Val
  new_collection = record { entries = []; indexes = [] }

  -- s.coll(name), which makes the collection if it is missing
  abbrev pub coll_or_new : Bytes → Store Doc Val → Collection Doc Val
  coll_or_new name s = elim (lookup name s.collections) [ none ↦ new_collection | some c ↦ c ]

  abbrev pub set_coll : Bytes → Collection Doc Val → Store Doc Val → Store Doc Val
  set_coll name c s = record s { collections = put name c s.collections }

  unfoldable pub mark_dirty : Store Doc Val → Store Doc Val
  mark_dirty s =
      if s.has_path
      then record s { dirty = true; dirty_gen = next64 s.dirty_gen; write_seq = next64 s.write_seq }
      else s

  -- markEntryMutated: the entry takes the generation after markDirty.
  abbrev pub mutated_entry : Store Doc Val → DocEntry Doc → DocEntry Doc
  mutated_entry s e = record e { dirty = true; mut_gen = (mark_dirty s).dirty_gen }

  unfoldable pub note_edge_mutation : Bytes → Store Doc Val → Store Doc Val
  note_edge_mutation name s =
      if is_edge_coll name then record s { graph_epoch = next64 s.graph_epoch } else s

  -- The end of a write that stores a document: the entry is marked, and the collection set.
  abbrev pub store_entry :
      Bytes → Bytes → DocEntry Doc → Collection Doc Val → Store Doc Val → Store Doc Val
  store_entry name id e c s =
      note_edge_mutation name
        (set_coll name (record c { entries = put id (mutated_entry s e) c.entries }) (mark_dirty s))

  -- delete(c.entries, id) and what follows it
  unfoldable pub drop_entry : Bytes → Bytes → Collection Doc Val → Store Doc Val → Store Doc Val
  drop_entry name id c s =
      let s' =
        note_edge_mutation name
          (set_coll name (record c { entries = remove id c.entries }) (mark_dirty s)) in
      if s'.saw_file || s'.flush_in_progress
      then record s' {
        pending_dels =
            s'.pending_dels ++ (record { coll = name; id = id; gen = s'.dirty_gen }) ∷ [];
      }
      else s'

-- `rows_of` is extractIndexRows with the keys encoded, `size_error` is checkDocSize, `set_id` is
-- doc["_id"] = id, `patched` the loops of updateApply over the patch and the removed fields.
-- `denied` is the error of checkWriteLocked.
pub record DocOps (Doc Val : Type 0) : Type 0 where
  pub ord_less : OrdEntry Val → OrdEntry Val → Bool
  pub rows_of : List Bytes → Doc → List (Bytes × Val)
  pub size_error : Doc → Option DbError
  pub set_id : Bytes → Doc → Doc
  pub patched : Doc → Doc → List Bytes → Doc

module _ {Doc Val : Type 0} (ops : DocOps Doc Val) where
  -- applyIndexes, and on success the entry.
  unfoldable pub index_and_store :
      Bytes
      → Bytes
      → Option Doc
      → Doc
      → DocEntry Doc
      → Collection Doc Val
      → Store Doc Val
      → Option DbError × Store Doc Val
  index_and_store name id old doc e c s =
      let (indexes, failed) = apply_indexes ops.ord_less ops.rows_of old doc id c.indexes in
      let c' = record c { indexes = indexes } in
      elim (failed) [
        | some x ↦ (some x, set_coll name c' s)
        | none ↦ (none, store_entry name id e c' s)
      ]

  unfoldable pub insert_apply :
      Option DbError → Bytes → Bytes → Doc → Store Doc Val → Option DbError × Store Doc Val
  insert_apply (some x) name id doc s = (some x, s)
  insert_apply none name id doc s =
      let c = coll_or_new name s in
      elim (lookup id c.entries) [
        | some _ ↦ (some DbError.duplicate, set_coll name c s)
        | none ↦ index_and_store name id none doc (new_doc_entry doc) c s
      ]

  -- A document that cannot be loaded is replaced as if there had been none.
  unfoldable pub upsert_apply :
      Option DbError → Bytes → Bytes → Doc → Store Doc Val → Option DbError × Store Doc Val
  upsert_apply (some x) name id doc s = (some x, s)
  upsert_apply none name id doc s =
      let c = coll_or_new name s in
      let stored = ops.set_id id doc in
      elim (lookup id c.entries) [
        | none ↦ index_and_store name id none stored (new_doc_entry stored) c s
        | some e ↦
            let (loaded, e') = load_entry e in
            let c' = record c { entries = put id e' c.entries } in
            let old : Option Doc = elim (loaded) [ ok d ↦ some d | err _ ↦ none ] in
            index_and_store name id old stored (record e' { resident = some stored }) c' s
      ]

  unfoldable pub update_apply :
      Option DbError
      → Bytes
      → Bytes
      → Doc
      → List Bytes
      → Store Doc Val
      → Option DbError × Store Doc Val
  update_apply (some x) name id patch removed s = (some x, s)
  update_apply none name id patch removed s = elim (lookup name s.collections) [
    | none ↦ (some DbError.not_found, s)
    | some c ↦ elim (lookup id c.entries) [
      | none ↦ (some DbError.not_found, s)
      | some e ↦
          let (loaded, e') = load_entry e in
          let c' = record c { entries = put id e' c.entries } in
          elim (loaded) [
            | err x ↦ (some x, set_coll name c' s)
            | ok d ↦
                let next = ops.patched d patch removed in
                elim (ops.size_error next) [
                  | some x ↦ (some x, set_coll name c' s)
                  | none ↦
                      index_and_store name id (some d) next (record e' { resident = some next }) c'
                        s
                ]
          ]
    ]
  ]

  unfoldable pub delete_apply :
      Option DbError → Bytes → Bytes → Store Doc Val → Option DbError × Store Doc Val
  unfolding drop_entry
  delete_apply (some x) name id s = (some x, s)
  delete_apply none name id s = elim (lookup name s.collections) [
    | none ↦ (some DbError.not_found, s)
    | some c ↦ elim (lookup id c.entries) [
      | none ↦ (some DbError.not_found, s)
      | some e ↦ elim ((load_entry e).0) [
        | ok d ↦ (
          none,
          drop_entry name id
              (record c {
                indexes =
                    map (λ idx. remove_doc ops.ord_less (ops.rows_of idx.fields d) id idx)
                      c.indexes;
              })
              s,
        )
        | err x ↦ if is_not_found x then (none, drop_entry name id c s) else (some x, s)
      ]
    ]
  ]
