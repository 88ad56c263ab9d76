-- ===== src/Store/Parallel/Tests.antt =====
-- The workers at a collection of two documents.
use mlstore_db.Prelude.{ℕ, zero, suc, ◌≡◌, refl, true, none, List, [], ◌∷◌, ltb, ◌==◌}
use mlstore_db.Prelude.Bytes.{Bytes, bytes_eq}
use mlstore_db.Prelude.Maps.{lookup}
use mlstore_db.Filter.{number, no_fields, field, Fields, FilterLib, match, all_of, results}
use mlstore_db.Store.Writes.{DocEntry, new_doc_entry, load_entry}
use mlstore_db.Store.Parallel.{
  resident, refs, gathered, worker_results, materialize_serial, chunk_ids,
}

abbrev plain_lib : FilterLib
plain_lib = record { float_eq = λ a b. a == b; float_lt = λ a b. ltb a b; compile = λ p. none }

abbrev doc_at : ℕ → Fields
doc_at n = field (110 ∷ []) (number n) no_fields

abbrev two_entries : List (Bytes × DocEntry Fields)
two_entries = (1 ∷ [], new_doc_entry (doc_at 1)) ∷ (2 ∷ [], new_doc_entry (doc_at 2)) ∷ []

-- Two workers with one id each, the second of which is missing, and a third worker.
three_workers :
    gathered (
      worker_results plain_lib two_entries no_fields true 3 1 0
        ((2 ∷ []) ∷ (7 ∷ []) ∷ (1 ∷ []) ∷ []))
    ≡ refs (doc_at 2 ∷ doc_at 1 ∷ [])
unfolding gathered worker_results materialize_serial chunk_ids resident load_entry lookup bytes_eq
    match all_of results
three_workers = refl

abbrev many_ids : ℕ → List Bytes
many_ids zero = []
many_ids (suc n) = (1 ∷ []) ∷ many_ids n
