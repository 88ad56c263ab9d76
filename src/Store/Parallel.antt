-- ===== src/Store/Parallel.antt =====
-- db/parallel.go: the documents of a list of ids that match a filter, one after the other and in
-- chunks that run at once. What a worker leaves in the cache changes no result.
pub mod Chunks
pub mod Serial
mod Tests
use mlstore_db.Prelude.{
  ℕ, zero, suc, ◌+◌, ◌-◌, ◌*◌, ◌/◌, Bool, true, false, ◌||◌, Option, none, some, List, [], ◌∷◌,
  ◌++◌, length, leb, ltb, take, drop, if◌then◌else◌, Result, ok, err, DbError,
}
use mlstore_db.Prelude.Bytes.{Bytes}
use mlstore_db.Prelude.Int.{ℤ, pos, negsuc}
use mlstore_db.Prelude.Maps.{lookup}
use mlstore_db.Filter.{Fields, FilterLib, Outcome, answer, bad_filter, panics, match}
use mlstore_db.Store.Writes.{DocEntry, load_entry}

-- resident
unfoldable pub resident : List (Bytes × DocEntry Fields) → Bytes → Result Fields
resident entries id = elim (lookup id entries) [
  | none ↦ err DbError.not_found
  | some e ↦ (load_entry e).0
]

-- The documents or ErrBadFilter; or a panic.
pub data Found : Type 0 where
  refs : List Fields → Found
  invalid : Found
  crashes : Found

abbrev pub and_found : Fields → Found → Found
and_found d (refs l) = refs (d ∷ l)
and_found d invalid = invalid
and_found d crashes = crashes

abbrev pub keep_if : Fields → Outcome → Found → Found
keep_if d (answer true) rest = and_found d rest
keep_if d (answer false) rest = rest
keep_if d bad_filter rest = invalid
keep_if d panics rest = crashes

-- The loop that gathers the results of the workers; a panic of one ends the program.
abbrev pub joined : Found → Found → Found
joined crashes rest = crashes
joined invalid crashes = crashes
joined invalid (refs l) = invalid
joined invalid invalid = invalid
joined (refs l) crashes = crashes
joined (refs l) invalid = invalid
joined (refs l) (refs m) = refs (l ++ m)

unfoldable pub gathered : List Found → Found
gathered [] = refs []
gathered (r ∷ rs) = joined r (gathered rs)

abbrev pub parallel_min_ids : ℕ
parallel_min_ids = 512

-- `procs` is GOMAXPROCS.
unfoldable pub find_workers : ℤ → ℕ → ℕ
find_workers (pos (suc n)) procs = suc n
find_workers (negsuc n) procs = 1
find_workers (pos zero) procs = if ltb procs 1 then 1 else procs

unfoldable pub chunk_size : ℕ → ℕ → ℕ
chunk_size workers n =
    let chunk = (n + workers - 1) / workers in
    if ltb chunk parallel_min_ids then parallel_min_ids else chunk

-- ids[lo:hi] of the worker `i`
unfoldable pub chunk_ids : ℕ → ℕ → List Bytes → List Bytes
chunk_ids chunk i ids =
    let lo = i * chunk in
    let hi = if ltb (length ids) (lo + chunk) then length ids else lo + chunk in
    take (hi - lo) (drop lo ids)

module _ (lib : FilterLib) (entries : List (Bytes × DocEntry Fields)) (filter : Fields)
    (rematch : Bool) where
  unfoldable pub materialize_serial : List Bytes → Found
  materialize_serial [] = refs []
  materialize_serial (id ∷ ids) = elim (resident entries id) [
    | err _ ↦ materialize_serial ids
    | ok d ↦ elim rematch [
      | true ↦ keep_if d (match lib d filter) (materialize_serial ids)
      | false ↦ and_found d (materialize_serial ids)
    ]
  ]

  -- That many workers, from `i` on.
  unfoldable pub worker_results : ℕ → ℕ → ℕ → List Bytes → List Found
  worker_results zero chunk i ids = []
  worker_results (suc k) chunk i ids =
      materialize_serial (chunk_ids chunk i ids) ∷ worker_results k chunk (suc i) ids

  unfoldable pub materialize_refs : ℕ → List Bytes → Found
  materialize_refs workers [] = refs []
  materialize_refs workers (id ∷ more) =
      let ids = id ∷ more in
      let chunk = chunk_size workers (length ids) in
      elim (leb workers 1 || ltb (length ids) parallel_min_ids) [
        | true ↦ materialize_serial ids
        | false ↦ gathered (worker_results ((length ids + chunk - 1) / chunk) chunk 0 ids)
      ]

  -- countMatches
  unfoldable pub count_matches : ℕ → List Bytes → Option ℕ
  count_matches workers ids = elim (materialize_refs workers ids) [
    | refs l ↦ some (length l)
    | invalid ↦ none
    | crashes ↦ none
  ]
