-- ===== src/Graph/Path.antt =====
-- db/graph.go: the breadth-first search of ShortestPath, and the pairs that ensureGraphLocked takes
-- for the matrix.
pub mod Walks
pub mod Explore
pub mod Search
pub mod Shortest
use mlstore_db.Prelude.{
  ℕ, zero, suc, Bool, true, false, ◌||◌, Option, none, some, List, [], ◌∷◌, ◌++◌, length, leb,
  if◌then◌else◌, DbError, Result, ok, err,
}
use mlstore_db.Prelude.Bytes.{Bytes, bytes_eq}
use mlstore_db.Prelude.Int.{ℤ}
use mlstore_db.Prelude.Maps.{lookup, put}
use mlstore_db.Graph.Adjacency.{GraphAdj, neighbors_of}
use mlstore_db.Graph.Traverse.{clamp_positive, is_empty_name, table}

-- The ends of the edge documents of a collection, but those with an empty end.
unfoldable pub named_pairs : List (Bytes × Bytes) → List (Bytes × Bytes)
named_pairs [] = []
named_pairs ((from, to) ∷ ps) =
    if is_empty_name from || is_empty_name to then named_pairs ps else (from, to) ∷ named_pairs ps

-- prev: the vertex from which each was first reached.
abbrev pub Prev : Type 0
Prev = List (Bytes × Bytes)

-- _, seen := prev[v]
abbrev pub is_seen : Prev → Bytes → Bool
is_seen prev v = elim (lookup v prev) [ none ↦ false | some _ ↦ true ]

-- prev[v], empty where it is missing
abbrev pub prev_of : Prev → Bytes → Bytes
prev_of prev v = elim (lookup v prev) [ none ↦ [] | some u ↦ u ]

-- The local type `item`.
pub record Item : Type 0 where
  pub v : Bytes
  pub d : ℕ

-- The loop over the neighbours of `cur`: `to` was met, or these enter the queue.
pub data Explored : Type 0 where
  hit : Prev → Explored
  more : List Item → Prev → Explored

abbrev pub queued : Item → Explored → Explored
queued x (hit prev) = hit prev
queued x (more new prev) = more (x ∷ new) prev

unfoldable pub explore : Bytes → Bytes → ℕ → List Bytes → Prev → Explored
explore to cur d [] prev = more [] prev
explore to cur d (n ∷ ns) prev = elim (is_seen prev n) [
  | true ↦ explore to cur d ns prev
  | false ↦ elim (bytes_eq n to) [
    | true ↦ hit (put n cur prev)
    | false ↦ queued (record { v = n; d = d }) (explore to cur d ns (put n cur prev))
  ]
]

-- The path, from its end `x` back; the Go code appends and reverses it then. `none` is fuel that
-- ran out.
unfoldable pub rebuild : ℕ → Prev → Bytes → List Bytes → Option (List Bytes)
rebuild zero prev x path = none
rebuild (suc f) prev x path = elim (is_empty_name x || is_empty_name (prev_of prev x)) [
  | true ↦ some path
  | false ↦ rebuild f prev (prev_of prev x) (prev_of prev x ∷ path)
]

pub data PathSearch : Type 0 where
  out_of_fuel : PathSearch
  panics : PathSearch
  no_path : PathSearch
  found : List Bytes → PathSearch

abbrev pub found_or : Option (List Bytes) → PathSearch
found_or none = out_of_fuel
found_or (some p) = found p

module _ (adj : Bytes → Option (List Bytes)) (to : Bytes) (max_depth : ℕ) where
  -- A round of the loop for each unit of fuel. A path has at most one vertex more than the maximal
  -- depth.
  unfoldable pub path_bfs : ℕ → Prev → List Item → PathSearch
  path_bfs zero prev queue = out_of_fuel
  path_bfs (suc fuel) prev [] = no_path
  path_bfs (suc fuel) prev (cur ∷ queue) = elim (leb max_depth cur.d) [
    | true ↦ path_bfs fuel prev queue
    | false ↦ elim (adj cur.v) [
      | none ↦ panics
      | some ns ↦ elim (explore to cur.v (suc cur.d) ns prev) [
        | hit after ↦ found_or (rebuild (suc (suc max_depth)) after to (to ∷ []))
        | more new after ↦ path_bfs fuel after (queue ++ new)
      ]
    ]
  ]

abbrev pub path_depth_of : ℤ → ℕ
path_depth_of = clamp_positive 6 32

-- `denied` is the error of checkReadLocked.
unfoldable pub shortest_path :
    Bytes → Bytes → Bytes → ℤ → Option DbError → Option GraphAdj → Result PathSearch
shortest_path edge_type from to max_depth denied out =
    if is_empty_name edge_type
    then err DbError.other
    else if is_empty_name from || is_empty_name to
    then err DbError.other
    else if bytes_eq from to
    then ok (found (from ∷ []))
    else elim denied [
      | some e ↦ err e
      | none ↦ elim out [
        | none ↦ ok no_path
        | some g ↦ ok (
            path_bfs (neighbors_of (some g)) to (path_depth_of max_depth)
              (suc (suc (length (table (some g))))) ((from, []) ∷ [])
              ((record { v = from; d = 0 }) ∷ []))
      ]
    ]
