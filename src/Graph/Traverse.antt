-- ===== src/Graph/Traverse.antt =====
-- db/graph.go: Neighbors and the breadth-first search of Traverse over the two matrices of an edge
-- type.
pub mod Names
pub mod Sound
pub mod Total
pub mod Matrix
use mlstore_db.Prelude.{
  ℕ, zero, suc, ◌+◌, ◌-◌, Bool, true, false, ◌&&◌, Option, none, some, List, [], ◌∷◌, ◌++◌, length,
  leb, ltb, if◌then◌else◌, DbError, Result, ok, err,
}
use mlstore_db.Prelude.Bytes.{Bytes}
use mlstore_db.Prelude.Int.{ℤ, pos, negsuc}
use mlstore_db.Prelude.Options.{◌>>=◌}
use mlstore_db.Prelude.Maps.{add, contains}
use mlstore_db.Prelude.Strings.{sort_strings}
use mlstore_db.Graph.Adjacency.{GraphAdj, neighbors_of}

-- A Direction is an int; every value but the two named ones behaves as Outgoing, 0 too.
pub data Direction : Type 0 where
  outgoing : Direction
  incoming : Direction
  both : Direction

unfoldable pub add_all_names : List Bytes → List Bytes → List Bytes
add_all_names [] set = set
add_all_names (v ∷ vs) set = add_all_names vs (add v set)

-- adjFor, and the same choice in Neighbors; the outer `none` is a panic.
unfoldable pub adj_for : Direction → Option GraphAdj → Option GraphAdj → Bytes → Option (List Bytes)
unfolding add_all_names
adj_for outgoing out inn v = neighbors_of out v
adj_for incoming out inn v = neighbors_of inn v
adj_for both out inn v = do
  a ← neighbors_of out v
  b ← neighbors_of inn v
  some (sort_strings (add_all_names b (add_all_names a [])))

-- TraverseOptions
pub record TraverseOptions : Type 0 where
  pub edge_type : Bytes
  pub start : Bytes
  pub direction : Direction
  pub min_depth : ℤ
  pub max_depth : ℤ
  pub limit : ℤ

-- A positive value, or the default; at most the cap.
abbrev pub clamp_positive : ℕ → ℕ → ℤ → ℕ
clamp_positive default cap (pos zero) = default
clamp_positive default cap (pos (suc n)) = if ltb cap (suc n) then cap else suc n
clamp_positive default cap (negsuc n) = default

abbrev pub max_depth_of : ℤ → ℕ
max_depth_of = clamp_positive 5 32

abbrev pub limit_of : ℤ → ℕ
limit_of = clamp_positive 10000 100000

abbrev pub min_depth_of : ℤ → ℕ
min_depth_of (pos n) = n
min_depth_of (negsuc n) = 0

-- TraverseNode, and the local type `item`.
pub record TraverseNode : Type 0 where
  pub vertex : Bytes
  pub depth : ℕ

-- The loop over the neighbours of one vertex: what it appends to the queue, and `visited`.
unfoldable pub discover : ℕ → List Bytes → List Bytes → List TraverseNode × List Bytes
discover d [] visited = ([], visited)
discover d (n ∷ ns) visited =
    let skipped = discover d ns visited in
    let (found, after) = discover d ns (add n visited) in
    if contains visited n then skipped else ((record { vertex = n; depth = d }) ∷ found, after)

pub data Search : Type 0 where
  out_of_fuel : Search
  panics : Search
  finished : List TraverseNode → Search

module _ (adj : Bytes → Option (List Bytes)) (min_depth max_depth limit : ℕ) where
  unfoldable pub report : TraverseNode → List TraverseNode → List TraverseNode
  report cur result = if leb min_depth cur.depth then result ++ cur ∷ [] else result

  unfoldable pub is_full : TraverseNode → List TraverseNode → Bool
  is_full cur result = leb min_depth cur.depth && leb limit (length result)

  -- A round of the loop for each unit of fuel; the queue is what is left of it from `head` on.
  unfoldable pub bfs : ℕ → List Bytes → List TraverseNode → List TraverseNode → Search
  bfs zero visited queue result = out_of_fuel
  bfs (suc fuel) visited [] result = finished result
  bfs (suc fuel) visited (cur ∷ queue) result = elim (is_full cur (report cur result)) [
    | true ↦ finished (report cur result)
    | false ↦ elim (leb max_depth cur.depth) [
      | true ↦ bfs fuel visited queue (report cur result)
      | false ↦ elim (adj cur.vertex) [
        | none ↦ panics
        | some ns ↦
            bfs fuel (discover (cur.depth + 1) ns visited).1
              (queue ++ (discover (cur.depth + 1) ns visited).0) (report cur result)
      ]
    ]
  ]

  -- From the start on: visited and queued at depth 0.
  unfoldable pub search_graph : ℕ → Bytes → Search
  search_graph fuel start = bfs fuel (start ∷ []) ((record { vertex = start; depth = 0 }) ∷ []) []

-- The vertices in the table of a matrix.
abbrev pub table : Option GraphAdj → List Bytes
table none = []
table (some g) = g.neigh

abbrev pub is_empty_name : Bytes → Bool
is_empty_name [] = true
is_empty_name (b ∷ bs) = false

-- The search that the options ask for; its fuel is two more than the vertices of both tables.
abbrev pub run_search : TraverseOptions → Option GraphAdj → Option GraphAdj → Search
run_search opts out inn =
    search_graph (adj_for opts.direction out inn) (min_depth_of opts.min_depth)
      (max_depth_of opts.max_depth) (limit_of opts.limit)
      (suc (suc (length (table out ++ table inn)))) opts.start

-- `denied` is the error of checkReadLocked.
unfoldable pub traverse :
    TraverseOptions → Option DbError → Option GraphAdj → Option GraphAdj → Result Search
traverse opts denied out inn =
    if is_empty_name opts.edge_type
    then err DbError.other
    else if is_empty_name opts.start
    then err DbError.other
    else elim (denied) [ some e ↦ err e | none ↦ ok (run_search opts out inn) ]
