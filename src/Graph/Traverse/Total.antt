-- ===== src/Graph/Traverse/Total.antt =====
-- The search ends: every round takes a vertex off the queue, and a vertex enters it once.
use mlstore_db.Prelude.{
  ℕ, zero, suc, ◌+◌, ◌≤◌, ◌<◌, ◌≡◌, refl, true, false, Option, some, List, [], ◌∷◌, ◌++◌, arith,
  if◌then◌else◌, length, length-append, Bool-cases, inl, inr, leb,
}
use mlstore_db.Prelude.Bytes.{Bytes, bytes_eq_iff}
use mlstore_db.Prelude.Maps.{add, contains, contains-add}
use mlstore_db.Graph.Traverse.{TraverseNode, discover, finished, report, is_full, bfs, search_graph}

-- How many of the vertices are not visited.
abbrev pub unvisited : List Bytes → List Bytes → ℕ
unvisited [] visited = 0
unvisited (u ∷ us) visited =
    if contains visited u then unvisited us visited else suc (unvisited us visited)

abbrev pub AllIn : List Bytes → List Bytes → Type 0
AllIn us [] = Unit {0}
AllIn us (n ∷ ns) = (contains us n ≡ true) × AllIn us ns

unvisited_less :
    (us visited : List Bytes) (n : Bytes) → unvisited us (add n visited) ≤ unvisited us visited
unvisited_less [] visited n = omega arith
unvisited_less (u ∷ us) visited n =
    ground (arith, unvisited_less us visited n, contains-add visited n u)

unvisited-add :
    (us visited : List Bytes) (n : Bytes)
    → contains us n ≡ true
    → contains visited n ≡ false
    → unvisited us (add n visited) < unvisited us visited
unfolding contains
unvisited-add [] visited n h k = absurd (ground arith)
unvisited-add (u ∷ us) visited n h k = ground (
  arith,
  unvisited-add us visited n,
  unvisited_less us visited n,
  contains-add visited n u,
  bytes_eq_iff u n,
  bytes_eq_iff n u,
)

discover_fits :
    (us : List Bytes) (d : ℕ) (ns visited : List Bytes)
    → AllIn us ns
    → unvisited us (discover d ns visited).1 + length (discover d ns visited).0
      ≤ unvisited us visited
unfolding discover
discover_fits us d [] visited h = omega arith
discover_fits us d (n ∷ ns) visited h = ground (
  arith,
  discover_fits us d ns visited h.1,
  discover_fits us d ns (add n visited) h.1,
  unvisited-add us visited n h.0,
)

unvisited_most : (us visited : List Bytes) → unvisited us visited ≤ length us
unvisited_most [] visited = omega arith
unvisited_most (u ∷ us) visited = ground (arith, unvisited_most us visited)

module _ (adj : Bytes → Option (List Bytes)) (min_depth max_depth limit : ℕ) (us : List Bytes)
    (closed : (v : Bytes) → (ns : List Bytes) × (adj v ≡ some ns) × AllIn us ns) where
  bfs_finishes :
      (fuel : ℕ) (visited : List Bytes) (queue result : List TraverseNode)
      → unvisited us visited + length queue < fuel
      → (l : List TraverseNode) × (bfs adj min_depth max_depth limit fuel visited queue result
          ≡ finished l)
  unfolding bfs
  bfs_finishes zero visited queue result h = absurd (omega arith)
  bfs_finishes (suc fuel) visited [] result h = (result, refl)
  bfs_finishes (suc fuel) visited (cur ∷ queue) result h =
      let kept = report adj min_depth max_depth limit cur result in
      elim (Bool-cases (is_full adj min_depth max_depth limit cur kept)) [
        | inl full ↦ (kept, rw (full, bfs) refl)
        | inr more ↦ elim (Bool-cases (leb max_depth cur.depth)) [
          | inl deep ↦ rw (more, deep, bfs) (bfs_finishes fuel visited queue kept (omega arith))
          | inr shallow ↦
              let (ns, q, inside) = closed cur.vertex in
              let (found, after) = discover (cur.depth + 1) ns visited in
              rw (more, shallow, q, bfs)
                (bfs_finishes fuel after (queue ++ found) kept (
                  omega (
                    arith,
                    length-append queue found,
                    discover_fits us (cur.depth + 1) ns visited inside,
                  )))
        ]
      ]

  -- If every vertex has neighbours, all in a list, fuel of two more than its length is enough.
  pub search_graph_finishes :
      (start : Bytes)
      → (l : List TraverseNode) × (search_graph adj min_depth max_depth limit
            (suc (suc (length us)))
            start
          ≡ finished l)
  unfolding search_graph
  search_graph_finishes start =
      bfs_finishes (suc (suc (length us))) (start ∷ [])
        ((record { vertex = start; depth = 0 }) ∷ []) []
        (omega (arith, unvisited_most us (start ∷ [])))
