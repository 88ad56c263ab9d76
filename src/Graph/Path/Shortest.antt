-- ===== src/Graph/Path/Shortest.antt =====
-- ShortestPath on the matrix that ensureGraphLocked makes of the edge documents of a collection.
use mlstore_db.Prelude.{
  suc, ◌≤◌, ◌≡◌, inl, refl, Bool, false, not, ◌&&◌, none, some, List, [], ◌∷◌, arith, length, ok,
}
use mlstore_db.Prelude.Bytes.{Bytes, bytes_eq, bytes_eq_iff}
use mlstore_db.Prelude.Int.{ℤ}
use mlstore_db.Prelude.Maps.{lookup, contains, bytes_eq_refl}
use mlstore_db.Graph.Adjacency.{neighbors_of, build_adj}
use mlstore_db.Graph.Adjacency.Buckets.{has_edge}
use mlstore_db.Graph.Adjacency.Neighbors.{neighbors_of-build_adj}
use mlstore_db.Graph.Traverse.{is_empty_name, table}
use mlstore_db.Graph.Traverse.Total.{AllIn}
use mlstore_db.Graph.Traverse.Matrix.{neighbors_of-table, allin_of}
use mlstore_db.Graph.Path.{Prev, PathSearch, path_bfs, named_pairs, path_depth_of, shortest_path}
use mlstore_db.Graph.Path.Explore.{unseen}
use mlstore_db.Graph.Path.Search.{IsAnswer, path_bfs_lem}

-- An edge document with two ends that are not empty.
abbrev pub is_edge : List (Bytes × Bytes) → Bytes → Bytes → Bool
is_edge docs u v = not (is_empty_name u) && (not (is_empty_name v) && has_edge false docs u v)

has_edge-named_pairs :
    (docs : List (Bytes × Bytes)) (u v : Bytes)
    → has_edge false (named_pairs docs) u v ≡ is_edge docs u v
unfolding named_pairs
has_edge-named_pairs [] u v = ground arith
has_edge-named_pairs ((a, b) ∷ docs) u v =
    ground (arith, has_edge-named_pairs docs u v, bytes_eq_iff a u, bytes_eq_iff b v)

unseen_most : (us : List Bytes) (prev : Prev) → unseen us prev ≤ length us
unseen_most [] prev = omega arith
unseen_most (u ∷ us) prev = ground (arith, unseen_most us prev)

module _ (docs : List (Bytes × Bytes)) where
  closed :
      (v : Bytes)
      → (ns : List Bytes) × (neighbors_of (some (build_adj (named_pairs docs) false)) v ≡ some ns)
        × ((w : Bytes) → contains ns w ≡ is_edge docs v w)
        × AllIn (table (some (build_adj (named_pairs docs) false))) ns
  closed v =
      let g = build_adj (named_pairs docs) false in
      let (ns, e, o, c) = neighbors_of-build_adj false (named_pairs docs) v in
      (
        ns,
        e,
        λ w. ground (arith, c w, has_edge-named_pairs docs v w),
        allin_of (table (some g)) ns (neighbors_of-table g v ns e),
      )

  -- With an edge type, two different ends that are not empty and the right to read, ShortestPath on
  -- the matrix of the edge documents ends without a panic. If it answers with a path, that path
  -- leads along edge documents from the one end to the other, has at most as many edges as the
  -- maximal depth, and no walk between the ends has fewer. If it answers with none, every walk
  -- between them has more edges than the maximal depth.
  pub shortest_path_lem :
      (edge_type from to : Bytes) (max_depth : ℤ)
      → is_empty_name edge_type ≡ false
      → is_empty_name from ≡ false
      → is_empty_name to ≡ false
      → bytes_eq from to ≡ false
      → (r : PathSearch) × (shortest_path edge_type from to max_depth none
            (some (build_adj (named_pairs docs) false))
          ≡ ok r)
        × IsAnswer (is_edge docs) from to (path_depth_of max_depth) r
  unfolding shortest_path lookup
  shortest_path_lem edge_type from to max_depth typed started ended apart =
      let g = build_adj (named_pairs docs) false in
      let prev : Prev = (from, []) ∷ [] in
      let max = path_depth_of max_depth in
      (
        path_bfs (neighbors_of (some g)) to max (suc (suc (length (table (some g))))) prev
            ((record { v = from; d = 0 }) ∷ []),
        rw (typed, started, ended, apart) refl,
        path_bfs_lem (is_edge docs) from to max (table (some g)) (neighbors_of (some g)) started
            (λ u v e. ground (arith, e)) closed (suc (suc (length (table (some g))))) prev
            ((record { v = from; d = 0 }) ∷ []) (omega (arith, unseen_most (table (some g)) prev))
            (
              (((refl, ground (arith, bytes_eq_refl from)), omega arith, λ k w. omega arith), tt),
              tt,
              λ u e. inl (inl (ground (arith, e, bytes_eq_iff from u))),
              ground (arith, apart),
              ground (arith, bytes_eq_refl from),
            ),
      )
