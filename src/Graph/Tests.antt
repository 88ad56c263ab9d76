-- ===== src/Graph/Tests.antt =====
-- The graph theorems at a graph of three vertices.
use mlstore_db.Prelude.{◌≡◌, refl, false, Option, none, some, List, [], ◌∷◌, ok}
use mlstore_db.Prelude.Bytes.{Bytes, bytes_eq}
use mlstore_db.Prelude.Int.{pos, negsuc}
use mlstore_db.Prelude.Maps.{contains, lookup, put}
use mlstore_db.Prelude.Strings.{Ascending}
use mlstore_db.Graph.Adjacency.{neighbors_of, build_adj}
use mlstore_db.Graph.Adjacency.Buckets.{has_edge}
use mlstore_db.Graph.Adjacency.Neighbors.{neighbors_of-build_adj}
use mlstore_db.Graph.Traverse.{
  TraverseNode, TraverseOptions, outgoing, both, finished, adj_for, traverse,
}
use mlstore_db.Graph.Traverse.Sound.{IsSound}
use mlstore_db.Graph.Path.{
  PathSearch, found, no_path, named_pairs, shortest_path, Item, path_bfs, explore, rebuild,
}
use mlstore_db.Graph.Path.Search.{IsAnswer}
use mlstore_db.Graph.Path.Shortest.{is_edge, shortest_path_lem}
use mlstore_db.Graph.Traverse.Matrix.{has_step, out, inn, adj_for-build_adj, traverse_lem}

abbrev a : Bytes
a = 97 ∷ []

abbrev b : Bytes
b = 98 ∷ []

abbrev c : Bytes
c = 99 ∷ []

-- a twice to b, a to c, b to c, c to a
abbrev edges : List (Bytes × Bytes)
edges = (a, c) ∷ (a, b) ∷ (a, b) ∷ (b, c) ∷ (c, a) ∷ []

abbrev from_a : TraverseOptions
from_a = record {
  edge_type = c;
  start = a;
  direction = outgoing;
  min_depth = pos 1;
  max_depth = negsuc 0;
  limit = pos 2;
}

neighbors_of-build_adj_example :
    (r : List Bytes) × (neighbors_of (some (build_adj edges false)) a ≡ some r)
    × Ascending r
    × ((w : Bytes) → contains r w ≡ has_edge false edges a w)
neighbors_of-build_adj_example = neighbors_of-build_adj false edges a

adj_for-build_adj_example :
    (ns : List Bytes) × (adj_for both (out edges) (inn edges) a ≡ some ns)
    × Ascending ns
    × ((w : Bytes) → contains ns w ≡ has_step both edges a w)
adj_for-build_adj_example = adj_for-build_adj edges both a

traverse_lem_example :
    (l : List TraverseNode) × (traverse from_a none (out edges) (inn edges) ≡ ok (finished l))
    × IsSound (adj_for outgoing (out edges) (inn edges)) 1 5 2 a l
traverse_lem_example = traverse_lem edges from_a refl refl

-- The empty end is left out.
abbrev edge_docs : List (Bytes × Bytes)
edge_docs = (b, []) ∷ edges

abbrev neighbours : Bytes → Option (List Bytes)
neighbours v = lookup v ((a, b ∷ c ∷ []) ∷ (b, c ∷ []) ∷ (c, a ∷ []) ∷ [])

abbrev at_b : List Item
at_b = (record { v = b; d = 0 }) ∷ []

two_steps : path_bfs neighbours a 2 9 ((b, []) ∷ []) at_b ≡ found (b ∷ c ∷ a ∷ [])
unfolding path_bfs explore rebuild lookup put bytes_eq
two_steps = refl

-- One edge is not enough.
too_far : path_bfs neighbours a 1 9 ((b, []) ∷ []) at_b ≡ no_path
unfolding path_bfs explore rebuild lookup put bytes_eq
too_far = refl

shortest_path_lem_example :
    (r : PathSearch) × (shortest_path c b a
        (pos 2)
        none
        (some (build_adj (named_pairs edge_docs) false))
      ≡ ok r)
    × IsAnswer (is_edge edge_docs) b a 2 r
unfolding bytes_eq
shortest_path_lem_example = shortest_path_lem edge_docs c b a (pos 2) refl refl refl refl
