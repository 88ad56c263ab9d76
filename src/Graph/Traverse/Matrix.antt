-- ===== src/Graph/Traverse/Matrix.antt =====
-- Traverse on the two matrices that buildAdj makes of the same edges.
use mlstore_db.Prelude.{
  ℕ, zero, suc, ◌+◌, ◌<◌, ◌≡◌, refl, Bool, true, false, ◌||◌, Option, none, some, List, [], ◌∷◌,
  ◌++◌, arith, length, get_elem?, Option-cases, inl, inr, ok,
}
use mlstore_db.Prelude.Bytes.{Bytes, bytes_eq_iff}
use mlstore_db.Prelude.Int.{ℤ, pos, negsuc}
use mlstore_db.Prelude.Maps.{
  add, contains, contains-add, contains-append, Distinct, bytes_eq_refl, lookup,
}
use mlstore_db.Prelude.Maps.{Distinct-add}
use mlstore_db.Prelude.Strings.{
  sort_strings, contains-sort_strings, Ascending, Ascending-sort_strings,
}
use mlstore_db.Graph.Adjacency.Buckets.{has_edge}
use mlstore_db.Graph.Adjacency.{GraphAdj, neighbors_of, read_cols, slice, build_adj}
use mlstore_db.Graph.Adjacency.Neighbors.{neighbors_of-build_adj}
use mlstore_db.Graph.Traverse.{
  TraverseNode, TraverseOptions, Direction, outgoing, incoming, both, finished, adj_for,
  add_all_names, traverse, table, is_empty_name, min_depth_of, max_depth_of, limit_of,
}
use mlstore_db.Graph.Traverse.Sound.{IsSound, search_graph-IsSound}
use mlstore_db.Graph.Traverse.Total.{AllIn, search_graph_finishes}

contains-get_elem? :
    (l : List Bytes) (i : ℕ) (v : Bytes) → get_elem? l i ≡ some v → contains l v ≡ true
unfolding contains
contains-get_elem? [] i v h = absurd (ground arith)
contains-get_elem? (x ∷ l) zero v h = ground (arith, bytes_eq_iff x v)
contains-get_elem? (x ∷ l) (suc i) v h = ground (arith, contains-get_elem? l i v)

-- What the columns read lies in the table.
read_cols-AllIn :
    (neigh : List Bytes) (cols : List ℕ) (vs : List Bytes)
    → read_cols neigh cols ≡ some vs
    → (w : Bytes) → contains vs w ≡ true
    → contains neigh w ≡ true
unfolding read_cols contains
read_cols-AllIn neigh [] vs h w k = absurd (ground arith)
read_cols-AllIn neigh (col ∷ cols) vs h w k = elim (Option-cases (get_elem? neigh col)) [
  | inl q ↦ absurd (ground (arith, q))
  | inr (v, q) ↦ elim (Option-cases (read_cols neigh cols)) [
    | inl r ↦ absurd (ground (arith, q, r))
    | inr (us, r) ↦
        let in_rest = read_cols-AllIn neigh cols us r w in
        let same : vs ≡ v ∷ us = ground (arith, q, r) in
        ground (arith, same, in_rest, contains-get_elem? neigh col v q, bytes_eq_iff v w)
  ]
]

pub neighbors_of-table :
    (g : GraphAdj) (v : Bytes) (ns : List Bytes)
    → neighbors_of (some g) v ≡ some ns
    → (w : Bytes) → contains ns w ≡ true
    → contains g.neigh w ≡ true
unfolding neighbors_of contains
neighbors_of-table g v ns h w k = elim (Option-cases (lookup v g.key_idx)) [
  | inl q ↦ absurd (ground (arith, q))
  | inr (row, q) ↦ elim (Option-cases (get_elem? g.indptr row)) [
    | inl a ↦ absurd (ground (arith, q, a))
    | inr (start, a) ↦ elim (Option-cases (get_elem? g.indptr (row + 1))) [
      | inl b ↦ absurd (ground (arith, q, a, b))
      | inr (end, b) ↦ elim (Option-cases (slice g.indices start end)) [
        | inl c ↦ absurd (ground (arith, q, a, b, c))
        | inr (cols, c) ↦ read_cols-AllIn g.neigh cols ns (ground (arith, q, a, b, c)) w k
      ]
    ]
  ]
]

pub allin_of :
    (us ns : List Bytes) → ((w : Bytes) → contains ns w ≡ true → contains us w ≡ true) → AllIn us ns
unfolding contains
allin_of us [] h = tt
allin_of us (n ∷ ns) h =
    (h n (ground (arith, bytes_eq_refl n)), allin_of us ns (λ w k. h w (ground arith)))

contains-add_all_names :
    (vs set : List Bytes) (w : Bytes)
    → contains (add_all_names vs set) w ≡ (contains vs w || contains set w)
unfolding add_all_names contains
contains-add_all_names [] set w = refl
contains-add_all_names (v ∷ vs) set w =
    ground (arith, contains-add_all_names vs (add v set) w, contains-add set v w)

add_all_names-Distinct : (vs set : List Bytes) → Distinct set → Distinct (add_all_names vs set)
unfolding add_all_names
add_all_names-Distinct [] set h = h
add_all_names-Distinct (v ∷ vs) set h = add_all_names-Distinct vs (add v set) (Distinct-add v set h)

-- An edge in the direction of the search.
abbrev pub has_step : Direction → List (Bytes × Bytes) → Bytes → Bytes → Bool
has_step outgoing pairs v w = has_edge false pairs v w
has_step incoming pairs v w = has_edge true pairs v w
has_step both pairs v w = has_edge false pairs v w || has_edge true pairs v w

limit_pos : (n : ℤ) → 0 < limit_of n
limit_pos (pos zero) = omega arith
limit_pos (pos (suc n)) = ground arith
limit_pos (negsuc n) = omega arith

module _ (pairs : List (Bytes × Bytes)) where
  abbrev pub out : Option GraphAdj
  out = some (build_adj pairs false)

  abbrev pub inn : Option GraphAdj
  inn = some (build_adj pairs true)

  union_lem :
      (v : Bytes)
      → (ns : List Bytes) × (adj_for both out inn v ≡ some ns)
        × Ascending ns
        × ((w : Bytes) → contains ns w ≡ has_step both pairs v w)
  unfolding adj_for contains
  union_lem v =
      let (a, ea, oa, ca) = neighbors_of-build_adj false pairs v in
      let (b, eb, ob, cb) = neighbors_of-build_adj true pairs v in
      let union = add_all_names b (add_all_names a []) in
      (
        sort_strings union,
        rw (ea, eb, adj_for) refl,
        Ascending-sort_strings union
            (add_all_names-Distinct b (add_all_names a []) (add_all_names-Distinct a [] tt)),
        λ w. ground (
          arith,
          contains-sort_strings union w,
          contains-add_all_names b (add_all_names a []) w,
          contains-add_all_names a [] w,
          ca w,
          cb w,
        ),
      )

  -- On the matrices of a list of edges the neighbours in a direction are read without a panic: they
  -- are exactly the other ends of the edges in that direction, each once, in ascending order.
  pub adj_for-build_adj :
      (dir : Direction) (v : Bytes)
      → (ns : List Bytes) × (adj_for dir out inn v ≡ some ns)
        × Ascending ns
        × ((w : Bytes) → contains ns w ≡ has_step dir pairs v w)
  unfolding adj_for
  adj_for-build_adj outgoing v = neighbors_of-build_adj false pairs v
  adj_for-build_adj incoming v = neighbors_of-build_adj true pairs v
  adj_for-build_adj both v = union_lem v

  closed :
      (dir : Direction) (v : Bytes)
      → (ns : List Bytes) × (adj_for dir out inn v ≡ some ns) × AllIn (table out ++ table inn) ns
  closed dir v =
      let (ns, e, o, c) = adj_for-build_adj dir v in
      let (a, ea, oa, ca) = neighbors_of-build_adj false pairs v in
      let (b, eb, ob, cb) = neighbors_of-build_adj true pairs v in
      (
        ns,
        e,
        allin_of (table out ++ table inn) ns (λ w h. ground (
          arith,
          c w,
          ca w,
          cb w,
          neighbors_of-table (build_adj pairs false) v a ea w,
          neighbors_of-table (build_adj pairs true) v b eb w,
          contains-append (table out) (table inn) w,
        )),
      )

  -- With an edge type, a start and the right to read, Traverse on the matrices of a list of edges
  -- finishes without a panic. Every vertex that it returns is reached from the start by a path, in
  -- the direction asked for, of as many edges as the depth returned with it, which is between the
  -- minimal and the maximal depth; no vertex is returned twice, and no more than the limit.
  pub traverse_lem :
      (opts : TraverseOptions)
      → is_empty_name opts.edge_type ≡ false
      → is_empty_name opts.start ≡ false
      → (l : List TraverseNode) × (traverse opts none out inn ≡ ok (finished l))
        × IsSound
            (adj_for opts.direction out inn)
            (min_depth_of opts.min_depth)
            (max_depth_of opts.max_depth)
            (limit_of opts.limit)
            opts.start
            l
  unfolding traverse
  traverse_lem opts named started =
      let adj = adj_for opts.direction out inn in
      let (l, e) =
        search_graph_finishes adj (min_depth_of opts.min_depth) (max_depth_of opts.max_depth)
          (limit_of opts.limit) (table out ++ table inn) (closed opts.direction) opts.start in
      (
        l,
        rw (named, started, e) refl,
        search_graph-IsSound adj (min_depth_of opts.min_depth) (max_depth_of opts.max_depth)
            (limit_of opts.limit) opts.start (suc (suc (length (table out ++ table inn)))) l
            (limit_pos opts.limit) e,
      )
