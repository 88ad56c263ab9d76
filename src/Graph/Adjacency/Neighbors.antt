-- ===== src/Graph/Adjacency/Neighbors.antt =====
-- The neighbours that the matrix of buildAdj gives are the targets of the edges, each once and in
-- ascending order.
use mlstore_db.Prelude.{
  ◌≡◌, refl, ◌∙◌, subst, Bool, true, false, none, some, List, [], ◌∷◌, arith, Bool-cases, inl, inr,
}
use mlstore_db.Prelude.Bytes.{Bytes}
use mlstore_db.Prelude.Maps.{lookup, keys, get_set, contains, Distinct, lookup_absent}
use mlstore_db.Prelude.Strings.{
  sort_strings, Ascending, contains-sort_strings, Ascending-sort_strings, Ascending-Distinct,
}
use mlstore_db.Graph.Adjacency.{
  GraphAdj, add_rows, neighbors_of, build_adj, build_from, buckets, no_rows,
}
use mlstore_db.Graph.Adjacency.Buckets.{has_edge, buckets-IsClean, contains-buckets}
use mlstore_db.Graph.Adjacency.Added.{Row, neighbors_of-Row, targets, rows_added}

module _ (bucket : List (Bytes × List Bytes)) where
  -- A matrix with a row for each key of the bucket, and no other key.
  abbrev Complete : GraphAdj → Type 0
  Complete g =
      ((j : Bytes) → contains (keys bucket) j ≡ true → Row g j (targets bucket j))
      × ((j : Bytes) → contains (keys bucket) j ≡ false → lookup j g.key_idx ≡ none)

  rows-Complete :
      Distinct (keys bucket) → Complete (add_rows bucket (sort_strings (keys bucket)) no_rows).adj
  unfolding lookup
  rows-Complete d =
      let ks = sort_strings (keys bucket) in
      let (rows, keeps, misses) =
        rows_added bucket ks no_rows (λ v col e. absurd (ground arith)) (refl, refl)
          (Ascending-Distinct ks (Ascending-sort_strings (keys bucket) d)) in
      (
        (λ j e. rows j (contains-sort_strings (keys bucket) j ∙ e)),
        λ j e. misses j (contains-sort_strings (keys bucket) j ∙ e),
      )

  targets_absent : (v : Bytes) → contains (keys bucket) v ≡ false → targets bucket v ≡ []
  unfolding sort_strings
  targets_absent v e = ground (arith, lookup_absent v bucket e)

  neighbors_of-Complete :
      (g : GraphAdj) (v : Bytes) → Complete g → neighbors_of (some g) v ≡ some (targets bucket v)
  unfolding neighbors_of
  neighbors_of-Complete g v (rows, misses) = elim (Bool-cases (contains (keys bucket) v)) [
    | inl there ↦ neighbors_of-Row g v (targets bucket v) (rows v there)
    | inr absent ↦ rw (misses v absent, targets_absent v absent, neighbors_of)
  ]

  build_from-Complete :
      (ks : List Bytes)
      → keys bucket ≡ ks
      → Distinct (keys bucket)
      → Complete (build_from bucket ks)
  unfolding build_from lookup contains
  build_from-Complete [] e d = ((λ j there. absurd (ground (arith, e))), λ j absent. refl)
  build_from-Complete (k ∷ ks) e d =
      subst (λ l. Complete (add_rows bucket (sort_strings l) no_rows).adj) e (rows-Complete d)

module _ (reverse : Bool) (pairs : List (Bytes × Bytes)) where
  build_adj-Complete : Complete (buckets reverse pairs []) (build_adj pairs reverse)
  unfolding build_adj lookup
  build_adj-Complete =
      let bucket = buckets reverse pairs [] in
      let clean = buckets-IsClean reverse pairs [] (tt, λ w. tt) in
      build_from-Complete bucket (keys bucket) refl clean.0

  -- In the matrix of a list of edges, either way round, the neighbours of a vertex are read without
  -- a panic; they are exactly the vertices to which an edge from it goes, in strictly ascending
  -- order, so each once.
  pub neighbors_of-build_adj :
      (v : Bytes)
      → (r : List Bytes) × (neighbors_of (some (build_adj pairs reverse)) v ≡ some r)
        × Ascending r
        × ((w : Bytes) → contains r w ≡ has_edge reverse pairs v w)
  unfolding lookup contains
  neighbors_of-build_adj v =
      let bucket = buckets reverse pairs [] in
      let clean = buckets-IsClean reverse pairs [] (tt, λ w. tt) in
      (
        targets bucket v,
        neighbors_of-Complete bucket (build_adj pairs reverse) v build_adj-Complete,
        Ascending-sort_strings (get_set v bucket) (clean.1 v),
        λ w. ground (
          arith,
          contains-sort_strings (get_set v bucket) w,
          contains-buckets reverse pairs [] v w,
        ),
      )
