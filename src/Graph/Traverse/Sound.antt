-- ===== src/Graph/Traverse/Sound.antt =====
-- What the search reports: vertices that a path of that length reaches, each once.
use mlstore_db.Prelude.{
  ℕ, zero, suc, ◌+◌, ◌≤◌, ◌<◌, ◌≡◌, refl, sym, ap, ◌∙◌, true, false, Option, some, List, [], ◌∷◌,
  ◌++◌, arith, length, length-append, append_assoc, Option-cases, Bool-cases, inl, inr, leb,
}
use mlstore_db.Prelude.Bytes.{Bytes}
use mlstore_db.Prelude.Maps.{add, contains, contains-append, Distinct, bytes_eq_refl}
use mlstore_db.Graph.Traverse.{TraverseNode, discover, finished, report, is_full, bfs, search_graph}
use mlstore_db.Graph.Traverse.Names.{
  Reach, here, edge, names, names-append, contains_found, found-Distinct, Distinct-append,
  Distinct-left, names_kept, contains_kept,
}

module _ (adj : Bytes → Option (List Bytes)) (min_depth max_depth limit : ℕ) (start : Bytes) where
  abbrev pub AllReached : List TraverseNode → Type 0
  AllReached [] = Unit {0}
  AllReached (n ∷ ns) = (Reach adj start n.vertex n.depth × (n.depth ≤ max_depth)) × AllReached ns

  -- Reached, and within the bounds of the depth.
  abbrev pub AllReported : List TraverseNode → Type 0
  AllReported [] = Unit {0}
  AllReported (n ∷ ns) =
      (Reach adj start n.vertex n.depth × (min_depth ≤ n.depth) × (n.depth ≤ max_depth))
      × AllReported ns

  reached-append : (l m : List TraverseNode) → AllReached l → AllReached m → AllReached (l ++ m)
  reached-append [] m h k = k
  reached-append (n ∷ l) m h k = (h.0, reached-append l m h.1 k)

  reported-append : (l m : List TraverseNode) → AllReported l → AllReported m → AllReported (l ++ m)
  reported-append [] m h k = k
  reported-append (n ∷ l) m h k = (h.0, reported-append l m h.1 k)

  reached_found :
      (v : Bytes) (d : ℕ) (all ns visited : List Bytes)
      → Reach adj start v d
      → d + 1 ≤ max_depth
      → adj v ≡ some all
      → ((w : Bytes) → contains ns w ≡ true → contains all w ≡ true)
      → AllReached (discover (d + 1) ns visited).0
  unfolding discover contains
  reached_found v d all [] visited r b e sub = tt
  reached_found v d all (n ∷ ns) visited r b e sub = elim (Bool-cases (contains visited n)) [
    | inl seen ↦ rw seen (reached_found v d all ns visited r b e (λ w h. sub w (ground arith)))
    | inr fresh ↦ rw fresh (
      (edge v n d all r e (sub n (ground (arith, bytes_eq_refl n))), b),
      reached_found v d all ns (add n visited) r b e (λ w h. sub w (ground arith)),
    )
  ]

  abbrev Inv : List Bytes → List TraverseNode → List TraverseNode → Type 0
  Inv visited queue result =
      AllReported result
      × AllReached queue
      × Distinct (names result ++ names queue)
      × ((w : Bytes) → contains (names result ++ names queue) w ≡ true → contains visited w ≡ true)
      × (length result < limit)

  -- What the search promises of its result.
  abbrev pub IsSound : List TraverseNode → Type 0
  IsSound l = AllReported l × Distinct (names l) × (length l ≤ limit)

  kept_reported :
      (cur : TraverseNode) (result : List TraverseNode)
      → AllReported result
      → Reach adj start cur.vertex cur.depth × (cur.depth ≤ max_depth)
      → AllReported (report adj min_depth max_depth limit cur result)
  unfolding report
  kept_reported cur result h (r, b) = elim (Bool-cases (leb min_depth cur.depth)) [
    | inl deep ↦ rw deep (reported-append result (cur ∷ []) h ((r, (ground (arith, deep)), b), tt))
    | inr shallow ↦ rw shallow h
  ]

  kept_short :
      (cur : TraverseNode) (result : List TraverseNode)
      → length result < limit
      → (length (report adj min_depth max_depth limit cur result) ≤ limit)
        × (is_full adj min_depth max_depth limit cur
                (report adj min_depth max_depth limit cur result)
              ≡ false
            → length (report adj min_depth max_depth limit cur result) < limit)
  unfolding report is_full
  kept_short cur result h = ground (arith, length-append result (cur ∷ []))

  -- The vertex leaves the queue, reported or not.
  abbrev Kept : List Bytes → TraverseNode → List TraverseNode → List TraverseNode → Type 0
  Kept visited cur queue result =
      let kept = report adj min_depth max_depth limit cur result in
      AllReported kept
      × Distinct (names kept ++ names queue)
      × ((w : Bytes) → contains (names kept ++ names queue) w ≡ true → contains visited w ≡ true)

  kept_lem :
      (visited : List Bytes) (cur : TraverseNode) (queue result : List TraverseNode)
      → Inv visited (cur ∷ queue) result
      → Kept visited cur queue result
  unfolding report
  kept_lem visited cur queue result (good, (front, rest), once, seen, short) = (
    kept_reported cur result good front,
    names_kept (leb min_depth cur.depth) cur result queue once,
    λ w h. seen w (contains_kept (leb min_depth cur.depth) cur result queue w h),
  )

  -- The neighbours join the queue.
  queued_lem :
      (visited : List Bytes) (d : ℕ) (ns : List Bytes) (queue kept : List TraverseNode)
      → Distinct (names kept ++ names queue)
      → ((w : Bytes) → contains (names kept ++ names queue) w ≡ true → contains visited w ≡ true)
      → Distinct (names kept ++ names (queue ++ (discover d ns visited).0))
        × ((w : Bytes)
            → contains (names kept ++ names (queue ++ (discover d ns visited).0)) w ≡ true
            → contains (discover d ns visited).1 w ≡ true)
  queued_lem visited d ns queue kept once seen =
      let (found, after) = discover d ns visited in
      let old = names kept ++ names queue in
      let e : names kept ++ names (queue ++ found) ≡ old ++ names found =
        ap (λ l. names kept ++ l) (names-append queue found)
        ∙ sym (append_assoc (names kept) (names queue) (names found)) in
      rw e (
        Distinct-append old (names found) once (found-Distinct d ns visited)
            (λ w h. ground (arith, (contains_found d ns visited w).0, seen w h)),
        λ w h. ground (
          arith,
          contains-append old (names found) w,
          (contains_found d ns visited w).0,
          (contains_found d ns visited w).1,
          seen w,
        ),
      )

  bfs-IsSound :
      (fuel : ℕ) (visited : List Bytes) (queue result l : List TraverseNode)
      → Inv visited queue result
      → bfs adj min_depth max_depth limit fuel visited queue result ≡ finished l
      → IsSound l
  unfolding bfs
  bfs-IsSound zero visited queue result l inv e = absurd (ground (arith, e))
  bfs-IsSound (suc fuel) visited [] result l (good, none_left, once, seen, short) e =
      let same : result ≡ l = cc in
      rw (← same) (good, Distinct-left (names result) [] once, omega arith)
  bfs-IsSound (suc fuel) visited (cur ∷ queue) result l inv e =
      let kept = report adj min_depth max_depth limit cur result in
      let (good, (front, rest), once, seen, short) = inv in
      let (good', once', seen') = kept_lem visited cur queue result inv in
      let (fits, more_room) = kept_short cur result short in
      elim (Bool-cases (is_full adj min_depth max_depth limit cur kept)) [
        | inl full ↦
            let same : kept ≡ l = ground (arith, full, e) in
            rw (← same) (good', Distinct-left (names kept) (names queue) once', fits)
        | inr more ↦ elim (Bool-cases (leb max_depth cur.depth)) [
          | inl deep ↦
              bfs-IsSound fuel visited queue kept l (good', rest, once', seen', more_room more)
                (rw (more, deep, bfs) at e)
          | inr shallow ↦ elim (Option-cases (adj cur.vertex)) [
            | inl q ↦ absurd (ground (arith, more, shallow, q, e))
            | inr (ns, q) ↦
                let (found, after) = discover (cur.depth + 1) ns visited in
                let (once'', seen'') =
                  queued_lem visited (cur.depth + 1) ns queue kept once' seen' in
                bfs-IsSound fuel after (queue ++ found) kept l
                  (
                    good',
                    reached-append queue found rest (
                        reached_found cur.vertex cur.depth ns ns visited front.0
                          (ground (arith, shallow)) q (λ w h. h)),
                    once'',
                    seen'',
                    more_room more,
                  )
                  (rw (more, shallow, q, bfs) at e)
          ]
        ]
      ]

  -- If the search finishes and the limit is positive, every vertex that it reports is reached from
  -- the start by a path of as many edges as the depth it reports, which is within the bounds; no
  -- vertex is reported twice, and no more than the limit.
  pub search_graph-IsSound :
      (fuel : ℕ) (l : List TraverseNode)
      → 0 < limit
      → search_graph adj min_depth max_depth limit fuel start ≡ finished l
      → IsSound l
  unfolding search_graph contains
  search_graph-IsSound fuel l h e =
      bfs-IsSound fuel (start ∷ []) ((record { vertex = start; depth = 0 }) ∷ []) [] l
        (tt, ((here, omega arith), tt), (refl, tt), (λ w k. k), h) e
