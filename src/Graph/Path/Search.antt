-- ===== src/Graph/Path/Search.antt =====
-- The rounds of the search: what they keep, that they end, and what they answer.
use mlstore_db.Prelude.{
  ℕ, zero, suc, ◌+◌, ◌≤◌, ◌<◌, ◌≡◌, ◌⊎◌, inl, inr, refl, subst, Bool, true, false, Option, some,
  List, [], ◌∷◌, ◌++◌, arith, length, length-append, leb, Bool-cases,
}
use mlstore_db.Prelude.Bytes.{Bytes}
use mlstore_db.Prelude.Maps.{contains}
use mlstore_db.Graph.Traverse.{is_empty_name}
use mlstore_db.Graph.Traverse.Total.{AllIn}
use mlstore_db.Graph.Path.{
  Prev, is_seen, Item, Explored, hit, more, explore, rebuild, PathSearch, out_of_fuel, panics,
  no_path, found, found_or, path_bfs,
}
use mlstore_db.Graph.Path.Walks.{seen-Extends, Walk, Depth-named, Route, rebuild_lem}
use mlstore_db.Graph.Path.Explore.{
  unseen, Queued, Ascend, Least, AllGood, good-Extends, Grown, Outcome, explore_lem, Fits,
  explore-Fits,
}

Ascend-widen :
    (lo lo' hi hi' : ℕ) (q : List Item) → lo' ≤ lo → hi ≤ hi' → Ascend lo hi q → Ascend lo' hi' q
Ascend-widen lo lo' hi hi' [] a b h = tt
Ascend-widen lo lo' hi hi' (x ∷ q) a b (l, m, r) =
    (omega arith, omega arith, Ascend-widen x.d x.d hi hi' q (omega arith) b r)

Ascend-append :
    (lo hi : ℕ) (q new : List Item)
    → lo ≤ hi
    → Ascend lo hi q
    → Ascend hi hi new
    → Ascend lo hi (q ++ new)
Ascend-append lo hi [] new b h n = Ascend-widen hi lo hi hi new b (omega arith) n
Ascend-append lo hi (x ∷ q) new b (l, m, r) n = (l, m, Ascend-append x.d hi q new m r n)

Queued-left : (v : Bytes) (q new : List Item) → Queued v q → Queued v (q ++ new)
Queued-left v [] new h = elim h [ ]
Queued-left v (x ∷ q) new (inl e) = inl e
Queued-left v (x ∷ q) new (inr h) = inr (Queued-left v q new h)

Queued-right : (v : Bytes) (q new : List Item) → Queued v new → Queued v (q ++ new)
Queued-right v [] new h = h
Queued-right v (x ∷ q) new h = inr (Queued-right v q new h)

-- The items that are left come no earlier than the first.
abbrev pub InOrder : List Item → Type 0
InOrder [] = Unit {0}
InOrder (x ∷ q) = Ascend x.d (suc x.d) q

Ascend-InOrder : (lo : ℕ) (q : List Item) → Ascend lo (suc lo) q → InOrder q
Ascend-InOrder lo [] h = tt
Ascend-InOrder lo (x ∷ q) (l, m, r) =
    Ascend-widen x.d x.d (suc lo) (suc x.d) q (omega arith) (omega arith) r

module _ (edge : Bytes → Bytes → Bool) (from to : Bytes) (max : ℕ) where
  -- What the search promises of its answer.
  abbrev pub IsAnswer : PathSearch → Type 0
  IsAnswer out_of_fuel = ⊥
  IsAnswer panics = ⊥
  IsAnswer no_path = (k : ℕ) → Walk edge from k to → max < k
  IsAnswer (found p) =
      (l : List Bytes) × (p ≡ from ∷ l)
      × Route edge from from to l
      × (length l ≤ max)
      × ((k : ℕ) → Walk edge from k to → length l ≤ k)

  good-append :
      (prev : Prev) (q new : List Item)
      → AllGood edge from to max prev q
      → AllGood edge from to max prev new
      → AllGood edge from to max prev (q ++ new)
  good-append prev [] new h n = n
  good-append prev (x ∷ q) new (g, h) n = (g, good-append prev q new h n)

  -- A vertex of `prev` waits in the queue, or has its neighbours in `prev`, or is too far away.
  abbrev Settled : Prev → List Item → Bytes → Type 0
  Settled prev q u =
      Queued u q
      ⊎ (((w : Bytes) → edge u w ≡ true → is_seen prev w ≡ true)
          ⊎ ((k : ℕ) → Walk edge from k u → max ≤ k))

  abbrev Inv : Prev → List Item → Type 0
  Inv prev q =
      AllGood edge from to max prev q
      × InOrder q
      × ((u : Bytes) → is_seen prev u ≡ true → Settled prev q u)
      × (is_seen prev to ≡ false)
      × (is_seen prev from ≡ true)

  Queued-late :
      (prev : Prev) (lo hi : ℕ) (q : List Item) (v : Bytes)
      → AllGood edge from to max prev q
      → Ascend lo hi q
      → Queued v q
      → (k : ℕ) → Walk edge from k v
      → lo ≤ k
  Queued-late prev lo hi [] v g a h k w = elim h [ ]
  Queued-late prev lo hi (x ∷ q) v ((d, m, l), g) (b, c, a) (inl e) k w =
      let late = l k (subst (λ (u : Bytes). Walk edge from k u) e w) in omega arith
  Queued-late prev lo hi (x ∷ q) v ((d, m, l), g) (b, c, a) (inr h) k w =
      let late = Queued-late prev x.d hi q v g a h k w in omega arith

  -- A vertex at the end of a walk that is no longer than the depth reached is in `prev`.
  covered :
      (prev : Prev) (lo hi : ℕ) (q : List Item)
      → AllGood edge from to max prev q
      → Ascend lo hi q
      → ((u : Bytes) → is_seen prev u ≡ true → Settled prev q u)
      → is_seen prev from ≡ true
      → lo ≤ max
      → (k : ℕ) (v : Bytes) → Walk edge from k v
      → k ≤ lo
      → is_seen prev v ≡ true
  covered prev lo hi q g a s root m zero v w b = cc
  covered prev lo hi q g a s root m (suc k) v (u, w, e) b =
      elim (s u (covered prev lo hi q g a s root m k u w (omega arith))) [
        | inl h ↦ let late = Queued-late prev lo hi q u g a h k w in absurd (omega arith)
        | inr (inl all) ↦ all v e
        | inr (inr far) ↦ let late = far k w in absurd (omega arith)
      ]

  module _ (us : List Bytes) (adj : Bytes → Option (List Bytes))
      (started : is_empty_name from ≡ false)
      (edge_named : (u v : Bytes) → edge u v ≡ true → is_empty_name v ≡ false)
      (closed : (v : Bytes)
        → (ns : List Bytes) × (adj v ≡ some ns)
          × ((w : Bytes) → contains ns w ≡ edge v w)
          × AllIn us ns) where
    -- At the maximal depth the vertex leaves the queue.
    passed : (prev : Prev) (x : Item) (q : List Item) → max ≤ x.d → Inv prev (x ∷ q) → Inv prev q
    passed prev x q deep (((d, m, l), g), o, s, t, r) = (
      g,
      Ascend-InOrder x.d q o,
      λ u e. elim (s u e) [
        | inl (inl same) ↦ inr (
            inr (λ k w.
              let late = l k (subst (λ (v : Bytes). Walk edge from k v) same w) in omega arith))
        | inl (inr h) ↦ inl h
        | inr h ↦ inr h
      ],
      t,
      r,
    )

    -- Below it, its neighbours are in `prev` then.
    expanded :
        (prev after : Prev) (x : Item) (q new : List Item) (ns : List Bytes)
        → ((w : Bytes) → contains ns w ≡ edge x.v w)
        → Inv prev (x ∷ q)
        → Grown edge from to max ns prev (suc x.d) new after
        → Inv after (q ++ new)
    expanded prev after x q new ns c (((d, m, l), g), o, s, t, r) (g', o', e, w, all, t') = (
      good-append after q new (good-Extends edge from to max prev after q e g) g',
      Ascend-InOrder x.d (q ++ new) (Ascend-append x.d (suc x.d) q new (omega arith) o o'),
      λ u h. elim (w u h) [
        | inl old ↦ elim (s u old) [
          | inl (inl same) ↦ inr (inl (λ v f. all v (ground (arith, c v, same, f))))
          | inl (inr h') ↦ inl (Queued-left u q new h')
          | inr (inl done) ↦ inr (inl (λ v f. seen-Extends prev after v e (done v f)))
          | inr (inr far) ↦ inr (inr far)
        ]
        | inr h' ↦ inl (Queued-right u q new h')
      ],
      t',
      seen-Extends prev after from e r,
    )

    -- What is not in `prev` is farther than the vertex that leaves the queue.
    farther :
        (prev : Prev) (x : Item) (q : List Item)
        → Inv prev (x ∷ q)
        → (v : Bytes) → is_seen prev v ≡ false
        → Least edge from to max v (suc x.d)
    farther prev x q (((d, m, l), g), o, s, t, r) v h k w = elim (Bool-cases (leb k x.d)) [
      | inl near ↦
          let seen =
            covered prev x.d (suc x.d) (x ∷ q) ((d, m, l), g) (omega arith, omega arith, o) s r m k
              v w (ground (arith, near)) in
          absurd (ground (arith, seen, h))
      | inr far ↦ ground (arith, far)
    ]

    -- The rest of a round, if the rounds that follow are right.
    after_round :
        (fuel : ℕ) (prev : Prev) (x : Item) (q : List Item) (ns : List Bytes) (r : Explored)
        → ((w : Bytes) → contains ns w ≡ edge x.v w)
        → Inv prev (x ∷ q)
        → unseen us prev + length (x ∷ q) < suc fuel
        → suc x.d ≤ max
        → Outcome edge from to max ns prev (suc x.d) r
        → Fits us prev r
        → ((after : Prev) (rest : List Item)
            → unseen us after + length rest < fuel
            → Inv after rest
            → IsAnswer (path_bfs adj to max fuel after rest))
        → IsAnswer (elim r [
          | hit after ↦ found_or (rebuild (suc (suc max)) after to (to ∷ []))
          | more new after ↦ path_bfs adj to max fuel after (q ++ new)
        ])
    after_round fuel prev x q ns (hit after) c inv f deep (d, l) fits ih =
        let (m, e, r, n) =
          rebuild_lem edge from after to (suc x.d) (suc (suc max)) to [] d (omega arith) refl in
        rw e (m, refl, r, omega arith, λ k w. let late = l k w in omega arith)
    after_round fuel prev x q ns (more new after) c inv f deep g fits ih =
        ih after (q ++ new) (omega (arith, length-append q new))
          (expanded prev after x q new ns c inv g)

    -- With enough fuel the search answers as it promises.
    pub path_bfs_lem :
        (fuel : ℕ) (prev : Prev) (q : List Item)
        → unseen us prev + length q < fuel
        → Inv prev q
        → IsAnswer (path_bfs adj to max fuel prev q)
    unfolding path_bfs
    path_bfs_lem zero prev q f inv = absurd (omega arith)
    path_bfs_lem (suc fuel) prev [] f (g, o, s, t, r) = λ k w. elim (Bool-cases (leb k max)) [
      | inl near ↦
          let seen =
            covered prev max max [] tt tt s r (omega arith) k to w (ground (arith, near)) in
          absurd (ground (arith, seen, t))
      | inr far ↦ ground (arith, far)
    ]
    path_bfs_lem (suc fuel) prev (x ∷ q) f inv = elim (Bool-cases (leb max x.d)) [
      | inl deep ↦
          rw (deep, path_bfs)
            (path_bfs_lem fuel prev q (omega arith) (passed prev x q (ground (arith, deep)) inv))
      | inr shallow ↦
          let (ns, e, c, inside) = closed x.v in
          let (((d, m, l), g), o, s, t, r) = inv in
          let ex =
            explore_lem edge from to max x.v x.d (Depth-named edge from prev x.d x.v started d)
              (ground (arith, shallow)) edge_named ns prev (λ v h. ground (arith, c v, h)) d
              (farther prev x q inv) t in
          let fits = explore-Fits us to x.v (suc x.d) ns prev inside in
          rw (shallow, e, path_bfs)
            (after_round fuel prev x q ns (explore to x.v (suc x.d) ns prev) c inv f
              (ground (arith, shallow)) ex fits (path_bfs_lem fuel))
    ]
