-- ===== src/Graph/Path/Explore.antt =====
-- The loop over the neighbours of one vertex: what it finds and what it leaves in `prev`.
use mlstore_db.Prelude.{
  ℕ, suc, ◌+◌, ◌≤◌, ◌<◌, ◌≡◌, ◌⊎◌, inl, inr, subst, Bool, true, false, List, [], ◌∷◌, arith,
  if◌then◌else◌, length, Bool-cases,
}
use mlstore_db.Prelude.Bytes.{Bytes, bytes_eq, bytes_eq_iff}
use mlstore_db.Prelude.Maps.{put, lookup-put, contains, bytes_eq_refl}
use mlstore_db.Graph.Traverse.{is_empty_name}
use mlstore_db.Graph.Traverse.Total.{AllIn}
use mlstore_db.Graph.Path.{Prev, is_seen, Item, Explored, hit, more, queued, explore}
use mlstore_db.Graph.Path.Walks.{
  is_seen-put, Extends, Extends-put, seen-Extends, Walk, Depth, Depth-Extends,
}

-- How many of the vertices are not in `prev`.
abbrev pub unseen : List Bytes → Prev → ℕ
unseen [] prev = 0
unseen (u ∷ us) prev = if is_seen prev u then unseen us prev else suc (unseen us prev)

unseen_less :
    (us : List Bytes) (prev : Prev) (k u : Bytes) → unseen us (put k u prev) ≤ unseen us prev
unseen_less [] prev k u = omega arith
unseen_less (v ∷ us) prev k u = ground (arith, unseen_less us prev k u, is_seen-put prev k u v)

unseen-put :
    (us : List Bytes) (prev : Prev) (k u : Bytes)
    → contains us k ≡ true
    → is_seen prev k ≡ false
    → unseen us (put k u prev) < unseen us prev
unfolding contains
unseen-put [] prev k u h e = absurd (ground arith)
unseen-put (v ∷ us) prev k u h e = ground (
  arith,
  unseen-put us prev k u,
  unseen_less us prev k u,
  is_seen-put prev k u v,
  bytes_eq_iff v k,
  bytes_eq_iff k v,
)

-- A vertex that the queue holds.
abbrev pub Queued : Bytes → List Item → Type 0
Queued v [] = ⊥
Queued v (x ∷ q) = (v ≡ x.v) ⊎ Queued v q

-- From lo on, not falling, up to hi.
abbrev pub Ascend : ℕ → ℕ → List Item → Type 0
Ascend lo hi [] = Unit {0}
Ascend lo hi (x ∷ q) = (lo ≤ x.d) × (x.d ≤ hi) × Ascend x.d hi q

module _ (edge : Bytes → Bytes → Bool) (from to : Bytes) (max : ℕ) where
  -- No walk to the vertex is shorter.
  abbrev pub Least : Bytes → ℕ → Type 0
  Least v d = (k : ℕ) → Walk edge from k v → d ≤ k

  abbrev pub AllGood : Prev → List Item → Type 0
  AllGood prev [] = Unit {0}
  AllGood prev (x ∷ q) =
      (Depth edge from prev x.d x.v × (x.d ≤ max) × Least x.v x.d) × AllGood prev q

  pub good-Extends :
      (prev after : Prev) (q : List Item) → Extends prev after → AllGood prev q → AllGood after q
  good-Extends prev after [] h g = tt
  good-Extends prev after (x ∷ q) h ((d, m, l), g) =
      ((Depth-Extends edge from prev after x.d x.v h d, m, l), good-Extends prev after q h g)

  -- What the loop leaves when it does not meet `to`.
  abbrev pub Grown : List Bytes → Prev → ℕ → List Item → Prev → Type 0
  Grown ns prev d new after =
      AllGood after new
      × Ascend d d new
      × Extends prev after
      × ((v : Bytes) → is_seen after v ≡ true → (is_seen prev v ≡ true) ⊎ Queued v new)
      × ((v : Bytes) → contains ns v ≡ true → is_seen after v ≡ true)
      × (is_seen after to ≡ false)

  abbrev pub Outcome : List Bytes → Prev → ℕ → Explored → Type 0
  Outcome ns prev d (hit after) = Depth edge from after d to × Least to d
  Outcome ns prev d (more new after) = Grown ns prev d new after

  module _ (cur : Bytes) (d : ℕ) (named : is_empty_name cur ≡ false) (shallow : suc d ≤ max)
      (edge_named : (u v : Bytes) → edge u v ≡ true → is_empty_name v ≡ false) where
    reached :
        (prev : Prev) (n : Bytes)
        → Depth edge from prev d cur
        → edge cur n ≡ true
        → is_seen prev n ≡ false
        → Depth edge from (put n cur prev) (suc d) n
    reached prev n h e f = (
      cur,
      ground (arith, lookup-put n n cur prev, bytes_eq_refl n),
      named,
      edge_named cur n e,
      e,
      Depth-Extends edge from prev (put n cur prev) d cur (Extends-put prev n cur f) h,
    )

    -- A neighbour in `prev` is left out.
    skipped :
        (n : Bytes) (ns : List Bytes) (prev : Prev) (r : Explored)
        → is_seen prev n ≡ true
        → Outcome ns prev (suc d) r
        → Outcome (n ∷ ns) prev (suc d) r
    unfolding contains
    skipped n ns prev (hit after) s h = h
    skipped n ns prev (more new after) s (g, o, x, w, c, t) = (
      g,
      o,
      x,
      w,
      λ v e. elim (Bool-cases (bytes_eq n v)) [
        | inl same ↦ seen-Extends prev after v x (rw (← (bytes_eq_iff n v).0 same) s)
        | inr other ↦ c v (ground (arith, other))
      ],
      t,
    )

    -- Another one enters `prev` and the queue.
    entered :
        (n : Bytes) (ns : List Bytes) (prev : Prev) (r : Explored)
        → is_seen prev n ≡ false
        → Depth edge from (put n cur prev) (suc d) n
        → Least n (suc d)
        → Outcome ns (put n cur prev) (suc d) r
        → Outcome (n ∷ ns) prev (suc d) (queued (record { v = n; d = suc d }) r)
    unfolding contains
    entered n ns prev (hit after) s p l h = h
    entered n ns prev (more new after) s p l (g, o, x, w, c, t) = (
      ((Depth-Extends edge from (put n cur prev) after (suc d) n x p, shallow, l), g),
      (omega arith, omega arith, o),
      λ v u e. x v u (Extends-put prev n cur s v u e),
      λ v e. elim (w v e) [
        | inl old ↦ elim (Bool-cases (bytes_eq n v)) [
          | inl same ↦ inr (inl (ground (arith, (bytes_eq_iff n v).0 same)))
          | inr other ↦ inl (ground (arith, other, old, is_seen-put prev n cur v))
        ]
        | inr q ↦ inr (inr q)
      ],
      λ v e. elim (Bool-cases (bytes_eq n v)) [
        | inl same ↦
            seen-Extends (put n cur prev) after v x (ground (arith, same, is_seen-put prev n cur v))
        | inr other ↦ c v (ground (arith, other))
      ],
      t,
    )

    -- If the vertex is at that depth in `prev`, and what is not in `prev` is farther, the loop over
    -- some of its neighbours records least walks.
    pub explore_lem :
        (ns : List Bytes) (prev : Prev)
        → ((v : Bytes) → contains ns v ≡ true → edge cur v ≡ true)
        → Depth edge from prev d cur
        → ((v : Bytes) → is_seen prev v ≡ false → Least v (suc d))
        → is_seen prev to ≡ false
        → Outcome ns prev (suc d) (explore to cur (suc d) ns prev)
    unfolding explore contains
    explore_lem [] prev sub h far t =
        (tt, tt, (λ v u e. e), (λ v e. inl e), (λ v e. absurd (ground (arith, e))), t)
    explore_lem (n ∷ ns) prev sub h far t =
        let edge_n = sub n (ground (arith, bytes_eq_refl n)) in
        let sub' : (v : Bytes) → contains ns v ≡ true → edge cur v ≡ true =
          λ v e. sub v (ground (arith, e)) in
        elim (Bool-cases (is_seen prev n)) [
          | inl seen ↦
              rw (seen, explore)
                (skipped n ns prev (explore to cur (suc d) ns prev) seen
                  (explore_lem ns prev sub' h far t))
          | inr fresh ↦
              let prev' = put n cur prev in
              let there = reached prev n h edge_n fresh in
              elim (Bool-cases (bytes_eq n to)) [
                | inl same ↦
                    let e = (bytes_eq_iff n to).0 same in
                    rw (fresh, same, explore)
                      (subst (λ w. Depth edge from prev' (suc d) w × Least w (suc d)) e
                        (there, far n fresh))
                | inr other ↦
                    rw (fresh, other, explore)
                      (entered n ns prev (explore to cur (suc d) ns prev') fresh there (far n fresh)
                        (explore_lem ns prev' sub'
                          (Depth-Extends edge from prev prev' d cur (Extends-put prev n cur fresh)
                            h)
                          (λ v f. far v (ground (arith, f, is_seen-put prev n cur v)))
                          (ground (arith, t, other, is_seen-put prev n cur to))))
              ]
        ]

-- The measure of the search does not grow.
abbrev pub Fits : List Bytes → Prev → Explored → Type 0
Fits us prev (hit after) = Unit {0}
Fits us prev (more new after) = unseen us after + length new ≤ unseen us prev

Fits-queued :
    (us : List Bytes) (prev prev' : Prev) (x : Item) (r : Explored)
    → unseen us prev' < unseen us prev
    → Fits us prev' r
    → Fits us prev (queued x r)
Fits-queued us prev prev' x (hit after) h f = tt
Fits-queued us prev prev' x (more new after) h f = omega arith

pub explore-Fits :
    (us : List Bytes) (to cur : Bytes) (d : ℕ) (ns : List Bytes) (prev : Prev)
    → AllIn us ns
    → Fits us prev (explore to cur d ns prev)
unfolding explore
explore-Fits us to cur d [] prev h = omega arith
explore-Fits us to cur d (n ∷ ns) prev h = elim (Bool-cases (is_seen prev n)) [
  | inl seen ↦ rw (seen, explore) (explore-Fits us to cur d ns prev h.1)
  | inr fresh ↦ elim (Bool-cases (bytes_eq n to)) [
    | inl same ↦ rw (fresh, same, explore) tt
    | inr other ↦
        rw (fresh, other, explore)
          (Fits-queued us prev (put n cur prev) (record { v = n; d = d })
            (explore to cur d ns (put n cur prev)) (unseen-put us prev n cur h.0 fresh)
            (explore-Fits us to cur d ns (put n cur prev) h.1))
  ]
]
