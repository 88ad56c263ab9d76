-- ===== src/Graph/Path/Walks.antt =====
-- Walks from the start of a search, the walk that `prev` records, and the path that is rebuilt of
-- it.
use mlstore_db.Prelude.{
  ℕ, zero, suc, ◌+◌, ◌<◌, ◌≡◌, Bool, true, false, ◌||◌, some, List, [], ◌∷◌, arith, length,
}
use mlstore_db.Prelude.Bytes.{Bytes, bytes_eq, bytes_eq_iff}
use mlstore_db.Prelude.Maps.{lookup, put, lookup-put}
use mlstore_db.Graph.Traverse.{is_empty_name}
use mlstore_db.Graph.Path.{Prev, is_seen, prev_of, rebuild}

pub is_seen-put :
    (prev : Prev) (k u v : Bytes) → is_seen (put k u prev) v ≡ (bytes_eq k v || is_seen prev v)
is_seen-put prev k u v = ground (arith, lookup-put k v u prev)

-- Every entry of the one is in the other.
abbrev pub Extends : Prev → Prev → Type 0
Extends prev after = (v u : Bytes) → lookup v prev ≡ some u → lookup v after ≡ some u

pub Extends-put : (prev : Prev) (k u : Bytes) → is_seen prev k ≡ false → Extends prev (put k u prev)
Extends-put prev k u h v w e = ground (arith, lookup-put k v u prev, bytes_eq_iff k v)

pub seen-Extends :
    (prev after : Prev) (v : Bytes)
    → Extends prev after
    → is_seen prev v ≡ true
    → is_seen after v ≡ true
seen-Extends prev after v h k = ground (arith, h v (prev_of prev v))

module _ (edge : Bytes → Bytes → Bool) (from : Bytes) where
  -- A walk of that many edges leads from the start to the vertex.
  abbrev pub Walk : ℕ → Bytes → Type 0
  Walk zero v = v ≡ from
  Walk (suc k) v = (u : Bytes) × Walk k u × (edge u v ≡ true)

  -- `prev` records a walk of that many edges.
  abbrev pub Depth : Prev → ℕ → Bytes → Type 0
  Depth prev zero v = (v ≡ from) × (lookup v prev ≡ some [])
  Depth prev (suc k) v =
      (u : Bytes) × (lookup v prev ≡ some u)
      × (is_empty_name u ≡ false)
      × (is_empty_name v ≡ false)
      × (edge u v ≡ true)
      × Depth prev k u

  pub Depth-Extends :
      (prev after : Prev) (k : ℕ) (v : Bytes)
      → Extends prev after
      → Depth prev k v
      → Depth after k v
  Depth-Extends prev after zero v h (s, e) = (s, h v [] e)
  Depth-Extends prev after (suc k) v h (u, e, a, b, c, d) =
      (u, h v u e, a, b, c, Depth-Extends prev after k u h d)

  pub Depth-named :
      (prev : Prev) (k : ℕ) (v : Bytes)
      → is_empty_name from ≡ false
      → Depth prev k v
      → is_empty_name v ≡ false
  Depth-named prev zero v h (s, e) = cc
  Depth-named prev (suc k) v h (u, e, a, b, c, d) = b

  pub Depth-seen : (prev : Prev) (k : ℕ) (v : Bytes) → Depth prev k v → is_seen prev v ≡ true
  Depth-seen prev zero v (s, e) = ground (arith, e)
  Depth-seen prev (suc k) v (u, e, a, b, c, d) = ground (arith, e)

  -- The vertices lead on from the one to the other.
  abbrev pub Route : Bytes → Bytes → List Bytes → Type 0
  Route u w [] = u ≡ w
  Route u w (v ∷ l) = (edge u v ≡ true) × Route v w l

  pub rebuild_lem :
      (prev : Prev) (w : Bytes) (k f : ℕ) (v : Bytes) (l : List Bytes)
      → Depth prev k v
      → k < f
      → Route v w l
      → (m : List Bytes) × (rebuild f prev v (v ∷ l) ≡ some (from ∷ m))
        × Route from w m
        × (length m ≡ k + length l)
  unfolding rebuild
  rebuild_lem prev w k zero v l d h r = absurd (omega arith)
  rebuild_lem prev w zero (suc f) v l (s, e) h r = (l, ground (arith, s, e), rw s at r, omega arith)
  rebuild_lem prev w (suc k) (suc f) v l (u, e, a, b, c, d) h r =
      let (m, e', r', n) = rebuild_lem prev w k f u (v ∷ l) d (omega arith) (c, r) in
      (m, ground (arith, e, a, b, e'), r', omega arith)
