-- ===== src/Graph/Traverse/Names.antt =====
-- Paths in the graph, and the names of the vertices that the search handles.
use mlstore_db.Prelude.{
  ℕ, ◌+◌, ◌≡◌, refl, ap, Bool, true, false, not, ◌&&◌, ◌||◌, Option, some, List, [], ◌∷◌, ◌++◌,
  arith, if◌then◌else◌, append_assoc, Bool-cases, inl, inr,
}
use mlstore_db.Prelude.Bytes.{Bytes, bytes_eq_iff}
use mlstore_db.Prelude.Maps.{add, contains, contains-add, contains-append, Distinct, bytes_eq_refl}
use mlstore_db.Graph.Traverse.{TraverseNode, discover}

-- A path of that many edges leads from the start to the vertex.
pub data Reach (adj : Bytes → Option (List Bytes)) (start : Bytes) : Bytes → ℕ → Type 0 where
  here : Reach adj start start 0
  edge :
      (v w : Bytes) (d : ℕ) (ns : List Bytes)
      → Reach adj start v d
      → adj v ≡ some ns
      → contains ns w ≡ true
      → Reach adj start w (d + 1)

abbrev pub names : List TraverseNode → List Bytes
names [] = []
names (n ∷ ns) = n.vertex ∷ names ns

pub names-append : (l m : List TraverseNode) → names (l ++ m) ≡ names l ++ names m
names-append [] m = refl
names-append (n ∷ l) m = ap (λ t. n.vertex ∷ t) (names-append l m)

pub contains_found :
    (d : ℕ) (ns visited : List Bytes) (w : Bytes)
    → (contains (names (discover d ns visited).0) w ≡ (contains ns w && not (contains visited w)))
      × (contains (discover d ns visited).1 w ≡ (contains visited w || contains ns w))
unfolding discover contains
contains_found d [] visited w = ground arith
contains_found d (n ∷ ns) visited w = ground (
  arith,
  (contains_found d ns visited w).0,
  (contains_found d ns visited w).1,
  (contains_found d ns (add n visited) w).0,
  (contains_found d ns (add n visited) w).1,
  contains-add visited n w,
  bytes_eq_iff n w,
)

pub found-Distinct : (d : ℕ) (ns visited : List Bytes) → Distinct (names (discover d ns visited).0)
unfolding discover
found-Distinct d [] visited = tt
found-Distinct d (n ∷ ns) visited = elim (Bool-cases (contains visited n)) [
  | inl seen ↦ rw seen (found-Distinct d ns visited)
  | inr fresh ↦ rw fresh (
    ground (
      arith,
      (contains_found d ns (add n visited) n).0,
      contains-add visited n n,
      bytes_eq_refl n,
    ),
    found-Distinct d ns (add n visited),
  )
]

pub Distinct-append :
    (l m : List Bytes)
    → Distinct l
    → Distinct m
    → ((w : Bytes) → contains l w ≡ true → contains m w ≡ false)
    → Distinct (l ++ m)
unfolding contains
Distinct-append [] m h k apart = k
Distinct-append (a ∷ l) m h k apart = (
  ground (arith, h.0, contains-append l m a, apart a, bytes_eq_refl a),
  Distinct-append l m h.1 k (λ w e. apart w (ground (arith, e))),
)

pub Distinct-without : (l m : List Bytes) (a : Bytes) → Distinct (l ++ a ∷ m) → Distinct (l ++ m)
unfolding contains
Distinct-without [] m a h = h.1
Distinct-without (b ∷ l) m a h = (
  ground (arith, h.0, contains-append l (a ∷ m) b, contains-append l m b),
  Distinct-without l m a h.1,
)

pub Distinct-left : (l m : List Bytes) → Distinct (l ++ m) → Distinct l
unfolding contains
Distinct-left [] m h = tt
Distinct-left (a ∷ l) m h = (ground (arith, h.0, contains-append l m a), Distinct-left l m h.1)

-- The vertex moves from the queue to the result, or leaves.
pub names_kept :
    (keep : Bool) (cur : TraverseNode) (result queue : List TraverseNode)
    → Distinct (names result ++ cur.vertex ∷ names queue)
    → Distinct (names (if keep then result ++ cur ∷ [] else result) ++ names queue)
names_kept true cur result queue h =
    rw (names-append result (cur ∷ []), append_assoc (names result) (cur.vertex ∷ []) (names queue))
      h
names_kept false cur result queue h = Distinct-without (names result) (names queue) cur.vertex h

pub contains_kept :
    (keep : Bool) (cur : TraverseNode) (result queue : List TraverseNode) (w : Bytes)
    → contains (names (if keep then result ++ cur ∷ [] else result) ++ names queue) w ≡ true
    → contains (names result ++ cur.vertex ∷ names queue) w ≡ true
unfolding contains
contains_kept true cur result queue w h = ground (
  arith,
  names-append result (cur ∷ []),
  append_assoc (names result) (cur.vertex ∷ []) (names queue),
)
contains_kept false cur result queue w h = ground (
  arith,
  contains-append (names result) (names queue) w,
  contains-append (names result) (cur.vertex ∷ names queue) w,
)
