-- ===== src/Graph/Adjacency/Buckets.antt =====
-- The first loop of buildAdj collects, for each source, its targets, each once.
use mlstore_db.Prelude.{◌≡◌, refl, Bool, false, ◌&&◌, ◌||◌, List, [], ◌∷◌, arith}
use mlstore_db.Prelude.Bytes.{Bytes, bytes_eq, bytes_eq_iff}
use mlstore_db.Prelude.Maps.{
  put, keys, add, get_set, contains, lookup-put, contains-add, Distinct, Distinct-add,
  Distinct-keys-put,
}
use mlstore_db.Graph.Adjacency.{buckets, turned}

-- One of the pairs goes from `v` to `w`, turned round if `reverse`.
abbrev pub has_edge : Bool → List (Bytes × Bytes) → Bytes → Bytes → Bool
has_edge reverse [] v w = false
has_edge reverse (p ∷ pairs) v w =
    (bytes_eq (turned reverse p).0 v && bytes_eq (turned reverse p).1 w)
    || has_edge reverse pairs v w

pub contains-buckets :
    (reverse : Bool) (pairs : List (Bytes × Bytes)) (m : List (Bytes × List Bytes)) (v w : Bytes)
    → contains (get_set v (buckets reverse pairs m)) w
      ≡ (has_edge reverse pairs v w || contains (get_set v m) w)
unfolding buckets
contains-buckets reverse [] m v w = refl
contains-buckets reverse (p ∷ pairs) m v w =
    let (a, b) = turned reverse p in
    ground (
      arith,
      contains-buckets reverse pairs (put a (add b (get_set a m)) m) v w,
      lookup-put a v (add b (get_set a m)) m,
      contains-add (get_set a m) b w,
      bytes_eq_iff a v,
      bytes_eq_iff b w,
    )

-- Every set of a map is without repetition, and so is its list of keys.
abbrev pub IsClean : List (Bytes × List Bytes) → Type 0
IsClean m = Distinct (keys m) × ((v : Bytes) → Distinct (get_set v m))

get_set-put :
    (a v : Bytes) (s : List Bytes) (m : List (Bytes × List Bytes))
    → Distinct s
    → Distinct (get_set v m)
    → Distinct (get_set v (put a s m))
get_set-put a v s m h k = ground (arith, lookup-put a v s m)

pub buckets-IsClean :
    (reverse : Bool) (pairs : List (Bytes × Bytes)) (m : List (Bytes × List Bytes))
    → IsClean m
    → IsClean (buckets reverse pairs m)
unfolding buckets
buckets-IsClean reverse [] m h = h
buckets-IsClean reverse (p ∷ pairs) m h =
    let (a, b) = turned reverse p in
    buckets-IsClean reverse pairs (put a (add b (get_set a m)) m) (
      Distinct-keys-put a (add b (get_set a m)) m h.0,
      λ v. get_set-put a v (add b (get_set a m)) m (Distinct-add b (get_set a m) (h.1 a)) (h.1 v),
    )
