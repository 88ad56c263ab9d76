-- ===== src/Prelude/Maps.antt =====
-- Go's maps with string keys as association lists with at most one entry for a key, and its
-- map[string]struct{} as a list without duplicates.
use mathlib.Core.Path.{◌≡◌, refl}
use mathlib.Core.Bool.{Bool, true, false, ◌||◌}
use mathlib.Core.List.{List, [], ◌∷◌, ◌++◌}
use mathlib.Core.Option.{Option, none, some}
use native.Mathlib.Omega.{arith}
use mlstore_db.Prelude.Tests.{if◌then◌else◌, Bool-cases}
use mathlib.Core.Logic.{inl, inr}
use mlstore_db.Prelude.Bytes.{Bytes, bytes_eq, bytes_eq_iff}

pub bytes_eq_refl : (k : Bytes) → bytes_eq k k ≡ true
bytes_eq_refl k = (bytes_eq_iff k k).1 refl

module _ {ℓ} {V : Type ℓ} where
  unfoldable pub lookup : Bytes → List (Bytes × V) → Option V
  lookup k [] = none
  lookup k ((j, v) ∷ m) = if bytes_eq j k then some v else lookup k m

  -- m[k] = v
  unfoldable pub put : Bytes → V → List (Bytes × V) → List (Bytes × V)
  put k v [] = (k, v) ∷ []
  put k v ((j, w) ∷ m) = if bytes_eq j k then (k, v) ∷ m else (j, w) ∷ put k v m

  -- delete(m, k)
  unfoldable pub remove : Bytes → List (Bytes × V) → List (Bytes × V)
  remove k [] = []
  remove k ((j, w) ∷ m) = if bytes_eq j k then remove k m else (j, w) ∷ remove k m

  abbrev pub keys : List (Bytes × V) → List Bytes
  keys [] = []
  keys ((k, v) ∷ m) = k ∷ keys m

  pub lookup-put :
      (k j : Bytes) (v : V) (m : List (Bytes × V))
      → lookup j (put k v m) ≡ (if bytes_eq k j then some v else lookup j m)
  unfolding lookup put
  lookup-put k j v [] = refl
  lookup-put k j v ((i, w) ∷ m) =
      ground (arith, bytes_eq_iff k j, bytes_eq_iff i k, bytes_eq_iff i j, lookup-put k j v m)

  pub lookup-remove :
      (k j : Bytes) (m : List (Bytes × V))
      → lookup j (remove k m) ≡ (if bytes_eq k j then none else lookup j m)
  unfolding lookup remove
  lookup-remove k j [] = ground arith
  lookup-remove k j ((i, w) ∷ m) =
      ground (arith, bytes_eq_iff k j, bytes_eq_iff i k, bytes_eq_iff i j, lookup-remove k j m)

  pub put_absent :
      (k : Bytes) (v : V) (m : List (Bytes × V)) → lookup k m ≡ none → put k v m ≡ m ++ (k, v) ∷ []
  unfolding lookup put
  put_absent k v [] h = refl
  put_absent k v ((j, w) ∷ m) h = ground (arith, put_absent k v m)

-- The set under a key, empty if the key is missing.
abbrev pub get_set : Bytes → List (Bytes × List Bytes) → List Bytes
get_set k m = elim (lookup k m) [ none ↦ [] | some s ↦ s ]

-- Membership in a set.
unfoldable pub contains : List Bytes → Bytes → Bool
contains [] v = false
contains (a ∷ s) v = bytes_eq a v || contains s v

-- s[v] = struct{}{}
unfoldable pub add : Bytes → List Bytes → List Bytes
add v s = if contains s v then s else s ++ v ∷ []

-- delete(s, v)
unfoldable pub discard : Bytes → List Bytes → List Bytes
discard v [] = []
discard v (a ∷ s) = if bytes_eq a v then discard v s else a ∷ discard v s

pub contains-append :
    (s t : List Bytes) (v : Bytes) → contains (s ++ t) v ≡ (contains s v || contains t v)
unfolding contains
contains-append [] t v = refl
contains-append (a ∷ s) t v = ground (arith, contains-append s t v)

pub contains-add :
    (s : List Bytes) (v w : Bytes) → contains (add v s) w ≡ (bytes_eq v w || contains s w)
unfolding add contains
contains-add s v w = ground (arith, contains-append s (v ∷ []) w, bytes_eq_iff v w)

pub contains-discard :
    (s : List Bytes) (v w : Bytes)
    → contains (discard v s) w ≡ (if bytes_eq v w then false else contains s w)
unfolding discard contains
contains-discard [] v w = ground arith
contains-discard (a ∷ s) v w =
    ground (arith, bytes_eq_iff a v, bytes_eq_iff a w, bytes_eq_iff v w, contains-discard s v w)

abbrev pub Distinct : List Bytes → Type 0
Distinct [] = Unit {0}
Distinct (a ∷ s) = (contains s a ≡ false) × Distinct s

Distinct-snoc :
    (v : Bytes) (s : List Bytes) → Distinct s → contains s v ≡ false → Distinct (s ++ v ∷ [])
unfolding contains
Distinct-snoc v [] h k = (refl, tt)
Distinct-snoc v (a ∷ s) h k = (
  ground (arith, h.0, contains-append s (v ∷ []) a, bytes_eq_iff v a, bytes_eq_iff a v),
  Distinct-snoc v s h.1 (ground arith),
)

pub Distinct-add : (v : Bytes) (s : List Bytes) → Distinct s → Distinct (add v s)
unfolding add
Distinct-add v s h = elim (Bool-cases (contains s v)) [
  | inl there ↦ rw there h
  | inr absent ↦ rw absent (Distinct-snoc v s h absent)
]

module _ {ℓ} {V : Type ℓ} where
  contains-keys-put :
      (k j : Bytes) (v : V) (m : List (Bytes × V))
      → contains (keys (put k v m)) j ≡ (bytes_eq k j || contains (keys m) j)
  unfolding put contains
  contains-keys-put k j v [] = refl
  contains-keys-put k j v ((i, w) ∷ m) =
      ground (arith, bytes_eq_iff i k, bytes_eq_iff i j, contains-keys-put k j v m)

  pub Distinct-keys-put :
      (k : Bytes) (v : V) (m : List (Bytes × V)) → Distinct (keys m) → Distinct (keys (put k v m))
  unfolding put contains
  Distinct-keys-put k v [] h = (refl, tt)
  Distinct-keys-put k v ((i, w) ∷ m) h = elim (Bool-cases (bytes_eq i k)) [
    | inl same ↦ rw (same, ← (bytes_eq_iff i k).0 same) h
    | inr other ↦ rw other (
      ground (arith, h.0, contains-keys-put k i v m, bytes_eq_iff k i, bytes_eq_iff i k),
      Distinct-keys-put k v m h.1,
    )
  ]

  pub lookup_absent :
      (k : Bytes) (m : List (Bytes × V)) → contains (keys m) k ≡ false → lookup k m ≡ none
  unfolding lookup contains
  lookup_absent k [] h = refl
  lookup_absent k ((i, w) ∷ m) h = ground (arith, lookup_absent k m)
