-- ===== src/Store/Sorting/Partial.antt =====
-- A page of a sorted Find that ends before the last document.
use mlstore_db.Prelude.{
  ℕ, ◌+◌, ◌<◌, ◌≡◌, refl, ap, ◌∙◌, ◌≢◌, false, ◌||◌, Option, none, some, List, [], ◌∷◌, ◌++◌, arith,
  length, length-append, drop, drop-append, length-drop, ltb, if◌then◌else◌, ◌==◌, leb, take_at,
  append-nil,
}
use mathlib.Core.List.{Perm}
use mlstore_db.Prelude.Bytes.{Bytes}
use mlstore_db.Prelude.Int.{ℤ}
use mlstore_db.Filter.{FilterLib}
use mlstore_db.Store.Sorting.{
  Ref, key_of, better_doc, sort_by_partial, best_first, page, index_order, index_order_other,
  sort_page,
}
use mlstore_db.Store.Sorting.Best.{All}
use mlstore_db.Store.Sorting.Drained.{AtMost, BestFirst, best_first_lem}
use mlstore_db.Store.Sorting.Keys.{FloatOrder, KeyKind, IsOf, better_asym, better_between}

page-append :
    (skip limit : ℕ) (r rest : List Ref)
    → length r ≡ skip + limit
    → 0 < limit
    → page skip limit (r ++ rest) ≡ drop skip r
unfolding page
page-append skip limit r [] h pos =
    let e = drop-append skip r [] (omega arith) in
    let n : length (drop skip r) ≡ limit = omega (arith, length-drop skip r) in
    ground (arith, e, append-nil (drop skip r), length-append r [])
page-append skip limit r (d ∷ rest) h pos =
    let e = drop-append skip r (d ∷ rest) (omega arith) in
    let n : length (drop skip r) ≡ limit = omega (arith, length-drop skip r) in
    ground (arith, e, take_at limit (drop skip r) (d ∷ rest) n, length-append r (d ∷ rest))

sort_page_of :
    (lib : FilterLib) (order : Option Bytes) (spec : List (Bytes × ℤ)) (skip limit : ℕ)
    (docs s : List Ref)
    → 0 < limit
    → index_order order spec docs ≡ none
    → sort_by_partial lib spec (skip + limit) docs ≡ some s
    → sort_page lib order spec skip limit docs ≡ some (page skip limit s)
unfolding sort_page
sort_page_of lib order spec skip limit docs s pos scan h =
    let wanted : (if ltb 0 limit then skip + limit else 0) ≡ skip + limit = ground arith in
    rw (scan, sort_page, wanted, h) refl

partial_of :
    (lib : FilterLib) (field : Bytes) (dir : ℤ) (need : ℕ) (docs r : List Ref)
    → 0 < need
    → need < length docs
    → best_first (better_doc lib dir field) need docs ≡ some r
    → sort_by_partial lib ((field, dir) ∷ []) need docs ≡ some (r ++ drop (length r) docs)
unfolding sort_by_partial
partial_of lib field dir need docs r pos more e =
    let short : (need == 0 || leb (length docs) need) ≡ false = ground arith in
    rw (short, e, sort_by_partial) refl

module _ (lib : FilterLib) (laws : FloatOrder lib) where
  -- If the keys of the documents are all strings or missing, or all numbers but NaN or missing, the
  -- documents do not come in the order of an index on the sort key, and a page ends before the last
  -- document, Find with one sort key returns the end, after `skip`, of a list of skip + limit of the
  -- documents in which none is better than one before it, and no document that is left out is better
  -- than one of that list.
  pub sort_page_lem :
      (kind : KeyKind) (order : Option Bytes) (field : Bytes) (dir : ℤ) (skip limit : ℕ)
      (docs : List Ref)
      → order ≢ some field
      → 0 < limit
      → skip + limit < length docs
      → All (λ d. IsOf lib kind (key_of field d)) docs
      → (r : List Ref) × (sort_page lib order ((field, dir) ∷ []) skip limit docs
          ≡ some (drop skip r))
        × (length r ≡ skip + limit)
        × BestFirst (better_doc lib dir field) r
        × (rest : List Ref) × Perm docs (r ++ rest)
        × All (AtMost (better_doc lib dir field) rest) r
  sort_page_lem kind order field dir skip limit docs scan pos more keyed =
      let (r, e, n, sorted, rest, perm, best) =
        best_first_lem (better_doc lib dir field) (λ d. IsOf lib kind (key_of field d))
          (λ x y. better_asym lib laws kind dir (key_of field x) (key_of field y))
          (λ x y z.
            better_between lib laws kind dir (key_of field x) (key_of field y) (key_of field z))
          (skip + limit) docs (omega arith) keyed in
      let front = partial_of lib field dir (skip + limit) docs r (omega arith) more e in
      (
        r,
        sort_page_of lib order ((field, dir) ∷ []) skip limit docs (r ++ drop (length r) docs) pos
              (index_order_other order field dir docs scan) front
            ∙ ap some (page-append skip limit r (drop (length r) docs) n pos),
        n,
        sorted,
        rest,
        perm,
        best,
      )
