-- ===== src/Store/Sorting/Stale.antt =====
-- sortBy: it rearranges the documents, and what the keys that stay where they are do to the order.
use mlstore_db.Prelude.{
  ℕ, zero, suc, ◌-◌, ◌≡◌, ◌≢◌, refl, ap, subst, ◌∙◌, inl, inr, Bool, true, false, Option, some,
  List, [], ◌∷◌, arith, map, length, ltb, Bool-cases,
}
use mathlib.Core.List.{Perm}
use mathlib.Core.List.Perm
use mlstore_db.Prelude.Bytes.{Bytes}
use mlstore_db.Prelude.Int.{ℤ}
use mlstore_db.Prelude.Maps.{lookup, keys, bytes_eq_refl}
use mlstore_db.Prelude.Strings.{
  str_less, str_less_trans, str_less_irrefl, sort_strings, insert_sorted,
}
use mlstore_db.Filter.{FilterLib}
use mlstore_db.Store.Sorting.{
  Ref, key_of, better_key, better_doc, swap_at, sink, insertion, slice_stable, id_less, json_at,
  dir_of, key_pass, key_passes, sort_by, delete_at, worst_from, worst_idx, pop, keep_best, drain,
  best_first, sort_by_partial, page, index_order_other, sort_page,
}
use mlstore_db.Store.Sorting.Drained.{BestFirst}

swap_at-perm : (j : ℕ) (docs : List Ref) → Perm docs (swap_at j docs)
unfolding swap_at
swap_at-perm zero [] = Perm.rfl
swap_at-perm (suc j) [] = Perm.rfl
swap_at-perm zero (a ∷ []) = Perm.rfl
swap_at-perm (suc j) (a ∷ []) = Perm.rfl
swap_at-perm zero (a ∷ b ∷ l) = Perm.swap b a l
swap_at-perm (suc j) (a ∷ b ∷ l) = Perm.cons a (swap_at-perm j (b ∷ l))

module _ (less_at : List Ref → ℕ → ℕ → Bool) where
  sink-perm : (j : ℕ) (docs : List Ref) → Perm docs (sink less_at j docs)
  unfolding sink
  sink-perm zero docs = Perm.rfl
  sink-perm (suc j) docs = elim (Bool-cases (less_at docs (suc j) j)) [
    | inl h ↦ rw (h, sink) (Perm.trans (swap_at-perm j docs) (sink-perm j (swap_at j docs)))
    | inr h ↦ rw (h, sink) Perm.rfl
  ]

  sink_stays :
      (j : ℕ) (docs : List Ref) → less_at docs (suc j) j ≡ false → sink less_at (suc j) docs ≡ docs
  unfolding sink
  sink_stays j docs h = rw (h, sink) refl

  sink_first :
      (d e : Ref) (l : List Ref)
      → less_at (d ∷ e ∷ l) 1 0 ≡ true
      → sink less_at 1 (d ∷ e ∷ l) ≡ e ∷ d ∷ l
  unfolding sink swap_at
  sink_first d e l h = rw (h, sink) refl

  insertion-perm : (n i : ℕ) (docs : List Ref) → Perm docs (insertion less_at n i docs)
  unfolding insertion
  insertion-perm zero i docs = Perm.rfl
  insertion-perm (suc n) i docs =
      Perm.trans (sink-perm i docs) (insertion-perm n (suc i) (sink less_at i docs))

module _ (better : Ref → Ref → Bool) (d e : Ref) (tie : better d e ≡ false) where
  first_is_worst : worst_idx better (d ∷ e ∷ []) ≡ 0
  unfolding worst_idx worst_from
  first_is_worst = rw (tie, worst_from) refl

  pop_first : pop better (d ∷ e ∷ []) ≡ some (d, e ∷ [])
  unfolding pop delete_at
  pop_first =
      rw (first_is_worst, pop) (ap (λ (i : ℕ). some (d, delete_at i (d ∷ e ∷ []))) first_is_worst)

  keep_second : keep_best better 1 (d ∷ e ∷ []) [] ≡ some (e ∷ [])
  unfolding keep_best
  keep_second = rw (pop_first, keep_best) refl

  tied_best : best_first better 1 (d ∷ e ∷ []) ≡ some (e ∷ [])
  unfolding best_first drain pop worst_idx worst_from delete_at
  tied_best = rw (keep_second, best_first) refl

module _ (lib : FilterLib) where
  key_passes-perm :
      (spec : List (Bytes × ℤ)) (ks : List Bytes) (docs : List Ref)
      → Perm docs (key_passes lib spec ks docs)
  unfolding key_passes key_pass
  key_passes-perm spec [] docs = Perm.rfl
  key_passes-perm spec (k ∷ ks) docs =
      let before = key_passes lib spec ks docs in
      Perm.trans (key_passes-perm spec ks docs) (
        insertion-perm
          (λ _ a b.
            better_key lib (dir_of k spec) (json_at (map (key_of k) before) a)
              (json_at (map (key_of k) before) b))
          (length before - 1) 1 before)

  -- sortBy rearranges the documents: none is lost and none is repeated.
  pub sort_by-perm : (spec : List (Bytes × ℤ)) (docs : List Ref) → Perm docs (sort_by lib spec docs)
  unfolding sort_by
  sort_by-perm spec docs = elim (Bool-cases (ltb (length docs) 2)) [
    | inl h ↦ rw (h, sort_by) Perm.rfl
    | inr h ↦
        rw (h, sort_by)
          (Perm.trans (insertion-perm id_less (length docs - 1) 1 docs)
            (key_passes-perm spec (sort_strings (keys spec)) (slice_stable id_less docs)))
  ]

  one_key :
      (field : Bytes) (dir : ℤ) (d e : Ref) (l : List Ref)
      → sort_by lib ((field, dir) ∷ []) (d ∷ e ∷ l)
        ≡ key_pass lib dir field (slice_stable id_less (d ∷ e ∷ l))
  unfolding sort_by key_passes sort_strings insert_sorted lookup
  one_key field dir d e l = ground (arith, bytes_eq_refl field)

  id_after : (d e : Ref) → str_less d.id e.id ≡ true → str_less e.id d.id ≡ false
  id_after d e p = ground (arith, str_less_trans e.id d.id e.id, str_less_irrefl e.id)

  in_id_order :
      (d e f : Ref)
      → str_less d.id e.id ≡ true
      → str_less e.id f.id ≡ true
      → slice_stable id_less (d ∷ e ∷ f ∷ []) ≡ d ∷ e ∷ f ∷ []
  unfolding insertion
  in_id_order d e f p q =
      let docs = d ∷ e ∷ f ∷ [] in
      ap (sink id_less 2) (sink_stays id_less 0 docs (id_after d e p))
      ∙ sink_stays id_less 1 docs (id_after e f q)

  stale_keys :
      (field : Bytes) (dir : ℤ) (d e f : Ref)
      → better_doc lib dir field e d ≡ true
      → better_doc lib dir field f e ≡ false
      → key_pass lib dir field (d ∷ e ∷ f ∷ []) ≡ e ∷ d ∷ f ∷ []
  unfolding key_pass insertion
  stale_keys field dir d e f up stale =
      let ks = map (key_of field) (d ∷ e ∷ f ∷ []) in
      let less_at : List Ref → ℕ → ℕ → Bool =
        λ _ a b. better_key lib dir (json_at ks a) (json_at ks b) in
      ap (sink less_at 2) (sink_first less_at d e (f ∷ []) up)
      ∙ sink_stays less_at 1 (e ∷ d ∷ f ∷ []) stale

  tied_two :
      (field : Bytes) (dir : ℤ) (d e : Ref)
      → str_less d.id e.id ≡ true
      → better_doc lib dir field e d ≡ false
      → sort_by lib ((field, dir) ∷ []) (d ∷ e ∷ []) ≡ d ∷ e ∷ []
  unfolding key_pass insertion
  tied_two field dir d e p tie =
      let docs = d ∷ e ∷ [] in
      let ks = map (key_of field) docs in
      let less_at : List Ref → ℕ → ℕ → Bool =
        λ _ a b. better_key lib dir (json_at ks a) (json_at ks b) in
      one_key field dir d e []
      ∙ (ap (key_pass lib dir field) (sink_stays id_less 0 docs (id_after d e p))
          ∙ sink_stays less_at 0 docs tie)

  -- Of three documents in the order of their ids whose keys belong in the order second, third,
  -- first, sortBy with that key leaves the third last: the result is not in order.
  pub sort_by_unsorted :
      (field : Bytes) (dir : ℤ) (d e f : Ref)
      → str_less d.id e.id ≡ true
      → str_less e.id f.id ≡ true
      → better_doc lib dir field e d ≡ true
      → better_doc lib dir field f e ≡ false
      → better_doc lib dir field f d ≡ true
      → (sort_by lib ((field, dir) ∷ []) (d ∷ e ∷ f ∷ []) ≡ e ∷ d ∷ f ∷ [])
        × ¬ BestFirst (better_doc lib dir field) (sort_by lib ((field, dir) ∷ []) (d ∷ e ∷ f ∷ []))
  sort_by_unsorted field dir d e f p q up stale late =
      let result : sort_by lib ((field, dir) ∷ []) (d ∷ e ∷ f ∷ []) ≡ e ∷ d ∷ f ∷ [] =
        one_key field dir d e (f ∷ [])
        ∙ (ap (key_pass lib dir field) (in_id_order d e f p q)
            ∙ stale_keys field dir d e f up stale) in
      (
        result,
        λ h.
            let (first, (second, rest)) = subst (BestFirst (better_doc lib dir field)) result h in
            ground (arith, second.0, late),
      )

  -- Of two documents in the order of their ids with keys of which none is better, Find with one sort
  -- key returns the second as the first page of one and as the next page too, so that the first
  -- document is in neither, unless the documents come in the order of an index on that key.
  pub pages_repeat :
      (order : Option Bytes) (field : Bytes) (dir : ℤ) (d e : Ref)
      → order ≢ some field
      → str_less d.id e.id ≡ true
      → better_doc lib dir field d e ≡ false
      → better_doc lib dir field e d ≡ false
      → (sort_page lib order ((field, dir) ∷ []) 0 1 (d ∷ e ∷ []) ≡ some (e ∷ []))
        × (sort_page lib order ((field, dir) ∷ []) 1 1 (d ∷ e ∷ []) ≡ some (e ∷ []))
  unfolding sort_page sort_by_partial page
  pages_repeat order field dir d e scan p tie tie' =
      let plain = index_order_other order field dir (d ∷ e ∷ []) scan in
      (
        rw (plain, sort_page, tied_best (better_doc lib dir field) d e tie, sort_by_partial) refl,
        rw (plain, sort_page, tied_two field dir d e p tie', sort_by_partial) refl,
      )
