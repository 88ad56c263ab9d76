-- ===== src/Wire/Cursors/Closing.antt =====
-- The ends of cursors: the kill command and the sweep of expired cursors.
use mlstore_db.Prelude.{
  ℕ, ◌≡◌, refl, Bool, true, false, ◌&&◌, ◌||◌, none, some, List, [], ◌∷◌, ◌==◌, if◌then◌else◌,
  arith, inl, inr, Option-cases,
}
use mlstore_db.Prelude.Ids.{find, remove, find-remove, Distinct}
use mlstore_db.Prelude.Int.{ℤ}
use mlstore_db.Wire.Cursors.{Cursor, Registry, batch, serve, is_expired, kill, sweep, sweep_cursors}

abbrev pub member : ℕ → List ℕ → Bool
member j [] = false
member j (i ∷ is) = (i == j) || member j is

module _ {Doc : Type 0} where
  abbrev pub is_open : ℕ → Registry Doc → Bool
  is_open j cr = elim (find j cr.cursors) [ some _ ↦ true | none ↦ false ]

  -- After a kill the cursors asked for are gone and every other is as it was, and the ids returned
  -- as killed are those asked for that were open.
  pub kill_lem :
      (ids : List ℕ) (j : ℕ) (cr : Registry Doc)
      → (find j (kill ids cr).1.cursors ≡ (if member j ids then none else find j cr.cursors))
        × ((member j (kill ids cr).0.0 ≡ (member j ids && is_open j cr)))
  unfolding kill
  kill_lem [] j cr = (refl, refl)
  kill_lem (id ∷ ids) j cr = elim (Option-cases (find id cr.cursors)) [
    | inl q ↦ let rest = kill_lem ids j cr in ground (arith, q, rest.0, rest.1)
    | inr (c, q) ↦
        let rest = kill_lem ids j (record cr { cursors = remove id cr.cursors }) in
        ground (arith, q, rest.0, rest.1, find-remove id j cr.cursors)
  ]

  find-sweep :
      (now j : ℕ) (m : List (ℕ × Cursor Doc))
      → Distinct m
      → find j (sweep_cursors now m)
        ≡ (elim (find j m) [ none ↦ none | some c ↦ if is_expired now c then none else some c ])
  unfolding find sweep_cursors
  find-sweep now j [] d = refl
  find-sweep now j ((k, c) ∷ m) (f, d) = ground (arith, find-sweep now j m d)

  -- In a registry with no id twice, a sweep does not change what the next batch at that time
  -- answers, for any cursor and batch size.
  pub sweep-batch :
      (id : ℕ) (n : ℤ) (now : ℕ) (cr : Registry Doc)
      → Distinct cr.cursors
      → (batch id n now (sweep now cr)).0 ≡ (batch id n now cr).0
  unfolding batch sweep serve
  sweep-batch id n now cr d = ground (arith, find-sweep now id cr.cursors d)
