-- ===== src/Wire/Cursors/Paging.antt =====
-- A client that asks for batches until the id is 0 gets every document of the cursor once, in
-- order.
use mlstore_db.Prelude.{
  ℕ, zero, suc, ◌+◌, ◌-◌, ◌≤◌, ◌<◌, ◌≡◌, refl, ap, sym, ◌∙◌, subst, false, none, some, List, [],
  ◌∷◌, ◌++◌, length, take, drop, leb, ◌==◌, if◌then◌else◌, arith, take-append-drop, drop-add,
  length-drop, take_of_length-le, Bool-cases, inl, inr, ==_refl,
}
use mlstore_db.Prelude.Ids.{find, put, remove, find-put, find-remove}
use mlstore_db.Prelude.Int.{ℤ, pos, negsuc}
use mlstore_db.Wire.Cursors.{
  Cursor, Registry, cursor_idle_ttl, batch_size, batch, serve, Answer, served, not_found, panics,
  int_limit,
}

-- No pause is longer than the idle time, and no batch ends beyond the range of an int.
abbrev pub Fair : ℕ → ℕ → List (ℤ × ℕ) → Type 0
Fair at last [] = Unit {0}
Fair at last ((n, now) ∷ calls) =
    (now ≤ last + cursor_idle_ttl)
    × ((at + batch_size n < int_limit) × Fair (at + batch_size n) now calls)

abbrev pub asked : List (ℤ × ℕ) → ℕ
asked [] = 0
asked ((n, now) ∷ calls) = batch_size n + asked calls

batch_size-pos : (n : ℤ) → 0 < batch_size n
batch_size-pos (pos zero) = omega arith
batch_size-pos (pos (suc n)) = omega arith
batch_size-pos (negsuc n) = omega arith

asked-pos : (calls : List (ℤ × ℕ)) → 0 < asked calls → 0 < length calls
asked-pos [] h = h
asked-pos (x ∷ calls) h = omega arith

module _ {Doc : Type 0} where
  find_after_remove : (id : ℕ) (m : List (ℕ × Cursor Doc)) → find id (remove id m) ≡ none
  find_after_remove id m = rw (find-remove id id m, ==_refl id) refl

  find_after_put :
      (id : ℕ) (c : Cursor Doc) (m : List (ℕ × Cursor Doc)) → find id (put id c m) ≡ some c
  find_after_put id c m = rw (find-put id id c m, ==_refl id) refl

  -- What the client has after an answer, given what the rest of its calls would bring.
  abbrev follow : Answer Doc × Registry Doc → List Doc × Registry Doc → List Doc × Registry Doc
  follow (not_found, cr) rest = ([], cr)
  follow (panics, cr) rest = ([], cr)
  follow (served b, cr) (docs, last) =
      if b.next_id == 0 then (b.docs, cr) else (b.docs ++ docs, last)

  -- The client's loop: a list of batch sizes with the times at which it asks.
  abbrev pub fetch : List (ℤ × ℕ) → ℕ → Registry Doc → List Doc × Registry Doc
  fetch [] id cr = ([], cr)
  fetch ((n, now) ∷ calls) id cr = follow (batch id n now cr) (fetch calls id (batch id n now cr).1)

  serve_last :
      (id : ℕ) (c : Cursor Doc) (n now : ℕ) (cr : Registry Doc)
      → c.position ≤ length c.docs
      → length c.docs ≤ c.position + n
      → c.position + n < int_limit
      → serve id c n now cr ≡ (
        served (record { docs = drop c.position c.docs; ns = c.ns; next_id = 0 }),
        record cr { cursors = remove id cr.cursors },
      )
  unfolding serve
  serve_last id c n now cr h e f =
      let whole : take (length c.docs - c.position) (drop c.position c.docs)
          ≡ drop c.position c.docs =
        take_of_length-le (length c.docs - c.position) (drop c.position c.docs)
          (omega (arith, length-drop c.position c.docs)) in
      ground (arith, whole)

  serve_more :
      (id : ℕ) (c : Cursor Doc) (n now : ℕ) (cr : Registry Doc)
      → c.position + n < length c.docs
      → c.position + n < int_limit
      → serve id c n now cr ≡ (
        served (record { docs = take n (drop c.position c.docs); ns = c.ns; next_id = id }),
        record cr {
          cursors =
              put id
                (record c { position = c.position + n; expiry = now + cursor_idle_ttl })
                cr.cursors;
        },
      )
  unfolding serve
  serve_more id c n now cr h f =
      let e : c.position + n - c.position ≡ n = omega arith in ground (arith, e)

  batch_live :
      (id : ℕ) (c : Cursor Doc) (n : ℤ) (now : ℕ) (cr : Registry Doc)
      → find id cr.cursors ≡ some c
      → now ≤ c.expiry
      → batch id n now cr ≡ serve id c (batch_size n) now cr
  unfolding batch
  batch_live id c n now cr e h = ground (arith, e)

  -- Let the cursor of a nonzero id be open at a position within its documents, with an expiry of
  -- the idle time after `last`, and let the client make at least one call, with no pause longer
  -- than the idle time, no end beyond an int, and batch sizes that add up to at least what is
  -- left. Then it receives exactly the documents from the position on, each once and in order,
  -- and the cursor is closed after.
  pub fetch_all :
      (calls : List (ℤ × ℕ)) (id last : ℕ) (c : Cursor Doc) (cr : Registry Doc)
      → 0 < id
      → find id cr.cursors ≡ some c
      → c.position ≤ length c.docs
      → c.expiry ≡ last + cursor_idle_ttl
      → Fair c.position last calls
      → 0 < length calls
      → length c.docs ≤ c.position + asked calls
      → ((fetch calls id cr).0 ≡ drop c.position c.docs)
        × (find id (fetch calls id cr).1.cursors ≡ none)
  fetch_all [] id last c cr i e p x t l a = absurd (omega arith)
  fetch_all ((n, now) ∷ calls) id last c cr i e p x (t, (f, ts)) l a =
      let Brings : List Doc × Registry Doc → Type 0 =
        λ r. (r.0 ≡ drop c.position c.docs) × (find id r.1.cursors ≡ none) in
      let live = batch_live id c n now cr e (omega arith) in
      elim (Bool-cases (leb (length c.docs) (c.position + batch_size n))) [
        | inl q ↦
            let near : length c.docs ≤ c.position + batch_size n = ground (arith, q) in
            subst (λ r. Brings (follow r (fetch calls id r.1)))
              (sym (live ∙ serve_last id c (batch_size n) now cr p near f))
              (refl, find_after_remove id cr.cursors)
        | inr q ↦
            let far : c.position + batch_size n < length c.docs = ground (arith, q) in
            let c' : Cursor Doc = record c {
              position = c.position + batch_size n;
              expiry = now + cursor_idle_ttl;
            } in
            let cr' : Registry Doc = record cr { cursors = put id c' cr.cursors } in
            let ih =
              fetch_all calls id now c' cr' i (find_after_put id c' cr.cursors) (omega arith) refl
                ts (asked-pos calls (omega arith)) (omega arith) in
            let not_zero : (id == 0) ≡ false = ground arith in
            let left = drop c.position c.docs in
            let joins : take (batch_size n) left ++ (fetch calls id cr').0 ≡ left =
              ap (λ l. take (batch_size n) left ++ l)
                (ih.0 ∙ drop-add c.position (batch_size n) c.docs)
              ∙ take-append-drop (batch_size n) left in
            subst (λ r. Brings (follow r (fetch calls id r.1)))
              (sym (live ∙ serve_more id c (batch_size n) now cr far f)) (rw not_zero (joins, ih.1))
      ]
