-- ===== src/Store/Sorting/Drained.antt =====
-- The loops of sortByPartial around the heap.
use mlstore_db.Prelude.{
  ℕ, zero, suc, ◌+◌, ◌∙◌, ◌≤◌, ◌<◌, ◌≡◌, inl, inr, refl, sym, ap, subst, Bool, true, false, some,
  List, [], ◌∷◌, ◌++◌, append_assoc, append-nil, arith, length, length-append, ltb, Bool-cases,
}
use mathlib.Core.List.{Perm, perm_middle}
use mathlib.Core.List.Perm
use mlstore_db.Store.Sorting.{pop, keep_best, drain, best_first}
use mlstore_db.Store.Sorting.Best.{All, All-append, All-middle, append-split, pop_lem}

module _ {A : Type 0} where
  -- The middle of the one moves to the front of the other.
  moved :
      (pre post out : List A) (w : A) → Perm ((pre ++ w ∷ post) ++ out) ((pre ++ post) ++ w ∷ out)
  moved pre post out w =
      Perm.trans (Perm.append_right out (perm_middle pre post))
        (Perm.symm (perm_middle (pre ++ post) out))

  no_items : (l : List A) → length l ≡ 0 → l ≡ []
  no_items [] h = refl
  no_items (x ∷ l) h = absurd (omega arith)

  pushed :
      (x : A) (docs heap dropped : List A)
      → Perm ((x ∷ docs) ++ (heap ++ dropped)) (docs ++ ((heap ++ x ∷ []) ++ dropped))
  pushed x docs heap dropped = Perm.trans (Perm.symm (perm_middle docs (heap ++ dropped))) (
      Perm.append_left docs (
        subst (λ l. Perm (x ∷ (heap ++ dropped)) l) (sym (append_assoc heap (x ∷ []) dropped))
          (Perm.symm (perm_middle heap dropped))))

  length_middle :
      (pre post : List A) (w : A) → length (pre ++ w ∷ post) ≡ suc (length (pre ++ post))
  length_middle pre post w = omega (arith, length-append pre (w ∷ post), length-append pre post)

module _ {A : Type 0} (better : A → A → Bool) where
  -- None in the list is better.
  abbrev pub AtMost : List A → A → Type 0
  AtMost l x = All (λ y. better y x ≡ false) l

  -- The best first.
  abbrev pub BestFirst : List A → Type 0
  BestFirst [] = Unit {0}
  BestFirst (x ∷ l) = AtMost l x × BestFirst l

module _ {A : Type 0} (better : A → A → Bool) (Dom : A → Type 0)
    (asym : (x y : A) → Dom x → Dom y → better x y ≡ true → better y x ≡ false)
    (between : (x y z : A)
      → Dom x
      → Dom y
      → Dom z
      → better x y ≡ false
      → better y z ≡ false
      → better x z ≡ false) where
  AtMost-between :
      (w d : A) (l : List A)
      → Dom w
      → Dom d
      → All Dom l
      → AtMost better l w
      → better w d ≡ false
      → AtMost better l d
  AtMost-between w d [] dw dd e h k = tt
  AtMost-between w d (y ∷ l) dw dd (dy, e) (h, hs) k =
      (between y w d dy dw dd h k, AtMost-between w d l dw dd e hs k)

  All-nil : (l : List A) → All (AtMost better []) l
  All-nil [] = tt
  All-nil (x ∷ l) = (tt, All-nil l)

  with_worst :
      (w : A) (l out : List A)
      → All (λ x. better w x ≡ false) l
      → All (AtMost better out) l
      → All (AtMost better (w ∷ out)) l
  with_worst w [] out h k = tt
  with_worst w (x ∷ l) out (h, hs) (k, ks) = ((h, k), with_worst w l out hs ks)

  drain_lem :
      (P : A → Type 0) (n : ℕ) (heap out : List A)
      → n ≡ length heap
      → All Dom heap
      → All P heap
      → All P out
      → BestFirst better out
      → All (AtMost better out) heap
      → (r : List A) × (drain better n heap out ≡ some r)
        × Perm (heap ++ out) r
        × BestFirst better r
        × All P r
        × (length r ≡ length heap + length out)
  unfolding drain
  drain_lem P zero [] out e d p q s a = (out, refl, Perm.rfl, s, q, omega arith)
  drain_lem P zero (x ∷ heap) out e d p q s a = absurd (omega (arith, e))
  drain_lem P (suc n) [] out e d p q s a = absurd (omega (arith, e))
  drain_lem P (suc n) (x ∷ heap) out e d p q s a =
      let (pre, w, post, shape, popped, worst) = pop_lem better Dom asym between x heap d in
      let kept = pre ++ post in
      let (dw, d') = All-middle Dom pre post w (subst (All Dom) shape d) in
      let (pw, p') = All-middle P pre post w (subst (All P) shape p) in
      let (aw, a') =
        All-middle (AtMost better out) pre post w (subst (All (AtMost better out)) shape a) in
      let (ww, worst') =
        All-middle (λ y. better w y ≡ false) pre post w
          (subst (All (λ y. better w y ≡ false)) shape worst) in
      let long = length_middle pre post w in
      let same = ap length shape in
      let (r, done, perm, sorted, all, count) =
        drain_lem P n kept (w ∷ out) (omega arith) d' p' (pw, q) (aw, s)
          (with_worst w kept out worst' a') in
      (
        r,
        rw (popped, drain) done,
        subst (λ l. Perm (l ++ out) r) (sym shape) (Perm.trans (moved pre post out w) perm),
        sorted,
        all,
        omega arith,
      )

  pop_pushed :
      (x : A) (heap : List A)
      → All Dom (heap ++ x ∷ [])
      → (pre : List A) × (w : A) × (post : List A) × (heap ++ x ∷ [] ≡ pre ++ w ∷ post)
        × (pop better (heap ++ x ∷ []) ≡ some (w, pre ++ post))
        × All (λ y. better w y ≡ false) (heap ++ x ∷ [])
  pop_pushed x [] d = pop_lem better Dom asym between x [] d
  pop_pushed x (h ∷ heap) d = pop_lem better Dom asym between h (heap ++ x ∷ []) d

  -- What was dropped before is no better than what is kept now.
  kept_best :
      (x w : A) (heap pre post dropped : List A)
      → heap ++ x ∷ [] ≡ pre ++ w ∷ post
      → All Dom (heap ++ x ∷ [])
      → All Dom dropped
      → All (AtMost better dropped) heap
      → All (λ y. better w y ≡ false) (heap ++ x ∷ [])
      → All (AtMost better dropped) (pre ++ post)
  kept_best x w heap pre post dropped e d f a worst =
      let long = ap length e in
      let count = length_middle pre post w in
      elim (append-split heap pre post x w e) [
        | inl same ↦
            let none_left : post ≡ [] = no_items post (
              omega (arith, ap length same, length-append heap (x ∷ []), length-append pre post)) in
            subst (λ p. All (AtMost better dropped) (pre ++ p)) (sym none_left)
              (subst (All (AtMost better dropped)) (same ∙ sym (append-nil pre)) a)
        | inr (rest, q) ↦
            let aw =
              (All-middle (AtMost better dropped) pre rest w
                (subst (All (AtMost better dropped)) q a)).0 in
            let dw = (All-middle Dom pre post w (subst (All Dom) e d)).0 in
            let dx = (All-middle Dom heap [] x d).0 in
            let wx = (All-middle (λ y. better w y ≡ false) heap [] x worst).0 in
            let all =
              All-append (AtMost better dropped) heap (x ∷ []) a
                (AtMost-between w x dropped dw dx f aw wx, tt) in
            (All-middle (AtMost better dropped) pre post w
              (subst (All (AtMost better dropped)) e all)).1
      ]

  keep_best_lem :
      (need : ℕ) (docs heap dropped : List A)
      → length heap ≤ need
      → All Dom docs
      → All Dom heap
      → All Dom dropped
      → All (AtMost better dropped) heap
      → (length heap < need → dropped ≡ [])
      → (h : List A) × (keep_best better need docs heap ≡ some h)
        × (rest : List A) × Perm (docs ++ (heap ++ dropped)) (h ++ rest)
        × All Dom h
        × All (AtMost better rest) h
        × (length h ≤ need)
        × (length heap ≤ length h)
        × (need ≤ length heap + length docs → length h ≡ need)
  unfolding keep_best
  keep_best_lem need [] heap dropped short d e f a u =
      (heap, refl, dropped, Perm.rfl, e, a, short, omega arith, λ h. omega arith)
  keep_best_lem need (x ∷ docs) heap dropped short (dx, d) e f a u =
      let heap' = heap ++ x ∷ [] in
      let e' = All-append Dom heap (x ∷ []) e (dx, tt) in
      let long : length heap' ≡ suc (length heap) = omega (arith, length-append heap (x ∷ [])) in
      elim (Bool-cases (ltb need (length heap'))) [
        | inl full ↦
            let (pre, w, post, shape, popped, worst) = pop_pushed x heap e' in
            let kept = pre ++ post in
            let (dw, e'') = All-middle Dom pre post w (subst (All Dom) shape e') in
            let (ww, worst') =
              All-middle (λ y. better w y ≡ false) pre post w
                (subst (All (λ y. better w y ≡ false)) shape worst) in
            let count = length_middle pre post w in
            let same = ap length shape in
            let over : need < length heap' = ground (arith, full) in
            let (h, done, rest, perm, dh, best, fits, grown, exact) =
              keep_best_lem need docs kept (w ∷ dropped) (omega arith) d e'' (dw, f)
                (with_worst w kept dropped worst'
                  (kept_best x w heap pre post dropped shape e' f a worst))
                (λ b. absurd (omega arith)) in
            (
              h,
              rw (full, popped, keep_best) done,
              rest,
              Perm.trans (pushed x docs heap dropped) (
                  Perm.trans
                    (Perm.append_left docs (
                      subst (λ l. Perm (l ++ dropped) (kept ++ w ∷ dropped)) (sym shape)
                        (moved pre post dropped w)))
                    perm),
              dh,
              best,
              fits,
              omega arith,
              λ m. exact (omega arith),
            )
        | inr room ↦
            let under : length heap' ≤ need = ground (arith, room) in
            let none_yet = u (omega arith) in
            let (h, done, rest, perm, dh, best, fits, grown, exact) =
              keep_best_lem need docs heap' dropped under d e' f
                (All-append (AtMost better dropped) heap (x ∷ []) a
                  (subst (λ l. AtMost better l x) (sym none_yet) tt, tt))
                (λ b. none_yet) in
            (
              h,
              rw (room, keep_best) done,
              rest,
              Perm.trans (pushed x docs heap dropped) perm,
              dh,
              best,
              fits,
              omega arith,
              λ m. exact (omega arith),
            )
      ]

  -- Of a list longer than `need`, the front is its `need` best documents, the best first.
  pub best_first_lem :
      (need : ℕ) (docs : List A)
      → need ≤ length docs
      → All Dom docs
      → (r : List A) × (best_first better need docs ≡ some r)
        × (length r ≡ need)
        × BestFirst better r
        × (rest : List A) × Perm docs (r ++ rest)
        × All (AtMost better rest) r
  unfolding best_first
  best_first_lem need docs m d =
      let (h, kept, rest, perm, dh, best, fits, grown, exact) =
        keep_best_lem need docs [] [] (omega arith) d tt tt tt (λ b. refl) in
      let (r, done, moved, sorted, all, count) =
        drain_lem (AtMost better rest) (length h) h [] refl dh best tt tt (All-nil h) in
      (
        r,
        rw (kept, done, best_first) refl,
        omega (arith, exact (omega arith)),
        sorted,
        rest,
        Perm.trans (rw append-nil at perm) (Perm.append_right rest (rw append-nil at moved)),
        all,
      )
