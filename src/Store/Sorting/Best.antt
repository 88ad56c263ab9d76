-- ===== src/Store/Sorting/Best.antt =====
-- The heap of sortByPartial: pop takes the worst document, and keep_best leaves none that is better
-- than one it keeps.
use mlstore_db.Prelude.{
  ℕ, suc, ◌≡◌, ◌⊎◌, inl, inr, refl, sym, ap, Bool, true, false, some, List, [], ◌∷◌, ◌++◌,
  append_assoc, append-nil, arith, length, length-append, get_elem?, Bool-cases,
}
use mlstore_db.Store.Sorting.{delete_at, worst_from, worst_idx, pop}

module _ {A : Type 0} where
  abbrev pub All : (A → Type 0) → List A → Type 0
  All P [] = Unit
  All P (a ∷ l) = P a × All P l

  pub All-append : (P : A → Type 0) (l m : List A) → All P l → All P m → All P (l ++ m)
  All-append P [] m h k = k
  All-append P (a ∷ l) m (h, hs) k = (h, All-append P l m hs k)

  pub All-middle :
      (P : A → Type 0) (l m : List A) (a : A) → All P (l ++ a ∷ m) → P a × All P (l ++ m)
  All-middle P [] m a h = h
  All-middle P (b ∷ l) m a (h, hs) = let (k, ks) = All-middle P l m a hs in (k, (h, ks))

  pub get_elem?-middle : (l m : List A) (a : A) → get_elem? (l ++ a ∷ m) (length l) ≡ some a
  get_elem?-middle [] m a = refl
  get_elem?-middle (b ∷ l) m a = get_elem?-middle l m a

  pub delete_at-middle : (l m : List A) (a : A) → delete_at (length l) (l ++ a ∷ m) ≡ l ++ m
  unfolding delete_at
  delete_at-middle [] m a = refl
  delete_at-middle (b ∷ l) m a = ap (λ t. b ∷ t) (delete_at-middle l m a)

  -- Where the last of a list stands once it is split.
  pub append-split :
      (h pre post : List A) (d w : A)
      → h ++ d ∷ [] ≡ pre ++ w ∷ post
      → (h ≡ pre) ⊎ ((rest : List A) × (h ≡ pre ++ w ∷ rest))
  append-split [] [] post d w e = inl refl
  append-split [] (p ∷ []) post d w e = absurd (ground (arith, e))
  append-split [] (p ∷ q ∷ pre) post d w e = absurd (ground (arith, e))
  append-split (a ∷ h) [] post d w e = let same : a ≡ w = cc in inr (h, rw same refl)
  append-split (a ∷ h) (p ∷ pre) post d w e =
      let same : a ≡ p = cc in
      elim (append-split h pre post d w (cc)) [ inl q ↦ inl (cc) | inr (rest, q) ↦ inr (rest, cc) ]

module _ {A : Type 0} (better : A → A → Bool) (Dom : A → Type 0)
    (asym : (x y : A) → Dom x → Dom y → better x y ≡ true → better y x ≡ false)
    (between : (x y z : A)
      → Dom x
      → Dom y
      → Dom z
      → better x y ≡ false
      → better y z ≡ false
      → better x z ≡ false) where
  abbrev pub NotBetter : A → A → Type 0
  NotBetter x y = better x y ≡ false

  -- None is worse than this one.
  abbrev pub Worst : A → List A → Type 0
  Worst w l = All (λ x. NotBetter w x) l

  worse_than :
      (w a x : A) → Dom w → Dom a → Dom x → better w a ≡ true → NotBetter w x → NotBetter a x
  worse_than w a x dw da dx h k = between a w x da dw dx (asym w a dw da h) k

  Worst-moves :
      (w a : A) (l : List A) → Dom w → Dom a → All Dom l → better w a ≡ true → Worst w l → Worst a l
  Worst-moves w a [] dw da d h k = tt
  Worst-moves w a (x ∷ l) dw da (dx, d) h (k, ks) =
      (worse_than w a x dw da dx h k, Worst-moves w a l dw da d h ks)

  NotBetter-self : (x : A) → Dom x → NotBetter x x
  NotBetter-self x d = elim (Bool-cases (better x x)) [ inl h ↦ asym x x d d h | inr h ↦ h ]

  -- The list split at its worst.
  abbrev pub SplitAt : List A → ℕ → Type 0
  SplitAt l i =
      (pre : List A) × (w : A) × (post : List A) × (l ≡ pre ++ w ∷ post)
      × (i ≡ length pre)
      × Worst w l

  worst_from_lem :
      (rest pre post : List A) (w : A)
      → All Dom (pre ++ w ∷ post)
      → All Dom rest
      → Worst w (pre ++ w ∷ post)
      → SplitAt
          ((pre ++ w ∷ post) ++ rest)
          (worst_from better w (length pre) (length (pre ++ w ∷ post)) rest)
  unfolding worst_from
  worst_from_lem [] pre post w d e h =
      (pre, w, post, append-nil (pre ++ w ∷ post), refl, rw append-nil h)
  worst_from_lem (a ∷ rest) pre post w d (da, e) h =
      let done = pre ++ w ∷ post in
      let whole : done ++ a ∷ rest ≡ (done ++ a ∷ []) ++ rest =
        sym (append_assoc done (a ∷ []) rest) in
      let long : length (done ++ a ∷ []) ≡ suc (length done) =
        omega (arith, length-append done (a ∷ [])) in
      let dw = (All-middle Dom pre post w d).0 in
      let d' = All-append Dom done (a ∷ []) d (da, tt) in
      elim (Bool-cases (better w a)) [
        | inl worse ↦
            rw (worse, whole, worst_from, ← long)
              (worst_from_lem rest done [] a d' e (
                All-append (λ x. NotBetter a x) done (a ∷ []) (Worst-moves w a done dw da d worse h)
                  (NotBetter-self a da, tt)))
        | inr fine ↦
            let shape : done ++ a ∷ [] ≡ pre ++ w ∷ (post ++ a ∷ []) =
              append_assoc pre (w ∷ post) (a ∷ []) in
            rw (fine, whole, worst_from, ← long, shape)
              (worst_from_lem rest pre (post ++ a ∷ []) w (rw shape at d') e
                (rw shape at (All-append (λ x. NotBetter w x) done (a ∷ []) h (fine, tt))))
      ]

  pop_at :
      (l pre post : List A) (w : A)
      → l ≡ pre ++ w ∷ post
      → worst_idx better l ≡ length pre
      → pop better l ≡ some (w, pre ++ post)
  unfolding pop
  pop_at l pre post w e i =
      let there : get_elem? l (worst_idx better l) ≡ some w =
        rw (i, e) (get_elem?-middle pre post w) in
      let gone : delete_at (worst_idx better l) l ≡ pre ++ post =
        rw (i, e) (delete_at-middle pre post w) in
      rw (there, gone, pop) refl

  -- pop takes the worst of a heap that is not empty.
  pub pop_lem :
      (a : A) (l : List A)
      → All Dom (a ∷ l)
      → (pre : List A) × (w : A) × (post : List A) × (a ∷ l ≡ pre ++ w ∷ post)
        × (pop better (a ∷ l) ≡ some (w, pre ++ post))
        × Worst w (a ∷ l)
  unfolding worst_idx
  pop_lem a l (da, d) =
      let (pre, w, post, e, i, h) = worst_from_lem l [] [] a (da, tt) d (NotBetter-self a da, tt) in
      (pre, w, post, e, pop_at (a ∷ l) pre post w e i, h)
