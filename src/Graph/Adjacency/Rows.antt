-- ===== src/Graph/Adjacency/Rows.antt =====
-- The second loop of buildAdj: a row, once added, reads as its targets and stays.
use mlstore_db.Prelude.{
  ℕ, zero, suc, ◌≡◌, refl, sym, ap, ◌∙◌, subst, none, some, List, [], ◌∷◌, ◌++◌, arith, length,
  get_elem?, append_assoc, append-nil, Option-cases, Bool-cases, inl, inr,
}
use mlstore_db.Prelude.Bytes.{Bytes, bytes_eq, bytes_eq_iff}
use mlstore_db.Prelude.Maps.{lookup, put, lookup-put}
use mlstore_db.Graph.Adjacency.{GraphAdj, Building, add_col, add_cols, read_cols}

pub get_elem?-append_left {ℓ} :
    {A : Type ℓ} (xs ys : List A) (i : ℕ) (a : A)
    → get_elem? xs i ≡ some a
    → get_elem? (xs ++ ys) i ≡ some a
get_elem?-append_left [] ys i a h = cc
get_elem?-append_left (x ∷ xs) ys zero a h = h
get_elem?-append_left (x ∷ xs) ys (suc i) a h = get_elem?-append_left xs ys i a h

pub get_elem?-append_last {ℓ} :
    {A : Type ℓ} (xs : List A) (a : A) → get_elem? (xs ++ a ∷ []) (length xs) ≡ some a
get_elem?-append_last [] a = refl
get_elem?-append_last (x ∷ xs) a = get_elem?-append_last xs a

-- A larger table reads the same.
pub read_cols-append :
    (neigh extra : List Bytes) (cols : List ℕ) (vs : List Bytes)
    → read_cols neigh cols ≡ some vs
    → read_cols (neigh ++ extra) cols ≡ some vs
unfolding read_cols
read_cols-append neigh extra [] vs h = h
read_cols-append neigh extra (col ∷ cols) vs h = elim (Option-cases (get_elem? neigh col)) [
  | inl q ↦ absurd (ground (arith, q))
  | inr (v, q) ↦ elim (Option-cases (read_cols neigh cols)) [
    | inl r ↦ absurd (ground (arith, q, r))
    | inr (ws, r) ↦
        rw (get_elem?-append_left neigh extra col v q, read_cols-append neigh extra cols ws r)
          (ground (arith, q, r))
  ]
]

-- vertIdx points into the table.
abbrev pub Indexed : Building → Type 0
Indexed b =
    (v : Bytes) (col : ℕ) → lookup v b.vert_idx ≡ some col → get_elem? b.adj.neigh col ≡ some v

abbrev pub grow : List ℕ → List Bytes → GraphAdj → GraphAdj
grow seg extra g = record g { indices = g.indices ++ seg; neigh = g.neigh ++ extra }

-- What adding columns does: the indices and the table grow, and what is added reads as `vs`.
abbrev pub Grown : List Bytes → Building → Building → Type 0
Grown vs b b' =
    (seg : List ℕ) × (extra : List Bytes) × (b'.adj
      ≡ record b.adj { indices = b.adj.indices ++ seg; neigh = b.adj.neigh ++ extra })
    × (read_cols (b.adj.neigh ++ extra) seg ≡ some vs)
    × Indexed b'

add_col_found :
    (v : Bytes) (b : Building) (col : ℕ)
    → lookup v b.vert_idx ≡ some col
    → add_col v b ≡ record b { adj = record b.adj { indices = b.adj.indices ++ col ∷ [] } }
unfolding add_col
add_col_found v b col q = rw (q, add_col) refl

add_col_new :
    (v : Bytes) (b : Building)
    → lookup v b.vert_idx ≡ none
    → add_col v b ≡ record {
      vert_idx = put v (length b.adj.neigh) b.vert_idx;
      adj = record b.adj {
        neigh = b.adj.neigh ++ v ∷ [];
        indices = b.adj.indices ++ length b.adj.neigh ∷ [];
      };
    }
unfolding add_col
add_col_new v b q = rw (q, add_col) refl

Indexed-new :
    (v : Bytes) (b : Building)
    → Indexed b
    → (w : Bytes) (col : ℕ) → lookup w (put v (length b.adj.neigh) b.vert_idx) ≡ some col
    → get_elem? (b.adj.neigh ++ v ∷ []) col ≡ some w
Indexed-new v b h w col e = elim (Bool-cases (bytes_eq v w)) [
  | inl same ↦
      let last = get_elem?-append_last b.adj.neigh v in
      ground (arith, same, last, lookup-put v w (length b.adj.neigh) b.vert_idx, bytes_eq_iff v w)
  | inr other ↦
      get_elem?-append_left b.adj.neigh (v ∷ []) col w
        (h w col (ground (arith, other, lookup-put v w (length b.adj.neigh) b.vert_idx)))
]

add_col_lem : (v : Bytes) (b : Building) → Indexed b → Grown (v ∷ []) b (add_col v b)
unfolding read_cols
add_col_lem v b h = elim (Option-cases (lookup v b.vert_idx)) [
  | inl q ↦ subst (Grown (v ∷ []) b) (sym (add_col_new v b q)) (
    length b.adj.neigh ∷ [],
    v ∷ [],
    refl,
    rw (get_elem?-append_last b.adj.neigh v) refl,
    Indexed-new v b h,
  )
  | inr (col, q) ↦
      let whole = append-nil b.adj.neigh in
      subst (Grown (v ∷ []) b) (sym (add_col_found v b col q))
        (col ∷ [], [], rw whole refl, rw (whole, h v col q) refl, h)
]

read_cols-append_cols :
    (neigh : List Bytes) (s t : List ℕ) (vs ws : List Bytes)
    → read_cols neigh s ≡ some vs
    → read_cols neigh t ≡ some ws
    → read_cols neigh (s ++ t) ≡ some (vs ++ ws)
unfolding read_cols
read_cols-append_cols neigh [] t vs ws h k = ground arith
read_cols-append_cols neigh (col ∷ s) t vs ws h k = elim (Option-cases (get_elem? neigh col)) [
  | inl q ↦ absurd (ground (arith, q))
  | inr (v, q) ↦ elim (Option-cases (read_cols neigh s)) [
    | inl r ↦ absurd (ground (arith, q, r))
    | inr (us, r) ↦ rw (q, read_cols-append_cols neigh s t us ws r k) (ground (arith, q, r))
  ]
]

pub add_cols_lem : (vs : List Bytes) (b : Building) → Indexed b → Grown vs b (add_cols vs b)
unfolding add_cols read_cols
add_cols_lem [] b h = ([], [], rw (append-nil b.adj.indices, append-nil b.adj.neigh) refl, refl, h)
add_cols_lem (v ∷ vs) b h =
    let (seg, extra, e, r, h1) = add_col_lem v b h in
    let (segs, extras, es, rs, hs) = add_cols_lem vs (add_col v b) h1 in
    let table : (add_col v b).adj.neigh ≡ b.adj.neigh ++ extra = ap (λ g. g.neigh) e in
    (
      seg ++ segs,
      extra ++ extras,
      es
          ∙ ap (grow segs extras) e
          ∙ rw (append_assoc b.adj.indices seg segs, append_assoc b.adj.neigh extra extras) refl,
      rw (← append_assoc b.adj.neigh extra extras) (
          read_cols-append_cols ((b.adj.neigh ++ extra) ++ extras) seg segs (v ∷ []) vs
            (read_cols-append (b.adj.neigh ++ extra) extras seg (v ∷ []) r)
            (subst (λ t. read_cols (t ++ extras) segs ≡ some vs) table rs)),
      hs,
    )
