-- ===== src/Graph/Adjacency/Added.antt =====
-- The matrix as the second loop of buildAdj adds row after row.
use mlstore_db.Prelude.{
  ℕ, suc, ◌+◌, ◌-◌, ◌≡◌, refl, sym, ap, ◌∙◌, subst, true, false, some, List, [], ◌∷◌, ◌++◌, arith,
  length, get_elem?, append_assoc, append-nil, length-append, Bool-cases, inl, inr, take_at,
  drop_at, le→leb,
}
use mlstore_db.Prelude.Bytes.{Bytes, bytes_eq, bytes_eq_iff}
use mlstore_db.Prelude.Maps.{lookup, put, get_set, contains, lookup-put, Distinct, bytes_eq_refl}
use mlstore_db.Prelude.Strings.{sort_strings}
use mlstore_db.Graph.Adjacency.{
  GraphAdj, Building, add_row, add_rows, read_cols, neighbors_of, slice,
}
use mlstore_db.Graph.Adjacency.Rows.{
  get_elem?-append_left, get_elem?-append_last, read_cols-append, Indexed, add_cols_lem,
}

-- The matrix has a row for `k` that reads as `vs`.
abbrev pub Row : GraphAdj → Bytes → List Bytes → Type 0
Row g k vs =
    (i : ℕ) × (pre : List ℕ) × (seg : List ℕ) × (post : List ℕ) × (lookup k g.key_idx ≡ some i)
    × (get_elem? g.indptr i ≡ some (length pre))
    × (get_elem? g.indptr (i + 1) ≡ some (length pre + length seg))
    × (g.indices ≡ pre ++ (seg ++ post))
    × (read_cols g.neigh seg ≡ some vs)

slice_middle :
    (pre seg post : List ℕ)
    → slice (pre ++ (seg ++ post)) (length pre) (length pre + length seg) ≡ some seg
unfolding slice
slice_middle pre seg post =
    let size : length (pre ++ (seg ++ post)) ≡ length pre + (length seg + length post) =
      omega (arith, length-append pre (seg ++ post), length-append seg post) in
    let width : length pre + length seg - length pre ≡ length seg = omega arith in
    rw (
      le→leb (length pre) (length pre + length seg) (omega arith),
      le→leb (length pre + length seg) (length (pre ++ (seg ++ post))) (omega (arith, size)),
      width,
      drop_at (length pre) pre (seg ++ post) refl,
      take_at (length seg) seg post refl,
    )

pub neighbors_of-Row :
    (g : GraphAdj) (k : Bytes) (vs : List Bytes) → Row g k vs → neighbors_of (some g) k ≡ some vs
unfolding neighbors_of
neighbors_of-Row g k vs (i, pre, seg, post, here, start, end, cut, reads) =
    rw (here, start, end, cut, slice_middle pre seg post, neighbors_of) reads

-- indptr has a bound for every key, and the last is the number of indices.
abbrev pub Bounded : GraphAdj → Type 0
Bounded g =
    (length g.indptr ≡ suc (length g.keys))
    × (get_elem? g.indptr (length g.keys) ≡ some (length g.indices))

-- The matrix with one more row.
abbrev with_row : Bytes → List ℕ → List Bytes → GraphAdj → GraphAdj
with_row k seg extra g = record {
  keys = g.keys ++ k ∷ [];
  key_idx = put k (length g.keys) g.key_idx;
  indptr = g.indptr ++ length (g.indices ++ seg) ∷ [];
  indices = g.indices ++ seg;
  neigh = g.neigh ++ extra;
}

module _ (k : Bytes) (g : GraphAdj) where
  -- What adding a row does.
  abbrev RowAdded : List Bytes → GraphAdj → Type 0
  RowAdded ts g' =
      Bounded g'
      × Row g' k ts
      × ((j : Bytes) (vs : List Bytes) → bytes_eq k j ≡ false → Row g j vs → Row g' j vs)
      × ((j : Bytes) → bytes_eq k j ≡ false → lookup j g'.key_idx ≡ lookup j g.key_idx)

  with_row-Bounded :
      (seg : List ℕ) (extra : List Bytes) → Bounded g → Bounded (with_row k seg extra g)
  with_row-Bounded seg extra (size, last) =
      let more : length (g.keys ++ k ∷ []) ≡ length g.indptr =
        omega (arith, length-append g.keys (k ∷ []), size) in
      (
        omega (arith, length-append g.indptr (length (g.indices ++ seg) ∷ []), more),
        rw more (get_elem?-append_last g.indptr (length (g.indices ++ seg))),
      )

  with_row-Row :
      (seg : List ℕ) (extra ts : List Bytes)
      → Bounded g
      → read_cols (g.neigh ++ extra) seg ≡ some ts
      → Row (with_row k seg extra g) k ts
  with_row-Row seg extra ts (size, last) r =
      let end : length g.keys + 1 ≡ length g.indptr = omega (arith, size) in
      (
        length g.keys,
        g.indices,
        seg,
        [],
        ground (arith, lookup-put k k (length g.keys) g.key_idx, bytes_eq_refl k),
        get_elem?-append_left g.indptr (length (g.indices ++ seg) ∷ []) (length g.keys)
            (length g.indices) last,
        rw (end, get_elem?-append_last g.indptr (length (g.indices ++ seg)))
            (ap some (length-append g.indices seg)),
        rw (append-nil seg) refl,
        r,
      )

  with_row_keeps :
      (seg : List ℕ) (extra : List Bytes) (j : Bytes) (vs : List Bytes)
      → bytes_eq k j ≡ false
      → Row g j vs
      → Row (with_row k seg extra g) j vs
  with_row_keeps seg extra j vs other (i, pre, mid, post, here, start, end, cut, reads) = (
    i,
    pre,
    mid,
    post ++ seg,
    ground (arith, lookup-put k j (length g.keys) g.key_idx, other, here),
    get_elem?-append_left g.indptr (length (g.indices ++ seg) ∷ []) i (length pre) start,
    get_elem?-append_left g.indptr (length (g.indices ++ seg) ∷ []) (i + 1)
        (length pre + length mid) end,
    rw (cut, append_assoc pre (mid ++ post) seg, append_assoc mid post seg) refl,
    read_cols-append g.neigh extra mid vs reads,
  )

  with_row-RowAdded :
      (seg : List ℕ) (extra ts : List Bytes)
      → Bounded g
      → read_cols (g.neigh ++ extra) seg ≡ some ts
      → RowAdded ts (with_row k seg extra g)
  with_row-RowAdded seg extra ts h r = (
    with_row-Bounded seg extra h,
    with_row-Row seg extra ts h r,
    with_row_keeps seg extra,
    λ j other. ground (arith, lookup-put k j (length g.keys) g.key_idx, other),
  )

module _ (bucket : List (Bytes × List Bytes)) where
  abbrev pub targets : Bytes → List Bytes
  targets k = sort_strings (get_set k bucket)

  row_added :
      (k : Bytes) (b : Building)
      → Indexed b
      → Bounded b.adj
      → Indexed (add_row bucket k b) × RowAdded k b.adj (targets k) (add_row bucket k b).adj
  unfolding add_row
  row_added k b h bound =
      let named : Building = record b {
        adj = record b.adj {
          key_idx = put k (length b.adj.keys) b.adj.key_idx;
          keys = b.adj.keys ++ k ∷ [];
        };
      } in
      let (seg, extra, e, r, h') = add_cols_lem (targets k) named h in
      let close : GraphAdj → GraphAdj =
        λ g. record g { indptr = g.indptr ++ length g.indices ∷ [] } in
      (
        h',
        subst (RowAdded k b.adj (targets k)) (sym (ap close e))
            (with_row-RowAdded k b.adj seg extra (targets k) bound r),
      )

  -- Every key has its row in the end; a row of before stays.
  pub rows_added :
      (ks : List Bytes) (b : Building)
      → Indexed b
      → Bounded b.adj
      → Distinct ks
      → ((j : Bytes) → contains ks j ≡ true → Row (add_rows bucket ks b).adj j (targets j))
        × ((j : Bytes) (vs : List Bytes)
            → contains ks j ≡ false
            → Row b.adj j vs
            → Row (add_rows bucket ks b).adj j vs)
        × ((j : Bytes)
            → contains ks j ≡ false
            → lookup j (add_rows bucket ks b).adj.key_idx ≡ lookup j b.adj.key_idx)
  unfolding add_rows contains
  rows_added [] b h bound d = ((λ j e. absurd (ground arith)), (λ j vs e r. r), λ j e. refl)
  rows_added (k ∷ ks) b h bound d =
      let (h', (bound', row, keep, miss)) = row_added k b h bound in
      let (rows, keeps, misses) = rows_added ks (add_row bucket k b) h' bound' d.1 in
      (
        (λ j e. elim (Bool-cases (bytes_eq k j)) [
          | inl same ↦
              subst (λ v. Row (add_rows bucket ks (add_row bucket k b)).adj v (targets v))
                ((bytes_eq_iff k j).0 same) (keeps k (targets k) d.0 row)
          | inr other ↦ rows j (ground (arith, other))
        ]),
        (λ j vs e r. keeps j vs (ground arith) (keep j vs (ground arith) r)),
        λ j e. misses j (ground arith) ∙ miss j (ground arith),
      )
