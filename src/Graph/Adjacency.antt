-- ===== src/Graph/Adjacency.antt =====
-- db/graph.go: the CSR matrix of the edges of one type in one direction. An edge is the pair of its
-- _from and _to.
pub mod Buckets
pub mod Rows
pub mod Added
pub mod Neighbors
use mlstore_db.Prelude.{
  ℕ, ◌+◌, ◌-◌, Bool, ◌&&◌, Option, none, some, List, [], ◌∷◌, ◌++◌, length, get_elem?, take, drop,
  leb, if◌then◌else◌,
}
use mlstore_db.Prelude.Bytes.{Bytes}
use mlstore_db.Prelude.Options.{◌>>=◌}
use mlstore_db.Prelude.Maps.{lookup, put, keys, add, get_set}
use mlstore_db.Prelude.Strings.{sort_strings}

pub record GraphAdj : Type 0 where
  pub keys : List Bytes
  pub key_idx : List (Bytes × ℕ)
  pub indptr : List ℕ
  pub indices : List ℕ
  pub neigh : List Bytes

-- l[start:end]; `none` is the panic of bounds out of range.
unfoldable pub slice {ℓ} : {A : Type ℓ} → List A → ℕ → ℕ → Option (List A)
slice l start end =
    if leb start end && leb end (length l) then some (take (end - start) (drop start l)) else none

-- neigh[col] for each column.
unfoldable pub read_cols : List Bytes → List ℕ → Option (List Bytes)
read_cols neigh [] = some []
read_cols neigh (col ∷ cols) = do v ← get_elem? neigh col; vs ← read_cols neigh cols; some (v ∷ vs)

-- The outer `none` is a panic; a nil graph has no neighbours.
unfoldable pub neighbors_of : Option GraphAdj → Bytes → Option (List Bytes)
neighbors_of none v = some []
neighbors_of (some g) v = elim (lookup v g.key_idx) [
  | none ↦ some []
  | some row ↦ do
    start ← get_elem? g.indptr row
    end ← get_elem? g.indptr (row + 1)
    cols ← slice g.indices start end
    read_cols g.neigh cols
]

-- An edge as the source and the target of its row.
abbrev pub turned : Bool → Bytes × Bytes → Bytes × Bytes
turned reverse (k, v) = if reverse then (v, k) else (k, v)

-- The first loop: bucket[k][v] for each pair.
unfoldable pub buckets :
    Bool → List (Bytes × Bytes) → List (Bytes × List Bytes) → List (Bytes × List Bytes)
buckets reverse [] m = m
buckets reverse (p ∷ pairs) m =
    let (k, v) = turned reverse p in buckets reverse pairs (put k (add v (get_set k m)) m)

-- The local state of the second loop.
pub record Building : Type 0 where
  pub vert_idx : List (Bytes × ℕ)
  pub adj : GraphAdj

unfoldable pub add_col : Bytes → Building → Building
add_col v b = elim (lookup v b.vert_idx) [
  | some col ↦ record b { adj = record b.adj { indices = b.adj.indices ++ col ∷ [] } }
  | none ↦
      let col = length b.adj.neigh in
      record {
        vert_idx = put v col b.vert_idx;
        adj = record b.adj { neigh = b.adj.neigh ++ v ∷ []; indices = b.adj.indices ++ col ∷ [] };
      }
]

unfoldable pub add_cols : List Bytes → Building → Building
add_cols [] b = b
add_cols (v ∷ vs) b = add_cols vs (add_col v b)

unfoldable pub add_row : List (Bytes × List Bytes) → Bytes → Building → Building
add_row bucket k b =
    let named = record b {
      adj = record b.adj {
        key_idx = put k (length b.adj.keys) b.adj.key_idx;
        keys = b.adj.keys ++ k ∷ [];
      };
    } in
    let filled = add_cols (sort_strings (get_set k bucket)) named in
    record filled {
      adj = record filled.adj { indptr = filled.adj.indptr ++ length filled.adj.indices ∷ [] };
    }

unfoldable pub add_rows : List (Bytes × List Bytes) → List Bytes → Building → Building
add_rows bucket [] b = b
add_rows bucket (k ∷ ks) b = add_rows bucket ks (add_row bucket k b)

abbrev pub no_rows : Building
no_rows = record {
  vert_idx = [];
  adj = record { keys = []; key_idx = []; indptr = 0 ∷ []; indices = []; neigh = [] };
}

-- With no pair the matrix is left empty, its indptr too.
unfoldable pub build_from : List (Bytes × List Bytes) → List Bytes → GraphAdj
build_from bucket [] = record { keys = []; key_idx = []; indptr = []; indices = []; neigh = [] }
build_from bucket (k ∷ ks) = (add_rows bucket (sort_strings (k ∷ ks)) no_rows).adj

unfoldable pub build_adj : List (Bytes × Bytes) → Bool → GraphAdj
build_adj pairs reverse = let bucket = buckets reverse pairs [] in build_from bucket (keys bucket)
