-- ===== src/Store/Sorting/Keys.antt =====
-- The order of compareValues on keys that are all strings, or all numbers, or missing.
use mlstore_db.Prelude.{ℕ, ◌≡◌, sym, ◌∙◌, inl, inr, true, false, arith, Bool-cases}
use mlstore_db.Prelude.Bytes.{Bytes, bytes_eq, bytes_eq_iff}
use mlstore_db.Prelude.Int.{ℤ, pos, negsuc}
use mlstore_db.Prelude.Strings.{str_less, str_less_trans, str_less-total, str_less_irrefl}
use mlstore_db.Filter.{Json, null, number, string, FilterLib}
use mlstore_db.Store.Sorting.{compare_values, better_key}

-- What IEEE 754 says of < on float64: float_eq n n holds of all but NaN.
pub record FloatOrder (lib : FilterLib) : Type 0 where
  pub asym : (a b : ℕ) → lib.float_lt a b ≡ true → lib.float_lt b a ≡ false
  pub between :
      (a b c : ℕ)
      → lib.float_eq b b ≡ true
      → lib.float_lt a b ≡ false
      → lib.float_lt b c ≡ false
      → lib.float_lt a c ≡ false

pub data KeyKind : Type 0 where
  texts : KeyKind
  numbers : KeyKind

str_asym : (s t : Bytes) → str_less s t ≡ true → str_less t s ≡ false
str_asym s t h = ground (arith, str_less_trans s t s h, str_less_irrefl s)

str_between : (s t u : Bytes) → str_less s t ≡ false → str_less t u ≡ false → str_less s u ≡ false
str_between s t u h k = elim (Bool-cases (bytes_eq s t)) [
  | inl same ↦ let e = (bytes_eq_iff s t).0 same in cc
  | inr other ↦ ground (arith, str_less-total s t h other, str_less_trans t s u)
]

-- A missing key, or one of the kind that is no NaN.
pub data IsOf (lib : FilterLib) : KeyKind → Json → Type 0 where
  missing : (kind : KeyKind) → IsOf lib kind null
  text : (s : Bytes) → IsOf lib texts (string s)
  float : (n : ℕ) → lib.float_eq n n ≡ true → IsOf lib numbers (number n)

module _ (lib : FilterLib) (laws : FloatOrder lib) where
  -- Downwards is upwards with the two turned round.
  better_down :
      (kind : KeyKind) (d : ℕ) (a b : Json)
      → IsOf lib kind a
      → IsOf lib kind b
      → better_key lib (negsuc d) a b ≡ better_key lib (pos 0) b a
  unfolding better_key compare_values
  better_down kind d a b (missing _) (missing _) = ground arith
  better_down kind d a b (missing _) (text t) = ground arith
  better_down kind d a b (missing _) (float n k) = ground arith
  better_down kind d a b (text s) (missing _) = ground arith
  better_down kind d a b (text s) (text t) = ground (arith, str_asym s t)
  better_down kind d a b (float m j) (missing _) = ground arith
  better_down kind d a b (float m j) (float n k) = ground (arith, laws.asym m n)

  asym_up :
      (kind : KeyKind) (a b : Json)
      → IsOf lib kind a
      → IsOf lib kind b
      → better_key lib (pos 0) a b ≡ true
      → better_key lib (pos 0) b a ≡ false
  unfolding better_key compare_values
  asym_up kind a b (missing _) (missing _) h = ground arith
  asym_up kind a b (missing _) (text t) h = ground arith
  asym_up kind a b (missing _) (float n k) h = ground arith
  asym_up kind a b (text s) (missing _) h = ground arith
  asym_up kind a b (text s) (text t) h = ground (arith, str_asym s t)
  asym_up kind a b (float m j) (missing _) h = ground arith
  asym_up kind a b (float m j) (float n k) h = ground (arith, laws.asym m n)

  between_up :
      (kind : KeyKind) (a b c : Json)
      → IsOf lib kind a
      → IsOf lib kind b
      → IsOf lib kind c
      → better_key lib (pos 0) a b ≡ false
      → better_key lib (pos 0) b c ≡ false
      → better_key lib (pos 0) a c ≡ false
  unfolding better_key compare_values
  between_up kind a b c (missing _) (missing _) (missing _) p q = ground arith
  between_up kind a b c (missing _) (missing _) (text u) p q = ground arith
  between_up kind a b c (missing _) (text t) (missing _) p q = ground arith
  between_up kind a b c (missing _) (text t) (text u) p q = ground arith
  between_up kind a b c (text s) (missing _) (missing _) p q = ground arith
  between_up kind a b c (text s) (missing _) (text u) p q = ground arith
  between_up kind a b c (text s) (text t) (missing _) p q = ground arith
  between_up kind a b c (text s) (text t) (text u) p q =
      ground (arith, str_between s t u, str_asym s t, str_asym t u, str_asym s u)
  between_up kind a b c (missing _) (missing _) (float n k) p q = ground arith
  between_up kind a b c (missing _) (float m j) (missing _) p q = ground arith
  between_up kind a b c (missing _) (float m j) (float n k) p q = ground arith
  between_up kind a b c (float l i) (missing _) (missing _) p q = ground arith
  between_up kind a b c (float l i) (missing _) (float n k) p q = ground arith
  between_up kind a b c (float l i) (float m j) (missing _) p q = ground arith
  between_up kind a b c (float l i) (float m j) (float n k) p q =
      ground (arith, laws.between l m n j, laws.asym l m, laws.asym m n, laws.asym l n)

  -- Upwards and downwards, the test of the sort is asymmetric.
  pub better_asym :
      (kind : KeyKind) (dir : ℤ) (a b : Json)
      → IsOf lib kind a
      → IsOf lib kind b
      → better_key lib dir a b ≡ true
      → better_key lib dir b a ≡ false
  unfolding better_key
  better_asym kind (pos d) a b da db h = asym_up kind a b da db h
  better_asym kind (negsuc d) a b da db h =
      better_down kind d b a db da ∙ asym_up kind b a db da (sym (better_down kind d a b da db) ∙ h)

  -- And what is not better than one that is not better than a third is not better than the third.
  pub better_between :
      (kind : KeyKind) (dir : ℤ) (a b c : Json)
      → IsOf lib kind a
      → IsOf lib kind b
      → IsOf lib kind c
      → better_key lib dir a b ≡ false
      → better_key lib dir b c ≡ false
      → better_key lib dir a c ≡ false
  unfolding better_key
  better_between kind (pos d) a b c da db dc p q = between_up kind a b c da db dc p q
  better_between kind (negsuc d) a b c da db dc p q =
      better_down kind d a c da dc
      ∙ between_up kind c b a dc db da (sym (better_down kind d b c db dc) ∙ q)
          (sym (better_down kind d a b da db) ∙ p)
