-- ===== src/Prelude/Strings.antt =====
-- Go's order on strings, and sort.Strings.
use mathlib.Core.Path.{◌≡◌, refl}
use mathlib.Core.Bool.{Bool, true, false, ◌||◌}
use mathlib.Core.List.{List, [], ◌∷◌}
use native.Mathlib.Omega.{arith}
use mlstore_db.Prelude.Tests.{if◌then◌else◌, ltb, ◌==◌, Bool-cases}
use mathlib.Core.Logic.{inl, inr}
use mlstore_db.Prelude.Bytes.{Bytes, bytes_eq, bytes_eq_iff}
use mlstore_db.Prelude.Maps.{contains, Distinct}

-- s < t
unfoldable pub str_less : Bytes → Bytes → Bool
str_less s [] = false
str_less [] (b ∷ t) = true
str_less (a ∷ s) (b ∷ t) = if ltb a b then true else if a == b then str_less s t else false

pub str_less_trans :
    (s t u : Bytes) → str_less s t ≡ true → str_less t u ≡ true → str_less s u ≡ true
unfolding str_less
str_less_trans s [] u h k = absurd (ground arith)
str_less_trans s (b ∷ t) [] h k = absurd (ground arith)
str_less_trans [] (b ∷ t) (c ∷ u) h k = refl
str_less_trans (a ∷ s) (b ∷ t) (c ∷ u) h k = ground (arith, str_less_trans s t u)

pub str_less-total :
    (s t : Bytes) → str_less s t ≡ false → bytes_eq s t ≡ false → str_less t s ≡ true
unfolding str_less bytes_eq
str_less-total [] [] h k = absurd (ground arith)
str_less-total (a ∷ s) [] h k = refl
str_less-total [] (b ∷ t) h k = absurd (ground arith)
str_less-total (a ∷ s) (b ∷ t) h k = ground (arith, str_less-total s t)

pub str_less_irrefl : (s : Bytes) → str_less s s ≡ false
unfolding str_less
str_less_irrefl [] = refl
str_less_irrefl (a ∷ s) = ground (arith, str_less_irrefl s)

-- sort.Strings sorts in place; on distinct strings only one result is ascending.
unfoldable pub insert_sorted : Bytes → List Bytes → List Bytes
insert_sorted v [] = v ∷ []
insert_sorted v (a ∷ l) = if str_less a v then a ∷ insert_sorted v l else v ∷ a ∷ l

unfoldable pub sort_strings : List Bytes → List Bytes
sort_strings [] = []
sort_strings (a ∷ l) = insert_sorted a (sort_strings l)

-- Every string of the list is above `v`.
abbrev pub AllAbove : Bytes → List Bytes → Type 0
AllAbove v [] = Unit {0}
AllAbove v (a ∷ l) = (str_less v a ≡ true) × AllAbove v l

-- Strictly ascending, so with no string twice.
abbrev pub Ascending : List Bytes → Type 0
Ascending [] = Unit {0}
Ascending (a ∷ l) = AllAbove a l × Ascending l

above_trans : (v w : Bytes) (l : List Bytes) → str_less v w ≡ true → AllAbove w l → AllAbove v l
above_trans v w [] h k = tt
above_trans v w (a ∷ l) h k = (str_less_trans v w a h k.0, above_trans v w l h k.1)

above_insert :
    (a v : Bytes) (l : List Bytes)
    → str_less a v ≡ true
    → AllAbove a l
    → AllAbove a (insert_sorted v l)
unfolding insert_sorted
above_insert a v [] h k = (h, tt)
above_insert a v (b ∷ l) h k = ground (arith, above_insert a v l)

contains-insert_sorted :
    (v w : Bytes) (l : List Bytes) → contains (insert_sorted v l) w ≡ (bytes_eq v w || contains l w)
unfolding insert_sorted contains
contains-insert_sorted v w [] = refl
contains-insert_sorted v w (a ∷ l) = ground (arith, contains-insert_sorted v w l)

pub contains-sort_strings :
    (l : List Bytes) (w : Bytes) → contains (sort_strings l) w ≡ contains l w
unfolding sort_strings contains
contains-sort_strings [] w = refl
contains-sort_strings (a ∷ l) w =
    ground (arith, contains-insert_sorted a w (sort_strings l), contains-sort_strings l w)

Ascending-insert_sorted :
    (v : Bytes) (l : List Bytes)
    → Ascending l
    → contains l v ≡ false
    → Ascending (insert_sorted v l)
unfolding insert_sorted contains
Ascending-insert_sorted v [] h k = (tt, tt)
Ascending-insert_sorted v (a ∷ l) h k = elim (Bool-cases (str_less a v)) [
  | inl below ↦
      rw below (above_insert a v l below h.0, Ascending-insert_sorted v l h.1 (ground arith))
  | inr above ↦
      let first : str_less v a ≡ true = str_less-total a v above (ground arith) in
      rw above ((first, above_trans v a l first h.0), h)
]

pub Ascending-sort_strings : (l : List Bytes) → Distinct l → Ascending (sort_strings l)
unfolding sort_strings
Ascending-sort_strings [] h = tt
Ascending-sort_strings (a ∷ l) h =
    Ascending-insert_sorted a (sort_strings l) (Ascending-sort_strings l h.1)
      (ground (arith, h.0, contains-sort_strings l a))

above_absent : (a : Bytes) (l : List Bytes) → AllAbove a l → contains l a ≡ false
unfolding contains
above_absent a [] h = refl
above_absent a (b ∷ l) h =
    ground (arith, h.0, above_absent a l h.1, bytes_eq_iff b a, str_less_irrefl a)

pub Ascending-Distinct : (l : List Bytes) → Ascending l → Distinct l
Ascending-Distinct [] h = tt
Ascending-Distinct (a ∷ l) h = (above_absent a l h.0, Ascending-Distinct l h.1)
