-- ===== src/Store/Sorting/Tests.antt =====
-- The sort of Find at three documents.
use mlstore_db.Prelude.{
  ℕ, ◌≡◌, ◌≢◌, refl, none, some, List, [], ◌∷◌, arith, ltb, ◌==◌, drop, length, ◌++◌,
}
use mathlib.Core.List.{Perm}
use mlstore_db.Prelude.Bytes.{Bytes, bytes_eq}
use mlstore_db.Prelude.Int.{ℤ, pos, negsuc}
use mlstore_db.Prelude.Strings.{str_less}
use mlstore_db.Filter.{number, no_fields, field, FilterLib, get_key}
use mlstore_db.Store.Sorting.{
  Ref, better_doc, better_key, compare_values, sort_by, delete_at, worst_from, worst_idx, pop,
  keep_best, drain, best_first, sort_by_partial, page, reverse_refs, index_order, sort_page,
}
use mlstore_db.Store.Sorting.Best.{All}
use mlstore_db.Store.Sorting.Drained.{AtMost, BestFirst}
use mlstore_db.Store.Sorting.Keys.{FloatOrder, numbers, float}
use mlstore_db.Store.Sorting.Partial.{sort_page_lem}
use mlstore_db.Store.Sorting.Stale.{sort_by-perm, sort_by_unsorted, pages_repeat}

abbrev nat_floats : FilterLib
nat_floats = record { float_eq = λ a b. a == b; float_lt = λ a b. ltb a b; compile = λ p. none }

nat_order : FloatOrder nat_floats
nat_order = record {
  asym = λ a b h. ground (arith, h);
  between = λ a b c e h k. ground (arith, h, k);
}

abbrev n : Bytes
n = 110 ∷ []

abbrev doc_of : ℕ → ℕ → Ref
doc_of id key = record { id = id ∷ []; body = field n (number key) no_fields }

abbrev three : List Ref
three = doc_of 1 30 ∷ doc_of 2 10 ∷ doc_of 3 20 ∷ []

abbrev up : List (Bytes × ℤ)
up = (n, pos 1) ∷ []

first_two : sort_page nat_floats none up 0 2 three ≡ some (doc_of 2 10 ∷ doc_of 3 20 ∷ [])
unfolding sort_page index_order sort_by_partial page best_first keep_best pop worst_idx worst_from
    delete_at drain better_key compare_values get_key bytes_eq
first_two = refl

sort_page_lem_example :
    (r : List Ref) × (sort_page nat_floats none up 1 1 three ≡ some (drop 1 r))
    × (length r ≡ 2)
    × BestFirst (better_doc nat_floats (pos 1) n) r
    × (rest : List Ref) × Perm three (r ++ rest)
    × All (AtMost (better_doc nat_floats (pos 1) n) rest) r
unfolding get_key bytes_eq
sort_page_lem_example =
    sort_page_lem nat_floats nat_order numbers none n (pos 1) 1 1 three (λ e. cc e) (omega arith)
      (omega arith) (float 30 refl, (float 10 refl, (float 20 refl, tt)))

sort_by_unsorted_example :
    (sort_by nat_floats up three ≡ doc_of 2 10 ∷ doc_of 1 30 ∷ doc_of 3 20 ∷ [])
    × ¬ BestFirst (better_doc nat_floats (pos 1) n) (sort_by nat_floats up three)
unfolding str_less better_key compare_values get_key bytes_eq
sort_by_unsorted_example =
    sort_by_unsorted nat_floats n (pos 1) (doc_of 1 30) (doc_of 2 10) (doc_of 3 20) refl refl refl
      refl refl

other_field : some (120 ∷ []) ≢ some n
other_field = λ e. ground (arith, e)

-- With a range index on "n", the first page is the first document of the index, or the last.
indexed_page : sort_page nat_floats (some n) up 0 1 three ≡ some (doc_of 1 30 ∷ [])
unfolding sort_page index_order page bytes_eq
indexed_page = refl

indexed_down :
    sort_page nat_floats (some n) ((n, negsuc 0) ∷ []) 0 1 three ≡ some (doc_of 3 20 ∷ [])
unfolding sort_page index_order reverse_refs page bytes_eq
indexed_down = refl

pages_repeat_example :
    (sort_page nat_floats (some (120 ∷ [])) up 0 1 (doc_of 1 7 ∷ doc_of 2 7 ∷ [])
      ≡ some (doc_of 2 7 ∷ []))
    × (sort_page nat_floats (some (120 ∷ [])) up 1 1 (doc_of 1 7 ∷ doc_of 2 7 ∷ [])
        ≡ some (doc_of 2 7 ∷ []))
unfolding str_less better_key compare_values get_key bytes_eq
pages_repeat_example =
    pages_repeat nat_floats (some (120 ∷ [])) n (pos 1) (doc_of 1 7) (doc_of 2 7) other_field refl
      refl refl

sort_by-perm_example : Perm three (sort_by nat_floats up three)
sort_by-perm_example = sort_by-perm nat_floats up three
