-- ===== src/Filter/Probe/Tests.antt =====
-- Filters of a session that must not see "a".
use mlstore_db.Prelude.{
  ℕ, ◌≡◌, ◌⊎◌, inl, inr, refl, sym, ap, ◌∙◌, true, false, none, List, [], ◌∷◌, arith, ltb, ◌==◌,
  Bool-cases,
}
use mlstore_db.Prelude.Bytes.{Bytes, bytes_eq, bytes_eq_iff}
use mlstore_db.Prelude.Maps.{contains}
use mlstore_db.Filter.{
  number, string, document, Fields, no_fields, field, FilterLib, answer, match, split_dots,
  lookup_parts, lookup_multi, values_at, values_below, get_key,
}
use mlstore_db.Filter.Probe.{is_dollar_key, filter_touches, key_touches}
use mlstore_db.Filter.Probe.Blind.{match_same}
use mlstore_db.Filter.Probe.Dotted.{dotted_probe}

abbrev plain_floats : FilterLib
plain_floats = record { float_eq = λ a b. a == b; float_lt = λ a b. ltb a b; compile = λ p. none }

abbrev a : Bytes
a = 97 ∷ []

abbrev b : Bytes
b = 98 ∷ []

abbrev with_a : Fields
with_a = field a (number 1) no_fields

first_part : (k : Bytes) → (q : Bytes) × (qs : List Bytes) × (split_dots k ≡ q ∷ qs)
unfolding split_dots
first_part [] = ([], [], refl)
first_part (c ∷ k) = elim (Bool-cases (c == 46)) [
  | inl dot ↦ ([], split_dots k, rw (dot, split_dots) refl)
  | inr other ↦ let (q, qs, e) = first_part k in (c ∷ q, qs, rw (other, e, split_dots) refl)
]

one_part : (k p : Bytes) → split_dots k ≡ p ∷ [] → k ≡ p
unfolding split_dots
one_part [] p h = cc
one_part (c ∷ k) p h =
    let (q, qs, e) = first_part k in
    elim (Bool-cases (c == 46)) [
      | inl dot ↦ absurd (ground (arith, dot, e, h))
      | inr other ↦
          let whole : (c ∷ q) ∷ qs ≡ p ∷ [] = ground (arith, other, e, h) in
          let no_more : qs ≡ [] = cc in
          let same : c ∷ q ≡ p = cc in
          ap (λ t. c ∷ t) (one_part k q (e ∙ ap (λ l. q ∷ l) no_more)) ∙ same
    ]

nothing_below : (ps : List Bytes) → lookup_parts ps [] ≡ []
unfolding lookup_parts values_below
nothing_below [] = refl
nothing_below (p ∷ ps) = nothing_below ps

known :
    (k : Bytes) → bytes_eq a k ≡ true → (is_dollar_key k ≡ true) ⊎ (contains (a ∷ []) k ≡ false) → ⊥
unfolding contains
known k same (inl d) =
    let name : a ≡ k = (bytes_eq_iff a k).0 same in
    let dollar : is_dollar_key a ≡ true = ap is_dollar_key name ∙ d in ground (arith, dollar)
known k same (inr free) = ground (arith, same, free)

by_parts :
    (p : Bytes) (ps : List Bytes) (k : Bytes)
    → split_dots k ≡ p ∷ ps
    → bytes_eq a k ≡ false
    → lookup_parts (p ∷ ps) (document with_a ∷ []) ≡ []
unfolding lookup_parts values_below values_at get_key bytes_eq
by_parts p [] k e h =
    let same = one_part k p e in let other : bytes_eq a p ≡ false = rw (sym same) h in rw other refl
by_parts p (q ∷ qs) k e h = elim (Bool-cases (bytes_eq a p)) [
  | inl same ↦ rw same (nothing_below qs)
  | inr other ↦ rw other (nothing_below (q ∷ qs))
]

none_of_none : (p : Bytes) (ps : List Bytes) → lookup_parts (p ∷ ps) (document no_fields ∷ []) ≡ []
unfolding lookup_parts values_below values_at get_key
none_of_none p ps = nothing_below ps

read_nothing :
    (doc : Fields) (c : ℕ) (k : Bytes)
    → lookup_parts (split_dots (c ∷ k)) (document doc ∷ []) ≡ []
    → lookup_multi doc (c ∷ k) ≡ none
unfolding lookup_multi
read_nothing doc c k h = rw (h, lookup_multi) refl

no_key : (doc : Fields) → lookup_multi doc [] ≡ none
unfolding lookup_multi
no_key doc = refl

nothing_read :
    (k : Bytes)
    → (is_dollar_key k ≡ true) ⊎ (contains (a ∷ []) k ≡ false)
    → lookup_multi with_a k ≡ lookup_multi no_fields k
nothing_read [] h = no_key with_a ∙ sym (no_key no_fields)
nothing_read (c ∷ k) h = elim (Bool-cases (bytes_eq a (c ∷ k))) [
  | inl same ↦ absurd (known (c ∷ k) same h)
  | inr other ↦
      let (p, ps, e) = first_part (c ∷ k) in
      read_nothing with_a c k
        (ap (λ l. lookup_parts l (document with_a ∷ [])) e ∙ by_parts p ps (c ∷ k) e other)
      ∙ sym (
          read_nothing no_fields c k
            (ap (λ l. lookup_parts l (document no_fields ∷ [])) e ∙ none_of_none p ps))
]

match_same_example :
    match plain_floats with_a (field b (number 1) no_fields)
    ≡ match plain_floats no_fields (field b (number 1) no_fields)
unfolding filter_touches key_touches contains bytes_eq
match_same_example =
    match_same plain_floats (a ∷ []) with_a no_fields nothing_read (field b (number 1) no_fields)
      refl

dotted_probe_example :
    (filter_touches (a ∷ []) (field (97 ∷ 46 ∷ 98 ∷ []) (string b) no_fields) ≡ false)
    × (match plain_floats
          (field a (document (field b (string b) no_fields)) no_fields)
          (field (97 ∷ 46 ∷ 98 ∷ []) (string b) no_fields)
        ≡ answer true)
    × (match plain_floats no_fields (field (97 ∷ 46 ∷ 98 ∷ []) (string b) no_fields) ≡ answer false)
dotted_probe_example = dotted_probe plain_floats 97 [] b b refl refl refl
