-- ===== src/Filter/Probe/Dotted.antt =====
-- A path below a denied field, which filterTouchesFields does not see.
use mlstore_db.Prelude.{
  ℕ, ◌≡◌, refl, ◌∙◌, ap, Bool, true, false, ◌||◌, none, some, [], ◌∷◌, ◌++◌, arith, ◌==◌,
}
use mlstore_db.Prelude.Bytes.{Bytes, bytes_eq}
use mlstore_db.Prelude.Maps.{bytes_eq_refl, contains}
use mlstore_db.Filter.{
  string, document, Fields, no_fields, field, FilterLib, answer, all_of, any_of, split_dots,
  lookup_parts, lookup_multi, values_at, values_below, get_key, equal_json, match_equal, match,
  results, match_field,
}
use mlstore_db.Filter.Probe.{filter_touches, key_touches}

abbrev pub has_dot : Bytes → Bool
has_dot [] = false
has_dot (c ∷ s) = c == 46 || has_dot s

split_plain : (x : Bytes) → has_dot x ≡ false → split_dots x ≡ x ∷ []
unfolding split_dots
split_plain [] h = refl
split_plain (c ∷ x) h =
    let this : (c == 46) ≡ false = ground (arith, h) in
    let rest = split_plain x (ground (arith, h)) in rw (this, rest, split_dots) refl

split_dotted :
    (s x : Bytes) → has_dot s ≡ false → has_dot x ≡ false → split_dots (s ++ 46 ∷ x) ≡ s ∷ x ∷ []
unfolding split_dots
split_dotted [] x h k = ap (λ l. [] ∷ l) (split_plain x k)
split_dotted (c ∷ s) x h k =
    let this : (c == 46) ≡ false = ground (arith, h) in
    let rest = split_dotted s x (ground (arith, h)) k in rw (this, rest, split_dots) refl

longer : (s x : Bytes) → bytes_eq s (s ++ 46 ∷ x) ≡ false
unfolding bytes_eq
longer [] x = refl
longer (c ∷ s) x = ground (arith, longer s x)

module _ (lib : FilterLib) (c : ℕ) (s x v : Bytes) (plain : has_dot (c ∷ s) ≡ false)
    (plain' : has_dot x ≡ false) (no_dollar : (c == 36) ≡ false) where
  abbrev denied : Bytes
  denied = c ∷ s

  abbrev probe : Fields
  probe = field (denied ++ 46 ∷ x) (string v) no_fields

  abbrev holder : Fields
  holder = field denied (document (field x (string v) no_fields)) no_fields

  unseen : filter_touches (denied ∷ []) probe ≡ false
  unfolding filter_touches key_touches contains
  unseen = ground (arith, no_dollar, longer denied x)

  read_holder : lookup_multi holder (denied ++ 46 ∷ x) ≡ some (string v ∷ [])
  unfolding lookup_multi lookup_parts values_below values_at get_key
  read_holder =
      rw (split_dotted denied x plain plain', lookup_multi, bytes_eq_refl denied, bytes_eq_refl x)
        refl

  read_none : lookup_multi no_fields (denied ++ 46 ∷ x) ≡ none
  unfolding lookup_multi lookup_parts values_below values_at get_key
  read_none = rw (split_dotted denied x plain plain', lookup_multi) refl

  condition :
      (doc : Fields)
      → match lib doc probe
        ≡ all_of (match_equal lib (lookup_multi doc (denied ++ 46 ∷ x)) (string v) ∷ [])
  unfolding match results match_field bytes_eq
  condition doc = rw no_dollar refl

  -- With a field denied whose name has no dot and no dollar in front, filterTouchesFields lets a
  -- filter on a path of two parts below it through, and the filter tells a document with a string
  -- at that path from one without the field.
  pub dotted_probe :
      (filter_touches (denied ∷ []) probe ≡ false)
      × (match lib holder probe ≡ answer true)
      × (match lib no_fields probe ≡ answer false)
  unfolding match_equal any_of all_of equal_json
  dotted_probe = (
    unseen,
    condition holder ∙ rw (read_holder) (ground (arith, bytes_eq_refl v)),
    condition no_fields ∙ rw (read_none) refl,
  )
