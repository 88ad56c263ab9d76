-- ===== src/Wire/Update/Paths.antt =====
-- Reading back what setPath writes.
use mlstore_db.Prelude.{
  ◌≡◌, refl, ◌∙◌, Bool, false, none, some, List, [], ◌∷◌, arith, if◌then◌else◌, Bool-cases,
  Option-cases, inl, inr,
}
use mlstore_db.Prelude.Bytes.{Bytes, bytes_eq, bytes_eq_iff}
use mlstore_db.Prelude.Maps.{bytes_eq_refl}
use mlstore_db.Filter.{split_dots}
use mlstore_db.Wire.Bson.{Value, document, Fields, no_fields, field, get_field, put_field}
use mlstore_db.Wire.Update.{
  Updated, done, failed, drop_field, sub_document, put_under, set_parts, starts_at_id, set_path,
  lookup_steps, lookup_path,
}

pub get_field-put_field :
    (k j : Bytes) (v : Value) (m : Fields)
    → get_field j (put_field k v m) ≡ (if bytes_eq k j then some v else get_field j m)
unfolding get_field put_field
get_field-put_field k j v no_fields = refl
get_field-put_field k j v (field i w m) =
    ground
      (arith, bytes_eq_iff k j, bytes_eq_iff i k, bytes_eq_iff i j, get_field-put_field k j v m)

pub get_field-drop_field :
    (k j : Bytes) (m : Fields)
    → get_field j (drop_field k m) ≡ (if bytes_eq k j then none else get_field j m)
unfolding get_field drop_field
get_field-drop_field k j no_fields = ground arith
get_field-drop_field k j (field i w m) =
    ground (arith, bytes_eq_iff k j, bytes_eq_iff i k, bytes_eq_iff i j, get_field-drop_field k j m)

get_field_put : (k : Bytes) (v : Value) (m : Fields) → get_field k (put_field k v m) ≡ some v
get_field_put k v m = ground (arith, get_field-put_field k k v m, bytes_eq_refl k)

abbrev pub starts_with : Bytes → List Bytes → Bool
starts_with j [] = false
starts_with j (p ∷ ps) = bytes_eq p j

lookup_nothing : (v : Value) → lookup_steps [] v ≡ some v
unfolding lookup_steps
lookup_nothing v = refl

put_under_lem :
    (p : Bytes) (m n : Fields) (r : Updated Fields)
    → put_under p m r ≡ done n
    → (sub : Fields) × (r ≡ done sub) × (n ≡ put_field p (document sub) m)
put_under_lem p m n (done sub) h = (sub, refl, cc)
put_under_lem p m n (failed x) h = absurd (ground (arith, h))

lookup_next :
    (p : Bytes) (ps : List Bytes) (n : Fields) (v : Value)
    → get_field p n ≡ some v
    → lookup_steps (p ∷ ps) (document n) ≡ lookup_steps ps v
unfolding lookup_steps
lookup_next p ps n v h = rw (h, lookup_steps) refl

-- The value that was set, and the fields that the path does not lead into.
abbrev pub Wrote : List Bytes → Value → Fields → Fields → Type 0
Wrote parts v m n =
    (lookup_steps parts (document n) ≡ some v)
    × ((j : Bytes) → starts_with j parts ≡ false → get_field j n ≡ get_field j m)

-- A write to a path sets it and nothing else.
pub set_parts_lem :
    (parts : List Bytes) (v : Value) (m n : Fields)
    → set_parts parts v m ≡ done n
    → Wrote parts v m n
unfolding set_parts
set_parts_lem [] v m n h = absurd (ground (arith, h))
set_parts_lem (p ∷ []) v m n h =
    let same : n ≡ put_field p v m = cc in
    (
      lookup_next p [] n v (rw same (get_field_put p v m)) ∙ lookup_nothing v,
      λ j e. rw same (ground (arith, get_field-put_field p j v m)),
    )
set_parts_lem (p ∷ q ∷ ps) v m n h = elim (Option-cases (sub_document (get_field p m))) [
  | inl e ↦ absurd (ground (arith, e, h))
  | inr (sub, e) ↦
      let (after, set, same) =
        put_under_lem p m n (set_parts (q ∷ ps) v sub) (rw (e, set_parts) at h) in
      let w = document after in
      (
        lookup_next p (q ∷ ps) n w (rw same (get_field_put p w m))
            ∙ (set_parts_lem (q ∷ ps) v sub after set).0,
        λ j f. rw same (ground (arith, get_field-put_field p j w m)),
      )
]

-- If `$set` of a path succeeds, the path reads the value back, every field of the document that the
-- path does not start with is as before, and the path does not start with the id.
pub set_path_lem :
    (doc after : Fields) (path : Bytes) (v : Value)
    → set_path doc path v ≡ done after
    → (lookup_path after path ≡ some v)
      × ((j : Bytes)
          → starts_with j (split_dots path) ≡ false
          → get_field j after ≡ get_field j doc)
      × (starts_at_id (split_dots path) ≡ false)
unfolding set_path lookup_path
set_path_lem doc after path v h = elim (Bool-cases (starts_at_id (split_dots path))) [
  | inl at_id ↦ absurd (ground (arith, at_id, h))
  | inr other ↦
      let (read, kept) = set_parts_lem (split_dots path) v doc after (rw (other, set_path) at h) in
      (read, kept, other)
]
