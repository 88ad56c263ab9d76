-- ===== src/Wire/Bson/Total.antt =====
-- The reader of wire/bson.go ends on every input.
use mlstore_db.Prelude.{
  ℕ, zero, suc, ◌+◌, ◌-◌, ◌≤◌, ◌≡◌, ◌⊎◌, refl, ◌||◌, some, [], ◌∷◌, arith, if◌then◌else◌, ltb, ◌==◌,
  length, Bool-cases, inl, inr, Option-cases,
}
use mlstore_db.Prelude.Bytes.{Bytes}
use mlstore_db.Wire.Bson.{
  Fields, no_items, GoLib, put_field, BsonType, document_type, array_type, js_scope_type,
  max_bson_depth,
}
use mlstore_db.Wire.Bson.Reader.{
  Read, got, invalid, ◌>>=◌, read_int32, read_value, read_document, read_fields, read_array,
  read_items, read_length, check_end, int32_below, bson_type, decode_bson,
}
use mlstore_db.Wire.Bson.Ends.{
  LeavesBy, Leaves, bind-Leaves, weaken, int32-Leaves, cstring-Leaves, string-Leaves, leaf-Leaves,
  reads, refuses,
}

module _ (lib : GoLib) where
  length-Leaves : (d : ℕ) (r : Bytes) → LeavesBy 4 (length r) (read_length d r)
  unfolding read_length
  length-Leaves d r = elim (Bool-cases (ltb max_bson_depth d)) [
    | inl deep ↦ rw deep refuses
    | inr shallow ↦ rw shallow (check (read_int32 r) (int32-Leaves r))
  ]
    where
      check :
          (x : Read (ℕ × Bytes))
          → LeavesBy 4 (length r) x
          → LeavesBy 4 (length r) (
              x >>= λ (n, r'). if int32_below n 5 || ltb (length r) n then invalid else got (n, r'))
      check _ (reads n r' h) = elim (Bool-cases (int32_below n 5 || ltb (length r) n)) [
        | inl bad ↦ rw bad refuses
        | inr good ↦ rw good (reads n r' h)
      ]
      check _ refuses = refuses

  end-Leaves :
      {A : Type 0} (r : Bytes) (m : ℕ) (a : A) (left : Bytes) (n : ℕ)
      → length left ≤ n
      → Leaves n (check_end r m (a, left))
  unfolding check_end
  end-Leaves r m a left n h = elim (Bool-cases (length r - length left == m)) [
    | inl same ↦ rw same (reads a left (omega arith))
    | inr other ↦ rw other refuses
  ]

  value_step :
      (f t d : ℕ) (r : Bytes) (n : ℕ) (ty : BsonType)
      → length r ≤ n
      → bson_type t ≡ some ty
      → ((r1 : Bytes) → length r1 ≤ length r → Leaves n (read_document lib f (d + 1) r1))
      → Leaves n (read_array lib f (d + 1) r)
      → Leaves n (read_value lib (suc f) t d r)
  unfolding read_value
  value_step f t d r n document_type le e doc arr =
      rw (e, read_value) (bind-Leaves _ (doc r (omega arith)) (λ fs left h. reads _ left h))
  value_step f t d r n array_type le e doc arr =
      rw (e, read_value) (bind-Leaves _ arr (λ vs left h. reads _ left h))
  value_step f t d r n js_scope_type le e doc arr =
      rw (e, read_value)
        (bind-Leaves _ (string-Leaves r)
          (λ s r1 h. bind-Leaves _ (doc r1 (omega arith)) (λ fs left k. reads _ left k)))
  value_step f t d r n ty le e doc arr = rw (e, read_value) (weaken le (leaf-Leaves lib ty r))

  mutual
    unfolding read_value

    value-Leaves :
        (f t d : ℕ) (r : Bytes) (n : ℕ)
        → length r ≤ n
        → length r + 2 ≤ f
        → Leaves n (read_value lib f t d r)
    value-Leaves zero t d r n le h = absurd (omega arith)
    value-Leaves (suc f) t d r n le h = elim (Option-cases (bson_type t)) [
      | inl nothing ↦ rw (nothing, read_value) refuses
      | inr (ty, e) ↦
          value_step f t d r n ty le e
            (λ r1 k. document-Leaves f (d + 1) r1 n (omega arith) (omega arith))
            (array-Leaves f (d + 1) r n le (omega arith))
    ]

    document-Leaves :
        (f d : ℕ) (r : Bytes) (n : ℕ)
        → length r ≤ n
        → length r + 1 ≤ f
        → Leaves n (read_document lib f d r)
    document-Leaves zero d r n le h = absurd (omega arith)
    document-Leaves (suc f) d r n le h = bind-Leaves _ (length-Leaves d r) (λ m r' k.
        bind-Leaves _
          (fields-Leaves f d Fields.no_fields r' (length r') (omega arith) (omega arith))
          (λ fs left l. end-Leaves r m fs left n (omega arith)))

    fields-Leaves :
        (f d : ℕ) (fs : Fields) (r : Bytes) (n : ℕ)
        → length r ≤ n
        → length r + 2 ≤ f
        → Leaves n (read_fields lib f d fs r)
    fields-Leaves zero d fs r n le h = absurd (omega arith)
    fields-Leaves (suc f) d fs [] n le h = refuses
    fields-Leaves (suc f) d fs (t ∷ r) n le h = elim (Bool-cases (t == 0)) [
      | inl end ↦ rw (end, read_fields) (reads fs r (omega arith))
      | inr more ↦
          rw (more, read_fields)
            (bind-Leaves _ (cstring-Leaves r) (λ key r1 a.
              bind-Leaves _ (value-Leaves f t d r1 (length r1) (omega arith) (omega arith))
                (λ v r2 b.
                  fields-Leaves f d (put_field key v fs) r2 n (omega arith) (omega arith))))
    ]

    array-Leaves :
        (f d : ℕ) (r : Bytes) (n : ℕ)
        → length r ≤ n
        → length r + 1 ≤ f
        → Leaves n (read_array lib f d r)
    array-Leaves zero d r n le h = absurd (omega arith)
    array-Leaves (suc f) d r n le h = bind-Leaves _ (length-Leaves d r) (λ m r' k.
        bind-Leaves _ (items-Leaves f d r' (length r') (omega arith) (omega arith))
          (λ vs left l. end-Leaves r m vs left n (omega arith)))

    items-Leaves :
        (f d : ℕ) (r : Bytes) (n : ℕ)
        → length r ≤ n
        → length r + 2 ≤ f
        → Leaves n (read_items lib f d r)
    items-Leaves zero d r n le h = absurd (omega arith)
    items-Leaves (suc f) d [] n le h = refuses
    items-Leaves (suc f) d (t ∷ r) n le h = elim (Bool-cases (t == 0)) [
      | inl end ↦ rw (end, read_items) (reads no_items r (omega arith))
      | inr more ↦
          rw (more, read_items)
            (bind-Leaves _ (cstring-Leaves r) (λ key r1 a.
              bind-Leaves _ (value-Leaves f t d r1 (length r1) (omega arith) (omega arith))
                (λ v r2 b.
                  bind-Leaves _ (items-Leaves f d r2 n (omega arith) (omega arith))
                    (λ vs r3 c. reads _ r3 c))))
    ]

  -- Whatever the bytes, decodeBSON comes to a document or to an error: the recursion ends, and the
  -- length inside a binary of the old subtype is read only where there are four bytes of it.
  pub decode_total :
      (b : Bytes) → (decode_bson lib b ≡ invalid) ⊎ ((fs : Fields) × (decode_bson lib b ≡ got fs))
  unfolding decode_bson
  decode_total b =
      end_of (read_document lib (length b + 2) 0 b)
        (document-Leaves (length b + 2) 0 b (length b) (omega arith) (omega arith))
    where
      whole : Fields × Bytes → Read Fields
      whole (d, r) = if length r == 0 then got d else invalid

      end_of :
          (x : Read (Fields × Bytes))
          → Leaves (length b) x
          → (x >>= whole ≡ invalid) ⊎ ((fs : Fields) × (x >>= whole ≡ got fs))
      end_of _ (reads d r h) = elim (Bool-cases (length r == 0)) [
        | inl all ↦ inr (d, rw all refl)
        | inr more ↦ inl (rw more refl)
      ]
      end_of _ refuses = inl refl
