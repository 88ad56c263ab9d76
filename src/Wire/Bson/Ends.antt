-- ===== src/Wire/Bson/Ends.antt =====
-- The reads of wire/bson.go that call no other end: they read so many bytes, or they refuse.
use mlstore_db.Prelude.{
  ℕ, suc, ◌+◌, ◌-◌, ◌≤◌, ◌≡◌, ◌⊎◌, refl, ◌||◌, [], ◌∷◌, arith, ltb, leb, ◌==◌, length, take, drop,
  length-drop, Bool-cases, inl, inr,
}
use mlstore_db.Prelude.Bytes.{Bytes, le32}
use mlstore_db.Wire.Bson.{
  GoLib, BsonType, double_type, string_type, document_type, array_type, binary_type, undefined_type,
  object_id_type, bool_type, datetime_type, null_type, regex_type, db_pointer_type, js_type,
  symbol_type, js_scope_type, int32_type, timestamp_type, int64_type, decimal128_type, min_key_type,
  max_key_type,
}
use mlstore_db.Wire.Bson.Reader.{
  Read, got, invalid, ◌>>=◌, read_raw, read_byte, read_int32, read_int64, read_cstring, read_string,
  read_leaf, int32_below, uint32_at, inner_binary,
}

-- A value, of which `k` or more of the `n` bytes were read, or an error: the fuel did not run out.
pub data LeavesBy {A : Type 0} (k n : ℕ) : Read (A × Bytes) → Type 0 where
  reads : (a : A) (r : Bytes) → length r + k ≤ n → LeavesBy k n (got (a, r))
  refuses : LeavesBy k n invalid

abbrev pub Leaves : {A : Type 0} → ℕ → Read (A × Bytes) → Type 0
Leaves n x = LeavesBy 0 n x

module _ {A B : Type 0} where
  pub bind-Leaves :
      {i n m : ℕ} {x : Read (A × Bytes)} (k : A × Bytes → Read (B × Bytes))
      → LeavesBy i n x
      → ((a : A) (r : Bytes) → length r + i ≤ n → Leaves m (k (a, r)))
      → Leaves m (x >>= k)
  bind-Leaves k (reads a r h) next = next a r h
  bind-Leaves k refuses next = refuses

pub weaken : {A : Type 0} {m n : ℕ} {x : Read (A × Bytes)} → m ≤ n → Leaves m x → Leaves n x
weaken le (reads a r h) = reads a r (omega arith)
weaken le refuses = refuses

pub raw-Leaves : (k : ℕ) (r : Bytes) → Leaves (length r) (read_raw k r)
unfolding read_raw
raw-Leaves k r = elim (Bool-cases (ltb (length r) k)) [
  | inl short ↦ rw short refuses
  | inr long ↦ rw long (reads (take k r) (drop k r) (omega (arith, length-drop k r)))
]

pub byte-Leaves : (r : Bytes) → Leaves (length r) (read_byte r)
unfolding read_byte
byte-Leaves [] = refuses
byte-Leaves (b ∷ r) = reads b r (omega arith)

pub int32-Leaves : (r : Bytes) → LeavesBy 4 (length r) (read_int32 r)
unfolding read_int32
int32-Leaves (a ∷ b ∷ c ∷ d ∷ r) = reads (le32 (a ∷ b ∷ c ∷ d ∷ [])) r (omega arith)
int32-Leaves [] = refuses
int32-Leaves (a ∷ []) = refuses
int32-Leaves (a ∷ b ∷ []) = refuses
int32-Leaves (a ∷ b ∷ c ∷ []) = refuses

pub int64-Leaves : (r : Bytes) → Leaves (length r) (read_int64 r)
unfolding read_int64
int64-Leaves r =
    bind-Leaves _ (int32-Leaves r)
      (λ l r' h. bind-Leaves _ (int32-Leaves r') (λ u r'' k. reads _ r'' (omega arith)))

pub cstring-Leaves : (r : Bytes) → LeavesBy 1 (length r) (read_cstring r)
unfolding read_cstring
cstring-Leaves [] = refuses
cstring-Leaves (b ∷ r) = elim (Bool-cases (b == 0)) [
  | inl end ↦ rw end (reads [] r (omega arith))
  | inr more ↦ rw more (cons (read_cstring r) (cstring-Leaves r))
]
  where
    cons :
        (x : Read (Bytes × Bytes))
        → LeavesBy 1 (length r) x
        → LeavesBy 1 (suc (length r)) (x >>= λ (s, r'). got (b ∷ s, r'))
    cons _ (reads s r' h) = reads (b ∷ s) r' (omega arith)
    cons _ refuses = refuses

pub string-Leaves : (r : Bytes) → Leaves (length r) (read_string r)
unfolding read_string
string-Leaves r = bind-Leaves _ (int32-Leaves r) (λ n r' h.
    elim (Bool-cases (int32_below n 1 || ltb (length r') n)) [
      | inl bad ↦ rw bad refuses
      | inr good ↦ rw good (reads (take (n - 1) r') (drop n r') (omega (arith, length-drop n r')))
    ])

uint32_at_got : (raw : Bytes) → 4 ≤ length raw → (n : ℕ) × (uint32_at raw ≡ got n)
unfolding uint32_at
uint32_at_got (a ∷ b ∷ c ∷ d ∷ r) h = (le32 (a ∷ b ∷ c ∷ d ∷ []), refl)
uint32_at_got [] h = absurd (omega arith)
uint32_at_got (a ∷ []) h = absurd (omega arith)
uint32_at_got (a ∷ b ∷ []) h = absurd (omega arith)
uint32_at_got (a ∷ b ∷ c ∷ []) h = absurd (omega arith)

pub inner_binary-cases :
    (sub : ℕ) (raw : Bytes)
    → (inner_binary sub raw ≡ invalid) ⊎ ((b : Bytes) × (inner_binary sub raw ≡ got b))
unfolding inner_binary
inner_binary-cases sub raw = elim (Bool-cases (sub == 2)) [
  | inr new ↦ inr (raw, rw new refl)
  | inl old ↦ elim (Bool-cases (ltb (length raw) 4)) [
    | inl short ↦ inl (rw (old, short) refl)
    | inr long ↦
        let (inner, read) = uint32_at_got raw (ground (arith, long)) in
        elim (Bool-cases (ltb (length raw) (4 + inner))) [
          | inl over ↦ inl (rw (old, long, read, over) refl)
          | inr fits ↦ inr (take inner (drop 4 raw), rw (old, long, read, fits) refl)
        ]
  ]
]

module _ (lib : GoLib) where
  pub binary-Leaves : (r : Bytes) → Leaves (length r) (read_leaf lib binary_type r)
  unfolding read_leaf
  binary-Leaves r = bind-Leaves _ (int32-Leaves r) (λ n r1 h.
      bind-Leaves _ (byte-Leaves r1) (λ sub r2 k. elim (Bool-cases (int32_below n 0)) [
        | inl bad ↦ rw bad refuses
        | inr good ↦ rw good (
            bind-Leaves _ (raw-Leaves n r2) (λ raw r3 l. elim (inner_binary-cases sub raw) [
              | inl bad ↦ rw bad refuses
              | inr (b, e) ↦ rw e (reads _ r3 (omega arith))
            ]))
      ]))

  pub leaf-Leaves : (ty : BsonType) (r : Bytes) → Leaves (length r) (read_leaf lib ty r)
  unfolding read_leaf
  leaf-Leaves double_type r = bind-Leaves _ (int64-Leaves r) (λ v r' h. reads _ r' (omega arith))
  leaf-Leaves string_type r = bind-Leaves _ (string-Leaves r) (λ s r' h. reads _ r' (omega arith))
  leaf-Leaves symbol_type r = bind-Leaves _ (string-Leaves r) (λ s r' h. reads _ r' (omega arith))
  leaf-Leaves binary_type r = binary-Leaves r
  leaf-Leaves undefined_type r = reads _ r (omega arith)
  leaf-Leaves null_type r = reads _ r (omega arith)
  leaf-Leaves object_id_type r =
      bind-Leaves _ (raw-Leaves 12 r) (λ s r' h. reads _ r' (omega arith))
  leaf-Leaves bool_type r = bind-Leaves _ (byte-Leaves r) (λ s r' h. reads _ r' (omega arith))
  leaf-Leaves datetime_type r = bind-Leaves _ (int64-Leaves r) (λ s r' h. reads _ r' (omega arith))
  leaf-Leaves regex_type r =
      bind-Leaves _ (cstring-Leaves r)
        (λ p r1 h. bind-Leaves _ (cstring-Leaves r1) (λ o r2 k. reads _ r2 (omega arith)))
  leaf-Leaves db_pointer_type r =
      bind-Leaves _ (string-Leaves r)
        (λ p r1 h. bind-Leaves _ (raw-Leaves 12 r1) (λ o r2 k. reads _ r2 (omega arith)))
  leaf-Leaves js_type r = bind-Leaves _ (string-Leaves r) (λ s r' h. reads _ r' (omega arith))
  leaf-Leaves int32_type r = bind-Leaves _ (int32-Leaves r) (λ s r' h. reads _ r' (omega arith))
  leaf-Leaves timestamp_type r = bind-Leaves _ (int64-Leaves r) (λ s r' h. reads _ r' (omega arith))
  leaf-Leaves int64_type r = bind-Leaves _ (int64-Leaves r) (λ v r' h.
      elim (Bool-cases (leb v 9007199254740992 || leb 18437736874454810624 v)) [
        | inl near ↦ rw near (reads _ r' (omega arith))
        | inr out ↦ rw out (reads _ r' (omega arith))
      ])
  leaf-Leaves decimal128_type r =
      bind-Leaves _ (raw-Leaves 16 r) (λ s r' h. reads _ r' (omega arith))
  leaf-Leaves min_key_type r = reads _ r (omega arith)
  leaf-Leaves max_key_type r = reads _ r (omega arith)
  leaf-Leaves document_type r = refuses
  leaf-Leaves array_type r = refuses
  leaf-Leaves js_scope_type r = refuses
