-- ===== src/Store/Parallel/Chunks.antt =====
-- The chunks of the workers make up the list of ids.
use mlstore_db.Prelude.{
  ℕ, zero, suc, ◌+◌, ◌-◌, ◌*◌, ◌/◌, ◌%◌, ◌≤◌, ◌<◌, ◌≡◌, refl, sym, ap, ◌∙◌, List, [], ◌∷◌, ◌++◌,
  append-nil, append_assoc, arith, length, length-drop, ltb, drop, drop-add, take-append-drop,
  take_of_length-le, Bool-cases, inl, inr,
}
use native.Mathlib.Nat.{mod-lt, div-add-mod'}
use mlstore_db.Prelude.Bytes.{Bytes}
use mlstore_db.Store.Parallel.{chunk_size, chunk_ids}

-- The chunks from `i` on.
abbrev pub chunks : ℕ → ℕ → ℕ → List Bytes → List Bytes
chunks zero chunk i ids = []
chunks (suc k) chunk i ids = chunk_ids chunk i ids ++ chunks k chunk (suc i) ids

drop_all : (n : ℕ) (l : List Bytes) → length l ≤ n → drop n l ≡ []
drop_all zero [] h = refl
drop_all zero (x ∷ l) h = absurd (omega arith)
drop_all (suc n) [] h = refl
drop_all (suc n) (x ∷ l) h = drop_all n l (omega arith)

chunk_ids_lem :
    (chunk i : ℕ) (ids : List Bytes)
    → chunk_ids chunk i ids ++ drop (suc i * chunk) ids ≡ drop (i * chunk) ids
unfolding chunk_ids
chunk_ids_lem chunk i ids =
    let lo = i * chunk in
    let next : suc i * chunk ≡ lo + chunk = ground arith in
    let left : length (drop lo ids) ≡ length ids - lo = length-drop lo ids in
    elim (Bool-cases (ltb (length ids) (lo + chunk))) [
      | inl short ↦
          let few : length ids < lo + chunk = ground (arith, short) in
          let all = take_of_length-le (length ids - lo) (drop lo ids) (omega arith) in
          let no_more = drop_all chunk (drop lo ids) (omega arith) in
          rw (short, next, drop-add lo chunk ids, all, no_more) (append-nil (drop lo ids))
      | inr long ↦
          let same : lo + chunk - lo ≡ chunk = omega arith in
          rw (long, next, drop-add lo chunk ids, same) (take-append-drop chunk (drop lo ids))
    ]

chunks-append :
    (k chunk i : ℕ) (ids : List Bytes)
    → chunks k chunk i ids ++ drop ((i + k) * chunk) ids ≡ drop (i * chunk) ids
chunks-append zero chunk i ids = let same : i + 0 ≡ i = omega arith in rw same refl
chunks-append (suc k) chunk i ids =
    let same : i + suc k ≡ suc i + k = omega arith in
    let rest = chunks-append k chunk (suc i) ids in
    rw same (
      append_assoc (chunk_ids chunk i ids) (chunks k chunk (suc i) ids)
        (drop ((suc i + k) * chunk) ids)
      ∙ (ap (λ l. chunk_ids chunk i ids ++ l) rest ∙ chunk_ids_lem chunk i ids))

-- As many chunks as it takes, each of a positive size, are the whole list.
pub chunks-whole :
    (chunk : ℕ) (ids : List Bytes)
    → 0 < chunk
    → chunks ((length ids + chunk - 1) / chunk) chunk 0 ids ≡ ids
chunks-whole chunk ids pos =
    let m = length ids + chunk - 1 in
    let k = m / chunk in
    let parts : k * chunk + m % chunk ≡ m = div-add-mod' m chunk in
    let small : m % chunk < chunk = mod-lt m pos in
    let start : 0 * chunk ≡ 0 = ground arith in
    let none_left = drop_all ((0 + k) * chunk) ids (omega arith) in
    sym (append-nil (chunks k chunk 0 ids))
    ∙ (ap (λ l. chunks k chunk 0 ids ++ l) (sym none_left)
        ∙ (chunks-append k chunk 0 ids ∙ ap (λ (n : ℕ). drop n ids) start))

pub chunk_size_pos : (workers n : ℕ) → 0 < chunk_size workers n
unfolding chunk_size
chunk_size_pos workers n = ground arith
