-- ===== src/Wire/Cursors.antt =====
-- wire/cursor.go: the registry of open cursors. A time is a number of nanoseconds; every
-- operation takes the time at which it runs.
pub mod Paging
pub mod Closing
use mlstore_db.Prelude.{
  ℕ, zero, suc, ◌+◌, ◌-◌, ◌%◌, Bool, Option, none, some, List, [], ◌∷◌, ◌++◌, length, take, drop,
  ltb, leb, if◌then◌else◌,
}
use mlstore_db.Prelude.Bytes.{Bytes}
use mlstore_db.Prelude.Ids.{find, put, remove}
use mlstore_db.Prelude.Int.{ℤ, pos, negsuc}

-- 10 minutes
abbrev pub cursor_idle_ttl : ℕ
cursor_idle_ttl = 600000000000

pub record Cursor (Doc : Type 0) : Type 0 where
  pub docs : List Doc
  pub position : ℕ
  pub ns : Bytes
  pub expiry : ℕ

pub record Registry (Doc : Type 0) : Type 0 where
  pub next : ℕ
  pub cursors : List (ℕ × Cursor Doc)

abbrev pub batch_size : ℤ → ℕ
batch_size (pos zero) = 101
batch_size (pos (suc n)) = suc n
batch_size (negsuc n) = 101

-- The documents of a batch, the namespace, and the id to go on with, 0 at the end.
pub record Batch (Doc : Type 0) : Type 0 where
  pub docs : List Doc
  pub ns : Bytes
  pub next_id : ℕ

-- What `batch` answers: its results, ok = false, or the panic of a slice bound below 0.
pub data Answer (Doc : Type 0) : Type 0 where
  served : Batch Doc → Answer Doc
  not_found : Answer Doc
  panics : Answer Doc

-- The first number that does not fit an int.
abbrev pub int_limit : ℕ
int_limit = 9223372036854775808

module _ {Doc : Type 0} where
  -- now.After(c.expiry)
  abbrev pub is_expired : ℕ → Cursor Doc → Bool
  is_expired now c = ltb c.expiry now

  -- An id is an int64, as its bit pattern.
  unfoldable pub register : List Doc → Bytes → ℕ → Registry Doc → ℕ × Registry Doc
  register docs ns now cr = (
    cr.next,
    record {
      next = (cr.next + 1) % 18446744073709551616;
      cursors =
          put cr.next
            (record { docs = docs; position = 0; ns = ns; expiry = now + cursor_idle_ttl })
            cr.cursors;
    },
  )

  -- The part of `batch` behind its guards: c.pos + n wraps round to a negative bound.
  unfoldable pub serve : ℕ → Cursor Doc → ℕ → ℕ → Registry Doc → Answer Doc × Registry Doc
  serve id c n now cr =
      if leb int_limit (c.position + n)
      then (panics, cr)
      else let end =
          if ltb (length c.docs) (c.position + n) then length c.docs else c.position + n in
        let docs = take (end - c.position) (drop c.position c.docs) in
        if leb (length c.docs) end
        then (
          served (record { docs = docs; ns = c.ns; next_id = 0 }),
          record cr { cursors = remove id cr.cursors },
        )
        else (
          served (record { docs = docs; ns = c.ns; next_id = id }),
          record cr {
            cursors =
                put id (record c { position = end; expiry = now + cursor_idle_ttl }) cr.cursors;
          },
        )

  unfoldable pub batch : ℕ → ℤ → ℕ → Registry Doc → Answer Doc × Registry Doc
  batch id n now cr = elim (find id cr.cursors) [
    | none ↦ (not_found, cr)
    | some c ↦
        if is_expired now c
        then (not_found, record cr { cursors = remove id cr.cursors })
        else serve id c (batch_size n) now cr
  ]

  -- killed, notFound
  unfoldable pub kill : List ℕ → Registry Doc → (List ℕ × List ℕ) × Registry Doc
  kill [] cr = (([], []), cr)
  kill (id ∷ ids) cr = elim (find id cr.cursors) [
    | some _ ↦
        let ((killed, missing), cr') = kill ids (record cr { cursors = remove id cr.cursors }) in
        ((id ∷ killed, missing), cr')
    | none ↦ let ((killed, missing), cr') = kill ids cr in ((killed, id ∷ missing), cr')
  ]

  unfoldable pub sweep_cursors : ℕ → List (ℕ × Cursor Doc) → List (ℕ × Cursor Doc)
  sweep_cursors now [] = []
  sweep_cursors now ((id, c) ∷ cs) =
      if is_expired now c then sweep_cursors now cs else (id, c) ∷ sweep_cursors now cs

  unfoldable pub sweep : ℕ → Registry Doc → Registry Doc
  unfolding sweep_cursors
  sweep now cr = record cr { cursors = sweep_cursors now cr.cursors }
