-- ===== src/Store/Parallel/Serial.antt =====
-- The workers find what one loop finds.
use mlstore_db.Prelude.{◌≡◌, ◌⊎◌, Bool, List, [], ◌∷◌}
use mlstore_db.Prelude.Bytes.{Bytes}
use mlstore_db.Filter.{Fields, FilterLib}
use mlstore_db.Store.Writes.{DocEntry}
use mlstore_db.Store.Parallel.{Found, refs, invalid, crashes, and_found, materialize_serial}

-- The same result, but that a panic is met where one loop stops at an error before it.
abbrev pub Agree : Found → Found → Type 0
Agree r s = (r ≡ s) ⊎ ((r ≡ crashes) × (s ≡ invalid))

-- One loop after the other.
abbrev and_then : Found → Found → Found
and_then (refs []) s = s
and_then (refs (d ∷ l)) s = and_found d (and_then (refs l) s)
and_then invalid s = invalid
and_then crashes s = crashes

module _ (lib : FilterLib) (entries : List (Bytes × DocEntry Fields)) (filter : Fields)
    (rematch : Bool) where
  abbrev serial : List Bytes → Found
  serial = materialize_serial lib entries filter rematch
