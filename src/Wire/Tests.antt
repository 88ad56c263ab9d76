-- ===== src/Wire/Tests.antt =====
-- The theorems on cursors at a registry with one cursor of three documents.
use mlstore_db.Prelude.{ℕ, ◌+◌, ◌≡◌, refl, ◌&&◌, none, some, [], ◌∷◌, arith, if◌then◌else◌}
use mlstore_db.Prelude.Ids.{find, Distinct}
use mlstore_db.Prelude.Int.{pos, negsuc}
use mlstore_db.Wire.Cursors.{Cursor, Registry, cursor_idle_ttl, batch, kill, sweep}
use mlstore_db.Wire.Cursors.Paging.{fetch, fetch_all}
use mlstore_db.Wire.Cursors.Closing.{member, is_open, kill_lem, sweep-batch}

abbrev three : Cursor ℕ
three = record { docs = 10 ∷ 20 ∷ 30 ∷ []; position = 0; ns = []; expiry = 5 + cursor_idle_ttl }

abbrev opened : Registry ℕ
opened = record { next = 8; cursors = (7, three) ∷ [] }

found : find 7 opened.cursors ≡ some three
unfolding find
found = refl

none_twice : Distinct opened.cursors
unfolding find
none_twice = (refl, tt)

fetch_all_example :
    ((fetch ((pos 2, 6) ∷ (negsuc 0, 9) ∷ []) 7 opened).0 ≡ 10 ∷ 20 ∷ 30 ∷ [])
    × (find 7 (fetch ((pos 2, 6) ∷ (negsuc 0, 9) ∷ []) 7 opened).1.cursors ≡ none)
fetch_all_example =
    fetch_all ((pos 2, 6) ∷ (negsuc 0, 9) ∷ []) 7 5 three opened (omega arith) found (omega arith)
      refl (omega arith) (omega arith) (omega arith)

kill_lem_example :
    (find 7 (kill (7 ∷ 3 ∷ []) opened).1.cursors
      ≡ (if member 7 (7 ∷ 3 ∷ []) then none else find 7 opened.cursors))
    × (member 7 (kill (7 ∷ 3 ∷ []) opened).0.0 ≡ (member 7 (7 ∷ 3 ∷ []) && is_open 7 opened))
kill_lem_example = kill_lem (7 ∷ 3 ∷ []) 7 opened

sweep-batch_example : (batch 7 (pos 2) 6 (sweep 6 opened)).0 ≡ (batch 7 (pos 2) 6 opened).0
sweep-batch_example = sweep-batch 7 (pos 2) 6 opened none_twice
