-- ===== src/Hooks/Registry.antt =====
-- Registering a hook and taking it out again.
use mlstore_db.Prelude.{
  ℕ, ◌≡◌, refl, Bool, true, false, ◌&&◌, ◌||◌, List, [], ◌∷◌, ◌++◌, arith, if◌then◌else◌, ◌==◌,
  ==_refl,
}
use mlstore_db.Prelude.Bytes.{Bytes, bytes_eq}
use mlstore_db.Hooks.{HookReg, Hooks, next64, add_hook, coll_match, match_regs, off_regs}

abbrev pub has_id : ℕ → List HookReg → Bool
has_id id [] = false
has_id id (r ∷ rs) = (r.id == id) || has_id id rs

match_regs-append :
    (event coll : Bytes) (rs ts : List HookReg)
    → match_regs event coll (rs ++ ts) ≡ match_regs event coll rs ++ match_regs event coll ts
unfolding match_regs
match_regs-append event coll [] ts = refl
match_regs-append event coll (r ∷ rs) ts = ground (arith, match_regs-append event coll rs ts)

off_last :
    (rs : List HookReg) (r : HookReg)
    → has_id r.id rs ≡ false
    → off_regs r.id (rs ++ r ∷ []) ≡ (true, rs)
unfolding off_regs
off_last [] r h = rw (==_refl r.id) refl
off_last (q ∷ rs) r h = ground (arith, off_last rs r)

-- A hook that is registered is found, behind those registered before it, for the events and
-- collections that it matches and for no others; and if its id is not taken, Off with that id says
-- that it was there and leaves the registrations of before.
pub add_hook_lem :
    (event pattern : Bytes) (is_async : Bool) (h : Hooks)
    → has_id (next64 h.seq) h.regs ≡ false
    → ((e c : Bytes)
        → match_regs e c (add_hook event pattern is_async h).1.regs
          ≡ match_regs e c h.regs
            ++ (if bytes_eq event e && coll_match pattern c
                then (record {
                  id = next64 h.seq;
                  event = event;
                  coll = pattern;
                  is_async = is_async;
                })
                  ∷ []
                else []))
      × (off_regs (add_hook event pattern is_async h).0 (add_hook event pattern is_async h).1.regs
          ≡ (true, h.regs))
unfolding add_hook match_regs
add_hook_lem event pattern is_async h free =
    let r : HookReg = record {
      id = next64 h.seq;
      event = event;
      coll = pattern;
      is_async = is_async;
    } in
    ((λ e c. match_regs-append e c h.regs (r ∷ [])), off_last h.regs r free)
