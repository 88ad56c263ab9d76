-- ===== src/Hooks/Tests.antt =====
-- The theorems on hooks at a frame two deep and at a registry of one hook.
use mlstore_db.Prelude.{
  ◌≤◌, ◌≡◌, refl, true, false, ◌&&◌, [], ◌∷◌, ◌++◌, length, if◌then◌else◌, ltb, ok, err, DbError,
}
use mlstore_db.Prelude.Bytes.{Bytes, bytes_eq}
use mlstore_db.Hooks.{
  HookFrame, outside, inside, begin_hook, Hooks, add_hook, coll_match, match_regs, off_regs,
  max_hook_depth,
}
use mlstore_db.Hooks.Frames.{
  Nested, top, begun, chain, member, NoRepeat, Nested-bounded, begin_hook-chain,
}
use mlstore_db.Hooks.Registry.{add_hook_lem}

abbrev first : HookFrame
first = inside outside 4 1

abbrev second : HookFrame
second = inside first 9 2

first_begun : begin_hook outside 4 ≡ ok first
unfolding begin_hook
first_begun = refl

second_begun : begin_hook first 9 ≡ ok second
unfolding begin_hook
second_begun = refl

second-Nested : Nested second
second-Nested = begun first 9 second (begun outside 4 first top first_begun) second_begun

Nested-bounded_example : (length (chain second) ≤ max_hook_depth) × NoRepeat (chain second)
Nested-bounded_example = Nested-bounded second second-Nested

begin_hook-chain_example : begin_hook second 4 ≡ (
    if ltb 7 (length (chain second))
    then err DbError.hook_depth
    else if member 4 (chain second)
    then err DbError.hook_cycle
    else ok (inside second 4 3))
begin_hook-chain_example = begin_hook-chain second 4 second-Nested

abbrev one : Hooks
one = record {
  seq = 4;
  regs = (record { id = 4; event = 1 ∷ []; coll = []; is_async = false }) ∷ [];
}

add_hook_lem_example :
    ((e c : Bytes)
      → match_regs e c (add_hook (1 ∷ []) (7 ∷ []) true one).1.regs
        ≡ match_regs e c one.regs
          ++ (if bytes_eq (1 ∷ []) e && coll_match (7 ∷ []) c
              then (record { id = 5; event = 1 ∷ []; coll = 7 ∷ []; is_async = true }) ∷ []
              else []))
    × (off_regs (add_hook (1 ∷ []) (7 ∷ []) true one).0 (add_hook (1 ∷ []) (7 ∷ []) true one).1.regs
        ≡ (true, one.regs))
add_hook_lem_example = add_hook_lem (1 ∷ []) (7 ∷ []) true one refl
