-- ===== src/Hooks.antt =====
-- db/hooks.go: the registry of hooks, the frames that guard nested writes, and the run of the
-- before hooks. A hook's function is a number that a parameter interprets.
pub mod Frames
pub mod Registry
mod Tests
use mlstore_db.Prelude.{
  ℕ, zero, suc, ◌+◌, ◌%◌, Bool, true, false, ◌&&◌, ◌||◌, Option, none, some, List, [], ◌∷◌, ◌++◌,
  ltb, ◌==◌, if◌then◌else◌, Result, ok, err, DbError,
}
use mlstore_db.Prelude.Bytes.{Bytes, bytes_eq}

abbrev pub max_hook_depth : ℕ
max_hook_depth = 8

-- hookReg, but for the function
pub record HookReg : Type 0 where
  pub id : ℕ
  pub event : Bytes
  pub coll : Bytes
  pub is_async : Bool

-- hookSeq and hooks
pub record Hooks : Type 0 where
  pub seq : ℕ
  pub regs : List HookReg

abbrev pub next64 : ℕ → ℕ
next64 n = (n + 1) % 18446744073709551616

-- addHook behind its checks; the id and the registry.
unfoldable pub add_hook : Bytes → Bytes → Bool → Hooks → ℕ × Hooks
add_hook event coll is_async h =
    let id = next64 h.seq in
    (
      id,
      record {
        seq = id;
        regs = h.regs ++ (record { id = id; event = event; coll = coll; is_async = is_async }) ∷ [];
      },
    )

-- "" and "*" match every collection.
abbrev pub coll_match : Bytes → Bytes → Bool
coll_match pattern coll =
    bytes_eq pattern [] || (bytes_eq pattern (42 ∷ []) || bytes_eq pattern coll)

unfoldable pub match_regs : Bytes → Bytes → List HookReg → List HookReg
match_regs event coll [] = []
match_regs event coll (r ∷ rs) =
    if bytes_eq r.event event && coll_match r.coll coll
    then r ∷ match_regs event coll rs
    else match_regs event coll rs

-- Off: whether the id was there, and the registrations without its first.
unfoldable pub off_regs : ℕ → List HookReg → Bool × List HookReg
off_regs id [] = (false, [])
off_regs id (r ∷ rs) =
    if r.id == id then (true, rs) else ((off_regs id rs).0, r ∷ (off_regs id rs).1)

-- A *hookFrame: nil, or a parent with the hook's id and the depth.
pub data HookFrame : Type 0 where
  outside : HookFrame
  inside : HookFrame → ℕ → ℕ → HookFrame

abbrev pub next_depth : HookFrame → ℕ
next_depth outside = 1
next_depth (inside parent id depth) = depth + 1

-- The loop from a frame to its ancestors.
unfoldable pub runs_already : ℕ → HookFrame → Bool
runs_already id outside = false
runs_already id (inside parent hook depth) = hook == id || runs_already id parent

-- beginHookErr; the context holds the new frame.
unfoldable pub begin_hook : HookFrame → ℕ → Result HookFrame
unfolding runs_already
begin_hook parent id =
    if ltb max_hook_depth (next_depth parent)
    then err DbError.hook_depth
    else if runs_already id parent
    then err DbError.hook_cycle
    else ok (inside parent id (next_depth parent))

module _ {State : Type 0} (call : ℕ → HookFrame → State → Option DbError × State) where
  -- runBeforeHooks over the ids of the matching registrations: the first error vetoes.
  unfoldable pub run_before_hooks : HookFrame → List ℕ → State → Option DbError × State
  run_before_hooks frame [] s = (none, s)
  run_before_hooks frame (id ∷ ids) s = elim (begin_hook frame id) [
    | err x ↦ (some x, s)
    | ok f ↦ elim ((call id f s).0) [
      | some x ↦ (some x, (call id f s).1)
      | none ↦ run_before_hooks frame ids (call id f s).1
    ]
  ]

  -- runAfterHooksInline: a hook's error is ignored, a refused frame ends the loop.
  unfoldable pub run_after_hooks : HookFrame → List ℕ → State → State
  run_after_hooks frame [] s = s
  run_after_hooks frame (id ∷ ids) s = elim (begin_hook frame id) [
    | err x ↦ s
    | ok f ↦ run_after_hooks frame ids (call id f s).1
  ]
