-- ===== src/Hooks/Frames.antt =====
-- However writes and hooks call each other, the nesting is bounded and no hook is inside itself.
use mlstore_db.Prelude.{
  ℕ, ◌+◌, ◌≤◌, ◌≡◌, refl, Bool, false, ◌||◌, List, [], ◌∷◌, arith, length, if◌then◌else◌, ok, err,
  ◌==◌, ltb, sym, ◌∙◌, DbError, Bool-cases, inl, inr,
}
use mlstore_db.Hooks.{
  HookFrame, outside, inside, begin_hook, runs_already, next_depth, max_hook_depth,
}

-- A frame that a chain of hooks has reached, each begun in the frame of the one before.
pub data Nested : HookFrame → Type 0 where
  top : Nested outside
  begun :
      (parent : HookFrame) (id : ℕ) (f : HookFrame)
      → Nested parent
      → begin_hook parent id ≡ ok f
      → Nested f

-- The hooks of a frame and its ancestors, innermost first.
abbrev pub chain : HookFrame → List ℕ
chain outside = []
chain (inside parent id depth) = id ∷ chain parent

abbrev pub member : ℕ → List ℕ → Bool
member j [] = false
member j (i ∷ is) = (i == j) || member j is

abbrev pub NoRepeat : List ℕ → Type 0
NoRepeat [] = Unit {0}
NoRepeat (i ∷ is) = (member i is ≡ false) × NoRepeat is

-- The depth that the frame carries is that of its chain.
abbrev IsCounted : HookFrame → Type 0
IsCounted f = next_depth f ≡ length (chain f) + 1

member-chain : (id : ℕ) (f : HookFrame) → runs_already id f ≡ member id (chain f)
unfolding runs_already
member-chain id outside = refl
member-chain id (inside parent hook depth) = ground (arith, member-chain id parent)

begin_hook_lem :
    (parent : HookFrame) (id : ℕ) (f : HookFrame)
    → begin_hook parent id ≡ ok f
    → IsCounted parent
    → NoRepeat (chain parent)
    → IsCounted f × ((length (chain f) ≤ max_hook_depth) × NoRepeat (chain f))
unfolding begin_hook
begin_hook_lem parent id f e c n = elim (Bool-cases (ltb max_hook_depth (next_depth parent))) [
  | inl deep ↦ absurd (ground (arith, deep))
  | inr shallow ↦ elim (Bool-cases (runs_already id parent)) [
    | inl cycle ↦ absurd (ground (arith, shallow, cycle))
    | inr fresh ↦
        let same : inside parent id (next_depth parent) ≡ f = ground (arith, shallow, fresh) in
        let bound : next_depth parent ≤ max_hook_depth = ground (arith, shallow) in
        rw (← same)
          (omega (arith, c), (omega (arith, c, bound), (sym (member-chain id parent) ∙ fresh, n)))
  ]
]

nested_lem :
    (f : HookFrame)
    → Nested f
    → IsCounted f × ((length (chain f) ≤ max_hook_depth) × NoRepeat (chain f))
nested_lem _ top = (refl, (omega arith, tt))
nested_lem _ (begun parent id f h e) =
    let (counted, (bound, once)) = nested_lem parent h in begin_hook_lem parent id f e counted once

-- In every frame that nested hooks can reach, at most eight hooks run inside each other, and none
-- of them is there twice.
pub Nested-bounded :
    (f : HookFrame) → Nested f → (length (chain f) ≤ max_hook_depth) × NoRepeat (chain f)
Nested-bounded f h = (nested_lem f h).1

-- In every frame that nested hooks can reach, beginHookErr refuses a hook with the depth error if
-- eight hooks run already, else with the cycle error if this one does, and else begins it, one
-- deeper.
pub begin_hook-chain :
    (f : HookFrame) (id : ℕ)
    → Nested f
    → begin_hook f id ≡ (
        if ltb 7 (length (chain f))
        then err DbError.hook_depth
        else if member id (chain f)
        then err DbError.hook_cycle
        else ok (inside f id (length (chain f) + 1)))
unfolding begin_hook
begin_hook-chain f id h =
    let (counted, (bound, once)) = nested_lem f h in rw (counted, member-chain id f) (ground arith)
