-- ===== src/Access/Checks.antt =====
-- What the checks of db/auth.go allow to a session, in the words of the roles that it was given.
use mlstore_db.Prelude.{
  ◌≡◌, refl, Bool, false, ◌||◌, Option, none, some, List, [], ◌∷◌, ◌++◌, arith, Option-cases, inl,
  inr,
}
use mlstore_db.Prelude.Bytes.{Bytes}
use mlstore_db.Access.{
  Permission, Auth, some_read, some_write, role_perms, collect_perms, resolve_role_perms,
}

-- Whether one of the roles has one permission that lets a collection be read, or written.
abbrev pub any_role : (List Permission → Bool) → (Bytes → List Permission) → List Bytes → Bool
any_role test perms_of [] = false
any_role test perms_of (name ∷ names) = test (perms_of name) || any_role test perms_of names

abbrev pub roles_read : Auth → Bytes → List Bytes → Bool
roles_read s coll names = elim (s.roles) [
  | none ↦ false
  | some rc ↦ any_role (some_read coll) (role_perms rc) names
]

abbrev pub roles_write : Auth → Bytes → List Bytes → Bool
roles_write s coll names = elim (s.roles) [
  | none ↦ false
  | some rc ↦ any_role (some_write coll) (role_perms rc) names
]

some_read-append :
    (coll : Bytes) (ps qs : List Permission)
    → some_read coll (ps ++ qs) ≡ (some_read coll ps || some_read coll qs)
unfolding some_read
some_read-append coll [] qs = refl
some_read-append coll (p ∷ ps) qs = ground (arith, some_read-append coll ps qs)

some_write-append :
    (coll : Bytes) (ps qs : List Permission)
    → some_write coll (ps ++ qs) ≡ (some_write coll ps || some_write coll qs)
unfolding some_write
some_write-append coll [] qs = refl
some_write-append coll (p ∷ ps) qs = ground (arith, some_write-append coll ps qs)

some_read-collect_perms :
    (coll : Bytes) (rc : List (Bytes × Option (List Permission))) (names : List Bytes)
    → some_read coll (collect_perms rc names) ≡ any_role (some_read coll) (role_perms rc) names
unfolding collect_perms some_read
some_read-collect_perms coll rc [] = refl
some_read-collect_perms coll rc (name ∷ names) =
    rw
      (
        some_read-append coll (role_perms rc name) (collect_perms rc names),
        some_read-collect_perms coll rc names,
      )
      refl

some_write-collect_perms :
    (coll : Bytes) (rc : List (Bytes × Option (List Permission))) (names : List Bytes)
    → some_write coll (collect_perms rc names) ≡ any_role (some_write coll) (role_perms rc) names
unfolding collect_perms some_write
some_write-collect_perms coll rc [] = refl
some_write-collect_perms coll rc (name ∷ names) =
    rw
      (
        some_write-append coll (role_perms rc name) (collect_perms rc names),
        some_write-collect_perms coll rc names,
      )
      refl

pub some_read-resolve_role_perms :
    (coll : Bytes) (s : Auth) (names : List Bytes)
    → some_read coll (resolve_role_perms s names) ≡ roles_read s coll names
unfolding resolve_role_perms some_read
some_read-resolve_role_perms coll s names = elim (Option-cases (s.roles)) [
  | inl nothing ↦ rw nothing refl
  | inr (rc, there) ↦ rw there (some_read-collect_perms coll rc names)
]

pub some_write-resolve_role_perms :
    (coll : Bytes) (s : Auth) (names : List Bytes)
    → some_write coll (resolve_role_perms s names) ≡ roles_write s coll names
unfolding resolve_role_perms some_write
some_write-resolve_role_perms coll s names = elim (Option-cases (s.roles)) [
  | inl nothing ↦ rw nothing refl
  | inr (rc, there) ↦ rw there (some_write-collect_perms coll rc names)
]
