-- ===== src/Access.antt =====
-- db/auth.go: roles and their permissions, the checks before reads and writes, and the sessions
-- that Authenticate registers and Revoke takes away. A session's pointer is a number.
pub mod Checks
pub mod Denied
pub mod Sessions
mod Tests
use mlstore_db.Prelude.{
  ℕ, ◌+◌, Bool, true, false, not, ◌&&◌, ◌||◌, Option, none, some, List, [], ◌∷◌, ◌++◌, ltb, ◌==◌,
  if◌then◌else◌, Result, ok, err, ◌>>=◌, DbError,
}
use mlstore_db.Prelude.Bytes.{Bytes, bytes_eq}
use mlstore_db.Prelude.Maps.{lookup, put, remove, add}

-- "_users", "_roles" and "_triggers"
abbrev pub users_coll : Bytes
users_coll = 95 ∷ 117 ∷ 115 ∷ 101 ∷ 114 ∷ 115 ∷ []

abbrev pub roles_coll : Bytes
roles_coll = 95 ∷ 114 ∷ 111 ∷ 108 ∷ 101 ∷ 115 ∷ []

abbrev pub triggers_coll : Bytes
triggers_coll = 95 ∷ 116 ∷ 114 ∷ 105 ∷ 103 ∷ 103 ∷ 101 ∷ 114 ∷ 115 ∷ []

pub record Permission : Type 0 where
  pub coll : Bytes
  pub read : Bool
  pub write : Bool
  pub field_deny : List Bytes

-- Session: `addr` is its pointer, and `expires` is 0 where it never does.
pub record Session : Type 0 where
  pub addr : ℕ
  pub token : Bytes
  pub user : Bytes
  pub roles : List Bytes
  pub perms : List Permission
  pub expires : ℕ
  pub system : Bool

-- What Authenticate reads of a document of _users.
pub record User : Type 0 where
  pub disabled : Bool
  pub hash : Bytes
  pub roles : List Bytes

-- The store's collections _users and _roles, none where they are not there, whose documents are
-- none where resident gives no document; its sessions; and the next address.
pub record Auth : Type 0 where
  pub users : Option (List (Bytes × Option User))
  pub roles : Option (List (Bytes × Option (List Permission)))
  pub sessions : List (Bytes × Session)
  pub fresh : ℕ

abbrev pub is_system_coll : Bytes → Bool
is_system_coll name =
    bytes_eq name users_coll || (bytes_eq name roles_coll || bytes_eq name triggers_coll)

abbrev pub auth_active : Auth → Bool
auth_active s = elim (s.users) [ none ↦ false | some [] ↦ false | some (_ ∷ _) ↦ true ]

abbrev pub perm_match : Bytes → Permission → Bool
perm_match coll p = bytes_eq p.coll coll || bytes_eq p.coll (42 ∷ [])

unfoldable pub some_read : Bytes → List Permission → Bool
some_read coll [] = false
some_read coll (p ∷ ps) = (perm_match coll p && p.read) || some_read coll ps

unfoldable pub some_write : Bytes → List Permission → Bool
some_write coll [] = false
some_write coll (p ∷ ps) = (perm_match coll p && p.write) || some_write coll ps

unfoldable pub can_read : Session → Bytes → Bool
can_read sess coll = if sess.system then true else some_read coll sess.perms

unfoldable pub can_write : Session → Bytes → Bool
can_write sess coll = if sess.system then true else some_write coll sess.perms

unfoldable pub deny_fields : List Bytes → List Bytes → List Bytes
deny_fields [] out = out
deny_fields (f ∷ fs) out = deny_fields fs (add f out)

-- The loop of fieldDenySet over the permissions.
unfoldable pub deny_perms : Bytes → List Permission → List Bytes → List Bytes
deny_perms coll [] out = out
deny_perms coll (p ∷ ps) out =
    deny_perms coll ps (if perm_match coll p then deny_fields p.field_deny out else out)

-- The denied fields, each once; a nil map is the empty list.
unfoldable pub field_deny_set : Session → Bytes → List Bytes
field_deny_set sess coll = deny_perms coll sess.perms []

-- The keys of a map come in any order: here, in that of the list.
unfoldable pub redact_doc : {V : Type 0} → List (Bytes × V) → List Bytes → List (Bytes × V)
redact_doc doc [] = doc
redact_doc doc (f ∷ deny) = redact_doc (remove f doc) deny

-- !expires.IsZero() && now.After(expires)
abbrev pub expired : ℕ → Session → Bool
expired now sess = not (sess.expires == 0) && ltb sess.expires now

unfoldable pub is_valid : Auth → ℕ → Session → Bool
is_valid s now sess =
    if sess.system
    then true
    else if expired now sess
    then false
    else elim (lookup sess.token s.sessions) [ none ↦ false | some cur ↦ cur.addr == sess.addr ]

-- The error of a check, none where it passes.
unfoldable pub check_read : Auth → ℕ → Option Session → Bytes → Option DbError
check_read s now none coll = if auth_active s then some DbError.unauthorized else none
check_read s now (some sess) coll =
    if not (is_valid s now sess)
    then some DbError.unauthorized
    else if is_system_coll coll
    then some DbError.forbidden
    else if not (can_read sess coll)
    then some DbError.forbidden
    else none

abbrev pub write_allowed : Auth → ℕ → Option Session → Bytes → Option DbError
write_allowed s now none coll = if auth_active s then some DbError.unauthorized else none
write_allowed s now (some sess) coll =
    if not (is_valid s now sess)
    then some DbError.unauthorized
    else if not (can_write sess coll)
    then some DbError.forbidden
    else none

unfoldable pub check_write : Auth → ℕ → Option Session → Bytes → Option DbError
check_write s now sess coll =
    if is_system_coll coll then some DbError.forbidden else write_allowed s now sess coll

unfoldable pub revoke : Bytes → Auth → Auth
revoke token s = if bytes_eq token [] then s else record s { sessions = remove token s.sessions }

unfoldable pub purge_expired : ℕ → List (Bytes × Session) → List (Bytes × Session)
purge_expired now [] = []
purge_expired now ((tok, sess) ∷ m) =
    if expired now sess then purge_expired now m else (tok, sess) ∷ purge_expired now m

abbrev pub role_perms : List (Bytes × Option (List Permission)) → Bytes → List Permission
role_perms rc name = elim (lookup name rc) [ none ↦ [] | some none ↦ [] | some (some ps) ↦ ps ]

unfoldable pub collect_perms :
    List (Bytes × Option (List Permission)) → List Bytes → List Permission
collect_perms rc [] = []
collect_perms rc (name ∷ names) = role_perms rc name ++ collect_perms rc names

unfoldable pub resolve_role_perms : Auth → List Bytes → List Permission
resolve_role_perms s names = elim (s.roles) [ none ↦ [] | some rc ↦ collect_perms rc names ]

abbrev pub find_user : Auth → Bytes → Option User
find_user s name = elim (s.users) [
  | none ↦ none
  | some uc ↦ elim (lookup name uc) [ none ↦ none | some doc ↦ doc ]
]

-- Authenticate's new session; a negative time to live is 0.
abbrev pub new_session : Auth → Bytes → User → Bytes → ℕ → ℕ → Session
new_session s name u token ttl now = record {
  addr = s.fresh;
  token = token;
  user = name;
  roles = u.roles;
  perms = resolve_role_perms s u.roles;
  expires = if ltb 0 ttl then now + ttl else 0;
  system = false;
}

-- The clock is read again for the purge, which comes before the session is put in.
unfoldable pub register_session : Session → ℕ → Auth → Auth
register_session sess later s = record s {
  sessions = put sess.token sess (purge_expired later s.sessions);
  fresh = s.fresh + 1;
}

-- verifyPassword is a parameter: it compares the hashes of the library argon2.
module _ (verify_password : Bytes → Bytes → Bool) where
  -- Authenticate up to the password.
  unfoldable pub check_login : Auth → Bytes → Bytes → Result User
  check_login s name password =
      if bytes_eq name [] || bytes_eq password []
      then err DbError.unauthorized
      else elim (find_user s name) [
        | none ↦ err DbError.unauthorized
        | some u ↦
            if u.disabled
            then err DbError.unauthorized
            else if bytes_eq u.hash [] || not (verify_password password u.hash)
            then err DbError.unauthorized
            else ok u
      ]

  -- The random token, none where the source of randomness fails.
  unfoldable pub authenticate :
      Auth → Bytes → Bytes → Option Bytes → ℕ → ℕ → ℕ → Result (Session × Auth)
  authenticate s name password random ttl now later = check_login s name password >>= (λ u.
      elim random [
        | none ↦ err DbError.other
        | some token ↦ ok (
          new_session s name u token ttl now,
          register_session (new_session s name u token ttl now) later s,
        )
      ])
