-- ===== src/Access/Tests.antt =====
-- The theorems on access at a store of one user, who has a role that reads one collection.
use mlstore_db.Prelude.{
  ℕ, ◌+◌, ◌≡◌, refl, true, false, not, ◌&&◌, none, some, List, [], ◌∷◌, if◌then◌else◌, ltb, ok,
  DbError,
}
use mlstore_db.Prelude.Bytes.{Bytes, bytes_eq}
use mlstore_db.Prelude.Maps.{lookup}
use mlstore_db.Access.{
  Session, User, Auth, is_valid, can_read, can_write, some_read, some_write, field_deny_set,
  redact_doc, check_read, check_write, is_system_coll, revoke, authenticate, register_session,
  new_session,
}
use mlstore_db.Access.Checks.{roles_read, roles_write}
use mlstore_db.Access.Denied.{denies, redact_doc_lem}
use mlstore_db.Access.Sessions.{authenticate_lem, register_session_lem, revoke_lem}

abbrev ann : Bytes
ann = 97 ∷ []

abbrev reader : Bytes
reader = 114 ∷ []

abbrev books : Bytes
books = 98 ∷ []

abbrev password : Bytes
password = 112 ∷ []

abbrev ann_user : User
ann_user = record { disabled = false; hash = password; roles = reader ∷ [] }

abbrev old : Session
old = record {
  addr = 1;
  token = 116 ∷ [];
  user = ann;
  roles = reader ∷ [];
  perms = (record { coll = books; read = true; write = false; field_deny = [] }) ∷ [];
  expires = 90;
  system = false;
}

abbrev store : Auth
store = record {
  users = some ((ann, some ann_user) ∷ []);
  roles = some (
      (reader, some ((record { coll = books; read = true; write = false; field_deny = [] }) ∷ []))
      ∷ []);
  sessions = (116 ∷ [], old) ∷ [];
  fresh = 2;
}

reads_books : check_read store 90 (some old) books ≡ none
unfolding check_read is_valid lookup bytes_eq can_read some_read
reads_books = refl

writes_books : check_write store 90 (some old) books ≡ some DbError.forbidden
unfolding check_write is_valid lookup bytes_eq can_write some_write
writes_books = refl

too_late : check_read store 91 (some old) books ≡ some DbError.unauthorized
unfolding check_read is_valid lookup bytes_eq can_read some_read
too_late = refl

authenticate_lem_example :
    (sess : Session) × ((t : Auth) × ((authenticate bytes_eq store ann password
            (some (117 ∷ []))
            10
            50
            51
          ≡ ok (sess, t))
        × ((time : ℕ) (coll : Bytes)
            → (check_read t time (some sess) coll ≡ (
                if ltb 0 10 && ltb (50 + 10) time
                then some DbError.unauthorized
                else if not (is_system_coll coll) && roles_read store coll ann_user.roles
                then none
                else some DbError.forbidden))
              × (check_write t time (some sess) coll ≡ (
                  if is_system_coll coll
                  then some DbError.forbidden
                  else if ltb 0 10 && ltb (50 + 10) time
                  then some DbError.unauthorized
                  else if roles_write store coll ann_user.roles
                  then none
                  else some DbError.forbidden)))))
unfolding lookup bytes_eq
authenticate_lem_example =
    authenticate_lem bytes_eq store ann password (117 ∷ []) ann_user 10 50 51 refl refl refl refl
      refl refl

abbrev newer : Session
newer = new_session store ann ann_user (117 ∷ []) 10 50

register_session_lem_example :
    (check_read (register_session newer 51 store) 60 (some old) books
      ≡ check_read store 60 (some old) books)
    × (check_write (register_session newer 51 store) 60 (some old) books
        ≡ check_write store 60 (some old) books)
unfolding lookup bytes_eq
register_session_lem_example = register_session_lem newer old store 51 60 books refl refl refl

revoke_lem_example :
    (check_read (revoke (116 ∷ []) store) 60 (some old) books ≡ (
      if bytes_eq (116 ∷ []) old.token && not old.system
      then some DbError.unauthorized
      else check_read store 60 (some old) books))
    × (check_write (revoke (116 ∷ []) store) 60 (some old) books ≡ (
        if bytes_eq (116 ∷ []) old.token && (not old.system && not (is_system_coll books))
        then some DbError.unauthorized
        else check_write store 60 (some old) books))
    × (check_read (revoke (116 ∷ []) store) 60 none books ≡ check_read store 60 none books)
    × (check_write (revoke (116 ∷ []) store) 60 none books ≡ check_write store 60 none books)
unfolding bytes_eq
revoke_lem_example = revoke_lem (116 ∷ []) store 60 old books refl

abbrev secret : Bytes
secret = 115 ∷ []

abbrev guest : Session
guest = record old {
  perms = (record { coll = 42 ∷ []; read = true; write = false; field_deny = secret ∷ [] }) ∷ [];
}

abbrev entry : List (Bytes × ℕ)
entry = (ann, 1) ∷ (secret, 2) ∷ []

redact_doc_lem_example :
    lookup secret (redact_doc entry (field_deny_set guest books))
    ≡ (if denies books secret guest.perms then none else lookup secret entry)
redact_doc_lem_example = redact_doc_lem guest books secret entry
