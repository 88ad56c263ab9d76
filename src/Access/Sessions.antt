-- ===== src/Access/Sessions.antt =====
-- The life of a session of db/auth.go: Authenticate, the checks, Revoke.
use mlstore_db.Prelude.{
  ℕ, ◌+◌, ◌≡◌, refl, Bool, true, false, not, ◌&&◌, none, some, List, [], ◌∷◌, arith, if◌then◌else◌,
  ltb, ==_refl, ok, DbError,
}
use mlstore_db.Prelude.Bytes.{Bytes, bytes_eq}
use mlstore_db.Prelude.Maps.{lookup, lookup-put, lookup-remove, bytes_eq_refl}
use mlstore_db.Access.{
  Session, User, Auth, expired, is_valid, check_read, check_write, can_read, can_write,
  is_system_coll, revoke, purge_expired, authenticate, check_login, find_user, new_session,
  register_session,
}
use mlstore_db.Access.Checks.{
  roles_read, roles_write, some_read-resolve_role_perms, some_write-resolve_role_perms,
}

lookup-purge_expired :
    (now : ℕ) (tok : Bytes) (sess : Session) (m : List (Bytes × Session))
    → lookup tok m ≡ some sess
    → expired now sess ≡ false
    → lookup tok (purge_expired now m) ≡ some sess
unfolding lookup purge_expired
lookup-purge_expired now tok sess [] h live = h
lookup-purge_expired now tok sess ((k, x) ∷ m) h live =
    ground (arith, lookup-purge_expired now tok sess m, h, live)

is_valid-register_session :
    (sess : Session) (later : ℕ) (s : Auth) (now : ℕ)
    → sess.system ≡ false
    → is_valid (register_session sess later s) now sess ≡ not (expired now sess)
unfolding is_valid register_session
is_valid-register_session sess later s now user =
    rw
      (
        lookup-put sess.token sess.token sess (purge_expired later s.sessions),
        bytes_eq_refl sess.token,
        ==_refl sess.addr,
        user,
      )
      (ground arith)

check_login_lem :
    (verify : Bytes → Bytes → Bool) (s : Auth) (name password : Bytes) (u : User)
    → bytes_eq name [] ≡ false
    → bytes_eq password [] ≡ false
    → find_user s name ≡ some u
    → u.disabled ≡ false
    → bytes_eq u.hash [] ≡ false
    → verify password u.hash ≡ true
    → check_login verify s name password ≡ ok u
unfolding check_login
check_login_lem verify s name password u named given found enabled hashed right =
    rw (named, given, found, enabled, hashed, right) refl

-- A user who is there, is not disabled and gives a name and the password that belongs to the
-- stored hash gets a session from Authenticate if there is a random token. While it has not
-- expired, the session may read and write the collections that are not the system's for which one
-- of the user's roles, as they were at the login, has the permission, and no others; after that
-- it is unauthorized, and writing to system collections is always forbidden.
pub authenticate_lem :
    (verify : Bytes → Bytes → Bool) (s : Auth) (name password token : Bytes) (u : User)
    (ttl now later : ℕ)
    → bytes_eq name [] ≡ false
    → bytes_eq password [] ≡ false
    → find_user s name ≡ some u
    → u.disabled ≡ false
    → bytes_eq u.hash [] ≡ false
    → verify password u.hash ≡ true
    → (sess : Session) × ((t : Auth) × ((authenticate verify s name password
              (some token)
              ttl
              now
              later
            ≡ ok (sess, t))
          × ((time : ℕ) (coll : Bytes)
              → (check_read t time (some sess) coll ≡ (
                  if ltb 0 ttl && ltb (now + ttl) time
                  then some DbError.unauthorized
                  else if not (is_system_coll coll) && roles_read s coll u.roles
                  then none
                  else some DbError.forbidden))
                × (check_write t time (some sess) coll ≡ (
                    if is_system_coll coll
                    then some DbError.forbidden
                    else if ltb 0 ttl && ltb (now + ttl) time
                    then some DbError.unauthorized
                    else if roles_write s coll u.roles
                    then none
                    else some DbError.forbidden)))))
unfolding authenticate check_read check_write can_read can_write
authenticate_lem verify s name password token u ttl now later named given found enabled hashed
      right =
    let sess = new_session s name u token ttl now in
    (
      sess,
      (
        register_session sess later s,
        (
          rw (check_login_lem verify s name password u named given found enabled hashed right) refl,
          (λ time coll.
              rw
                (
                  is_valid-register_session sess later s time refl,
                  some_read-resolve_role_perms coll s u.roles,
                  some_write-resolve_role_perms coll s u.roles,
                )
                (ground arith, ground arith)),
        ),
      ),
    )

-- Registering a new session leaves every other one that is registered under another token and has
-- not expired registered: its checks give, at every time, what they gave.
pub register_session_lem :
    (sess old : Session) (s : Auth) (later time : ℕ) (coll : Bytes)
    → lookup old.token s.sessions ≡ some old
    → expired later old ≡ false
    → bytes_eq sess.token old.token ≡ false
    → (check_read (register_session sess later s) time (some old) coll
        ≡ check_read s time (some old) coll)
      × (check_write (register_session sess later s) time (some old) coll
          ≡ check_write s time (some old) coll)
unfolding check_read check_write is_valid register_session
register_session_lem sess old s later time coll there live apart =
    rw
      (
        lookup-put sess.token old.token sess (purge_expired later s.sessions),
        apart,
        lookup-purge_expired later old.token old s.sessions there live,
        there,
      )
      (refl, refl)

-- With a token that is not empty, Revoke makes each check of a session with that token, unless it
-- is the system's, unauthorized, but for writes to system collections, which stay forbidden; the
-- checks of every other session and of the raw store give what they gave.
pub revoke_lem :
    (token : Bytes) (s : Auth) (now : ℕ) (x : Session) (coll : Bytes)
    → bytes_eq token [] ≡ false
    → (check_read (revoke token s) now (some x) coll ≡ (
        if bytes_eq token x.token && not x.system
        then some DbError.unauthorized
        else check_read s now (some x) coll))
      × (check_write (revoke token s) now (some x) coll ≡ (
          if bytes_eq token x.token && (not x.system && not (is_system_coll coll))
          then some DbError.unauthorized
          else check_write s now (some x) coll))
      × (check_read (revoke token s) now none coll ≡ check_read s now none coll)
      × (check_write (revoke token s) now none coll ≡ check_write s now none coll)
unfolding revoke check_read check_write is_valid
revoke_lem token s now x coll h = rw h (
  ground (arith, lookup-remove token x.token s.sessions),
  ground (arith, lookup-remove token x.token s.sessions),
  refl,
  refl,
)
