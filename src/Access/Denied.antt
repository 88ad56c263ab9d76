-- ===== src/Access/Denied.antt =====
-- What the denied fields of db/auth.go leave of a document.
use mlstore_db.Prelude.{
  ◌≡◌, refl, Bool, false, ◌&&◌, ◌||◌, none, List, [], ◌∷◌, arith, if◌then◌else◌,
}
use mlstore_db.Prelude.Bytes.{Bytes}
use mlstore_db.Prelude.Maps.{lookup, contains, add, remove, contains-add, lookup-remove}
use mlstore_db.Access.{
  Permission, Session, perm_match, deny_fields, deny_perms, field_deny_set, redact_doc,
}

-- Whether a permission for a collection denies a field.
abbrev pub denies : Bytes → Bytes → List Permission → Bool
denies coll f [] = false
denies coll f (p ∷ ps) = (perm_match coll p && contains p.field_deny f) || denies coll f ps

contains-deny_fields :
    (fs out : List Bytes) (f : Bytes)
    → contains (deny_fields fs out) f ≡ (contains fs f || contains out f)
unfolding deny_fields contains
contains-deny_fields [] out f = refl
contains-deny_fields (g ∷ fs) out f =
    ground (arith, contains-deny_fields fs (add g out) f, contains-add out g f)

contains-deny_perms :
    (coll f : Bytes) (ps : List Permission) (out : List Bytes)
    → contains (deny_perms coll ps out) f ≡ (denies coll f ps || contains out f)
unfolding deny_perms
contains-deny_perms coll f [] out = refl
contains-deny_perms coll f (p ∷ ps) out = ground (
  arith,
  contains-deny_perms coll f ps out,
  contains-deny_perms coll f ps (deny_fields p.field_deny out),
  contains-deny_fields p.field_deny out f,
)

lookup-redact_doc :
    {V : Type 0} (f : Bytes) (doc : List (Bytes × V)) (deny : List Bytes)
    → lookup f (redact_doc doc deny) ≡ (if contains deny f then none else lookup f doc)
unfolding redact_doc contains
lookup-redact_doc f doc [] = refl
lookup-redact_doc f doc (g ∷ deny) =
    ground (arith, lookup-redact_doc f (remove g doc) deny, lookup-remove g f doc)

-- A document that is redacted for a session has lost exactly the fields that one of the session's
-- permissions for the collection, or for all collections, denies, and keeps the others' values.
pub redact_doc_lem :
    {V : Type 0} (sess : Session) (coll f : Bytes) (doc : List (Bytes × V))
    → lookup f (redact_doc doc (field_deny_set sess coll))
      ≡ (if denies coll f sess.perms then none else lookup f doc)
unfolding field_deny_set contains
redact_doc_lem sess coll f doc = ground (
  arith,
  lookup-redact_doc f doc (field_deny_set sess coll),
  contains-deny_perms coll f sess.perms [],
)
