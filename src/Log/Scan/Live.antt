-- ===== src/Log/Scan/Live.antt =====
-- Which documents scanV2 returns: those whose key was last written, not deleted.
use mlstore_db.Prelude.{
  ◌≡◌, Bool, true, false, not, ◌&&◌, Option, none, some, List, [], ◌∷◌, arith, ◌==◌, if◌then◌else◌,
  ok, err, Result-cases, inl, inr,
}
use mlstore_db.Prelude.Bytes.{Byte, Bytes, bytes_eq}
use mlstore_db.Log.Record.{decode_id_blob, rec_doc, rec_del}
use mlstore_db.Log.Scan.{Applied, Fate, fate_step, fates, doc_key, is_doc_or_del}

abbrev pub is_live : Fate → Bytes → Bool
is_live m k = not (m.deleted k) && m.alive k

-- What one record says of a key: written, deleted, or nothing.
abbrev pub says : Bytes → Applied → Option Bool
says k r = elim (decode_id_blob r.id_blob) [
  | err e ↦ none
  | ok (coll, id) ↦
      if bytes_eq (doc_key coll id) k
      then (if r.typ == rec_doc then some true else if r.typ == rec_del then some false else none)
      else none
]

-- What the last record that says something of a key says.
abbrev pub last_said : Bytes → List Applied → Option Bool
last_said k [] = none
last_said k (r ∷ rs) = elim (last_said k rs) [ some b ↦ some b | none ↦ says k r ]

abbrev pub or_else : Option Bool → Bool → Bool
or_else none b = b
or_else (some a) b = a

fate_step-live :
    (m : Fate) (k coll id : Bytes) (r : Applied)
    → decode_id_blob r.id_blob ≡ ok (coll, id)
    → is_live (fate_step m r.typ coll id) k ≡ or_else (says k r) (is_live m k)
unfolding fate_step
fate_step-live m k coll id r e = ground (arith, e)

fate_step-other : (m : Fate) (typ : Byte) → is_doc_or_del typ ≡ false → fate_step m typ [] [] ≡ m
unfolding fate_step
fate_step-other m typ h = ground arith

-- When the replay of the records returns maps, a key is live in them if the last record that says
-- something of it is a DOC, and not if that is a DEL; with no such record it is as before.
pub fates-live :
    (k : Bytes) (rs : List Applied) (m m' : Fate)
    → fates m rs ≡ ok m'
    → is_live m' k ≡ or_else (last_said k rs) (is_live m k)
unfolding fates
fates-live k [] m m' h = ground arith
fates-live k (r ∷ rs) m m' h = elim (Result-cases (decode_id_blob r.id_blob)) [
  | inl (e, q) ↦ ground (arith, q, fate_step-other m r.typ, fates-live k rs m m')
  | inr (key, q) ↦ ground (
    arith,
    q,
    fate_step-live m k key.0 key.1 r q,
    fates-live k rs (fate_step m r.typ key.0 key.1) m',
  )
]
