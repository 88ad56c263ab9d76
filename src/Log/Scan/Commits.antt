-- ===== src/Log/Scan/Commits.antt =====
-- Where scanV2 finds the last COMMIT of a written log, and the records up to it.
use mlstore_db.Prelude.{
  ℕ, ◌+◌, ◌≤◌, ◌≡◌, ◌≢◌, refl, ap, ◌∙◌, Option, none, some, List, [], ◌∷◌, ◌++◌, length, arith,
  lt→ltb, le→not-ltb,
}
use mlstore_db.Log.Record.{Frame, rec_commit}
use mlstore_db.Log.Scan.{Applied, Walk, walked, with_record, next_commit, committed}
use mlstore_db.Log.Scan.Files.{
  log_size, AllFrames, frame_size, applied_from, applied_at, commit_from, with_records,
}

abbrev pub NoCommit : List Frame → Type 0
NoCommit [] = Unit {0}
NoCommit (f ∷ fs) = (f.typ ≢ rec_commit) × NoCommit fs

pub with_records-walked :
    (rs : List Applied) (w : Walk)
    → with_records rs (walked w) ≡ walked (record w { recs = rs ++ w.recs })
with_records-walked [] w = refl
with_records-walked (r ∷ rs) w = ap (with_record r) (with_records-walked rs w)

pub length-le-log_size : (fs : List Frame) → length fs ≤ log_size fs
length-le-log_size [] = omega arith
length-le-log_size (f ∷ fs) = omega (arith, length-le-log_size fs)

pub log_size-append : (fs gs : List Frame) → log_size (fs ++ gs) ≡ log_size fs + log_size gs
log_size-append [] gs = omega arith
log_size-append (f ∷ fs) gs = omega (arith, log_size-append fs gs)

commit_from-append :
    (fs gs : List Frame) (off : ℕ) (last : Option ℕ)
    → commit_from off (fs ++ gs) last ≡ commit_from (off + log_size fs) gs (commit_from off fs last)
commit_from-append [] gs off last = ap (λ o. commit_from o gs last) (omega arith)
commit_from-append (f ∷ fs) gs off last =
    commit_from-append fs gs (off + frame_size f) (next_commit f.typ (off + frame_size f) last)
    ∙ ap
        (λ o.
          commit_from o gs
            (commit_from (off + frame_size f) fs (next_commit f.typ (off + frame_size f) last)))
        (omega arith)

commit_from_none :
    (fs : List Frame) (off : ℕ) (last : Option ℕ) → NoCommit fs → commit_from off fs last ≡ last
commit_from_none [] off last h = refl
commit_from_none (f ∷ fs) off last h =
    commit_from_none fs (off + frame_size f) (next_commit f.typ (off + frame_size f) last) h.1
    ∙ ground (arith, h.0)

-- The last COMMIT of `fs`, `c`, `us` is `c`.
pub last_commit :
    (fs : List Frame) (c : Frame) (us : List Frame) (off : ℕ)
    → c.typ ≡ rec_commit
    → NoCommit us
    → commit_from off ((fs ++ c ∷ []) ++ us) none ≡ some (off + log_size (fs ++ c ∷ []))
last_commit fs c us off hc hu =
    commit_from-append (fs ++ c ∷ []) us off none
    ∙ commit_from_none us (off + log_size (fs ++ c ∷ [])) (commit_from off (fs ++ c ∷ []) none) hu
    ∙ commit_from-append fs (c ∷ []) off none
    ∙ ground (arith, log_size-append fs (c ∷ []))

-- The records up to an offset at which a record ends.
pub committed-applied :
    (gs us : List Frame) (off last : ℕ)
    → AllFrames (gs ++ us)
    → last ≡ off + log_size gs
    → committed last (applied_from off (gs ++ us)) ≡ applied_from off gs
unfolding committed
committed-applied [] [] off last fit h = refl
committed-applied [] (u ∷ us) off last fit h =
    rw (lt→ltb (frame_size u) 2147483648 fit.0.1, lt→ltb last (off + frame_size u) (omega arith))
committed-applied (g ∷ gs) us off last fit h =
    rw
      (lt→ltb (frame_size g) 2147483648 fit.0.1, le→not-ltb last (off + frame_size g) (omega arith))
      (ap (λ t. applied_at off g ∷ t)
        (committed-applied gs us (off + frame_size g) last fit.1 (omega arith)))
