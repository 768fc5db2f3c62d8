-- ===== src/Admin/Replay/Lines.antt =====
-- What becomes of the lines of the fallback file.
use ai_serving_backend.Prelude.{
  ℕ, suc, ◌+◌, ◌≤◌, Bool, String, ◌≡◌, refl, true, false, none, some, List, [], ◌∷◌, length,
  length-append, arith, ok, Bool-cases, inl, inr,
}
use ai_serving_backend.Auth.{ApiKeyPrincipal, is_super_admin}
use ai_serving_backend.Admin.{require_super_admin}
use ai_serving_backend.Admin.Replay.{
  Libraries, LineFate, commits, breaks, cancels, Replayed, by_fate, nonblank, is_blank,
  replay_lines, Files, SnapshotFate, taken, unreadable, AuditReplayResponse, replay_audit_fallback,
  replay_file, replay_snapshot,
}

-- Each line that was taken up is a row or is quarantined, and is counted as what it is.
abbrev IsTold : ℕ → Replayed → Type 0
IsTold n r =
    (length r.rows + length r.quarantine ≡ n)
    × (r.replayed ≡ length r.rows)
    × (r.cancelled ≡ false → r.failed ≡ length r.quarantine)

by_fate-IsTold :
    (lib : Libraries) (fate : LineFate) (line : String) (lines : List String) (rest : Replayed)
    → IsTold (length (nonblank lib lines)) rest
    → IsTold (suc (length (nonblank lib lines))) (by_fate lib fate line lines rest)
by_fate-IsTold lib commits line lines rest h = ground arith
by_fate-IsTold lib breaks line lines rest h = ground arith
by_fate-IsTold lib cancels line lines rest h = ground arith

replay_lines-IsTold :
    (lib : Libraries) (fates : List LineFate) (lines : List String)
    → IsTold (length (nonblank lib lines)) (replay_lines lib fates lines)
unfolding replay_lines
replay_lines-IsTold lib fates [] = ground arith
replay_lines-IsTold lib [] (line ∷ lines) = elim (Bool-cases (is_blank lib line)) [
  | inl blank ↦ rw blank (replay_lines-IsTold lib [] lines)
  | inr full ↦ rw full (by_fate-IsTold lib commits line lines _ (replay_lines-IsTold lib [] lines))
]
replay_lines-IsTold lib (fate ∷ fates) (line ∷ lines) = elim (Bool-cases (is_blank lib line)) [
  | inl blank ↦ rw blank (replay_lines-IsTold lib (fate ∷ fates) lines)
  | inr full ↦ rw full (by_fate-IsTold lib fate line lines _ (replay_lines-IsTold lib fates lines))
]

replays :
    (lib : Libraries) (fates : List LineFate) (fate : SnapshotFate) (p : ApiKeyPrincipal)
    (lines : List String) (f : Files)
    → is_super_admin p ≡ true
    → f.fallback ≡ some lines
    → replay_audit_fallback lib fates fate true p f ≡ replay_snapshot lib fates fate lines f
unfolding replay_audit_fallback require_super_admin replay_file
replays lib fates fate p lines f admin e = rw (replay_audit_fallback, admin, e) refl

-- When a super admin replays and the snapshot of the fallback file can be taken and read, then whatever
-- becomes of each line (it is committed, it fails, or the request is cancelled at it), the audit rows
-- and the lines of the quarantine grow together by the number of lines that are not blank; and the
-- fallback file is gone.
pub replay_audit_fallback-loses_none :
    (lib : Libraries) (fates : List LineFate) (p : ApiKeyPrincipal) (lines : List String)
    (f : Files)
    → is_super_admin p ≡ true
    → f.fallback ≡ some lines
    → let f' = (replay_audit_fallback lib fates taken true p f).1 in
      (length f'.rows + length f'.quarantined
        ≡ length f.rows + length f.quarantined + length (nonblank lib lines))
      × (f'.fallback ≡ none)
unfolding replay_snapshot
replay_audit_fallback-loses_none lib fates p lines f admin e =
    let r = replay_lines lib fates lines in
    rw (replays lib fates taken p lines f admin e) (
      omega (
        arith,
        length-append f.rows r.rows,
        length-append f.quarantined r.quarantine,
        (replay_lines-IsTold lib fates lines).0,
      ),
      refl,
    )

-- When such a replay answers, its two counts are the number of rows that it added and the number of
-- lines that it quarantined.
pub replay_audit_fallback-counts :
    (lib : Libraries) (fates : List LineFate) (p : ApiKeyPrincipal) (lines : List String)
    (f : Files) (a : AuditReplayResponse)
    → is_super_admin p ≡ true
    → f.fallback ≡ some lines
    → (replay_audit_fallback lib fates taken true p f).0 ≡ ok a
    → let f' = (replay_audit_fallback lib fates taken true p f).1 in
      (length f'.rows ≡ length f.rows + a.replayed)
      × (length f'.quarantined ≡ length f.quarantined + a.failed)
unfolding replay_snapshot
replay_audit_fallback-counts lib fates p lines f a admin e answer =
    let r = replay_lines lib fates lines in
    let told = replay_lines-IsTold lib fates lines in
    let answer' = rw (replays lib fates taken p lines f admin e) at answer in
    rw (replays lib fates taken p lines f admin e) (
      ground (
        arith,
        answer',
        told,
        length-append f.rows r.rows,
        length-append f.quarantined r.quarantine,
      ))

-- The audit lines that are kept somewhere: as rows, in the quarantine, or in the fallback file, where
-- blank lines do not count.
abbrev pub kept : Libraries → Files → ℕ
kept lib f =
    length f.rows
    + length f.quarantined
    + (elim f.fallback [ none ↦ 0 | some lines ↦ length (nonblank lib lines) ])

-- A super admin replays with a database at hand, and a snapshot that has a line which is not blank is
-- taken but cannot be read as UTF-8.
pub record LosesLines (lib : Libraries) (fate : SnapshotFate) (initialized : Bool)
    (p : ApiKeyPrincipal) (f : Files) : Type 0 where
  pub admin : is_super_admin p ≡ true
  pub database : initialized ≡ true
  pub undecodable : fate ≡ unreadable
  pub lines : List String
  pub present : f.fallback ≡ some lines
  pub not_blank : 1 ≤ length (nonblank lib lines)
