-- ===== src/Drive/UploadSession/Cleanup.antt =====
-- What the cleanup of expired uploads does.
use terab.Base.{
  ℕ, zero, suc, ◌+◌, ◌≤◌, ◌≡◌, ◌≢◌, refl, true, false, Option, none, some, List, [], ◌∷◌, arith,
  inl, inr, ◌==◌, Has, All, All-mono, length, Bool-cases,
}
use terab.Action.{World, Result, ok, external}
use terab.Table.Laws.{same_row, select_where-All}
use terab.Table.{select_where, delete_where, UniqueIds}
use terab.Drive.Schema.{DriveDb, UploadSession, UploadKind, single, multipart}
use terab.Drive.Outside.{Cache, ObjectStore}
use terab.Drive.UploadSession.{
  cleanup_expired, clean_sessions, CleanupStats, find_expired_for_cleanup, take, is_overdue,
  delete_session, abort_upload, count_ok,
}
use terab.Action.Laws.{Result-cases}

abbrev pub delete_all : List UploadSession → DriveDb → DriveDb
delete_all [] d = d
delete_all (s ∷ rest) d = delete_all rest (delete_session s.id d)

length-take : (n : ℕ) (t : List UploadSession) → length (take n t) ≤ n
length-take zero t = omega arith
length-take (suc n) [] = omega arith
length-take (suc n) (s ∷ t) = omega (arith, length-take n t)

module _ {X : Type 0} (cache : Cache X) (minio : ObjectStore X) where
  -- A call whose failure is ignored answers 0 or 1 and touches nothing but the outside.
  counted :
      (f : X → Result (Unit {0}) × X) (w : World DriveDb X)
      → (n : ℕ) × (x : X) × (n ≤ 1)
        × (count_ok cache minio (external f) w ≡ (ok n, record w { ext = x }))
  counted f w = elim (Result-cases (f w.ext).0) [
    | inl (e, broken) ↦ (0, (f w.ext).1, omega arith, rw broken)
    | inr (done, worked) ↦ (1, (f w.ext).1, omega arith, rw worked)
  ]

  aborted :
      (s : UploadSession) (k : UploadKind) (u : Option ℕ) (w : World DriveDb X)
      → (n : ℕ) × (x : X) × (n ≤ 1)
        × (abort_upload cache minio s k u w ≡ (ok n, record w { ext = x }))
  aborted s multipart (some upload) w = counted (minio.abort_multipart_upload s.minio_key upload) w
  aborted s multipart none w = (0, w.ext, omega arith, refl)
  aborted s single u w = (0, w.ext, omega arith, refl)

  cleaned :
      (ss : List UploadSession) (a r : ℕ) (w : World DriveDb X)
      → (a' r' : ℕ) × (x : X) × (a' ≤ a + length ss)
        × (r' ≤ r + length ss)
        × (clean_sessions cache minio ss a r w
            ≡ (ok (a', r'), record w { db = delete_all ss w.db; ext = x }))
  unfolding clean_sessions
  cleaned [] a r w = (a, r, w.ext, omega arith, omega arith, refl)
  cleaned (s ∷ rest) a r w =
      let (n, x, n1, e) = aborted s s.upload_kind s.multipart_upload_id w in
      let (m, y, m1, e') = counted (minio.remove_object s.minio_key) (record w { ext = x }) in
      let (a', r', z, la, lr, done) =
        cleaned rest (a + n) (r + m) (record w { db = delete_session s.id w.db; ext = y }) in
      (a', r', z, omega arith, omega arith, rw (e, e', done))

  -- `cleanupExpired` never fails, whatever the object store answers: it deletes the rows of the
  -- sessions that it selected, at most a batch, and counts no more aborted uploads and no more
  -- removed objects than it scanned sessions.
  pub cleanup_expired_lem :
      (now batch : ℕ) (w : World DriveDb X)
      → let ss = find_expired_for_cleanup now batch w.db.upload_sessions in
        (stats : CleanupStats) × (x : X) × (cleanup_expired cache minio now batch w
          ≡ (ok stats, record w { db = delete_all ss w.db; ext = x }))
        × (stats.scanned_count ≡ length ss)
        × (stats.scanned_count ≤ batch)
        × (stats.aborted_count ≤ stats.scanned_count)
        × (stats.removed_count ≤ stats.scanned_count)
  unfolding cleanup_expired
  cleanup_expired_lem now batch w =
      let ss = find_expired_for_cleanup now batch w.db.upload_sessions in
      let (a, r, x, la, lr, done) = cleaned ss 0 0 w in
      (
        record { scanned_count = length ss; aborted_count = a; removed_count = r },
        x,
        rw done,
        refl,
        length-take batch (select_where (is_overdue now) w.db.upload_sessions),
        omega arith,
        omega arith,
      )

-- Deleting the selected sessions leaves every session that is not overdue.
module _ (now : ℕ) where
  kept_by_one :
      (s r : UploadSession) (t : List UploadSession)
      → r.id ≢ s.id
      → Has r t
      → Has r (delete_where (λ (u : UploadSession). u.id == s.id) t)
  kept_by_one s r [] ne h = absurd h
  kept_by_one s r (u ∷ t) ne (inl e) =
      let other : (u.id == s.id) ≡ false = rw (← e) (ground arith) in rw other (inl e)
  kept_by_one s r (u ∷ t) ne (inr h) = elim (Bool-cases (u.id == s.id)) [
    | inl gone ↦ rw gone (kept_by_one s r t ne h)
    | inr stays ↦ rw stays (inr (kept_by_one s r t ne h))
  ]

  pub delete_all-Has :
      (ss : List UploadSession) (r : UploadSession) (d : DriveDb)
      → All (λ (s : UploadSession). r.id ≢ s.id) ss
      → Has r d.upload_sessions
      → Has r (delete_all ss d).upload_sessions
  delete_all-Has [] r d apart h = h
  delete_all-Has (s ∷ rest) r d apart h =
      delete_all-Has rest r (delete_session s.id d) apart.1
        (kept_by_one s r d.upload_sessions apart.0 h)

  taken-All :
      (P : UploadSession → Type 0) (n : ℕ) (t : List UploadSession) → All P t → All P (take n t)
  taken-All P zero t p = tt
  taken-All P (suc n) [] p = tt
  taken-All P (suc n) (s ∷ t) p = (p.0, taken-All P n t p.1)

-- Where session ids are unique, a session that is within its time and the grace survives every
-- cleanup.
pub cleanup-keeps :
    {X : Type 0} (cache : Cache X) (minio : ObjectStore X) (now batch : ℕ) (w : World DriveDb X)
    (r : UploadSession)
    → UniqueIds (λ (s : UploadSession). s.id) w.db.upload_sessions
    → Has r w.db.upload_sessions
    → is_overdue now r ≡ false
    → Has r (cleanup_expired cache minio now batch w).1.db.upload_sessions
cleanup-keeps cache minio now batch w r unique h early =
    let (stats, x, done, few, most, ab, rm) = cleanup_expired_lem cache minio now batch w in
    rw done (
      delete_all-Has now (find_expired_for_cleanup now batch w.db.upload_sessions) r w.db
        (taken-All now (λ (s : UploadSession). r.id ≢ s.id) batch
          (select_where (is_overdue now) w.db.upload_sessions)
          (All-mono (λ s. Has s w.db.upload_sessions × (is_overdue now s ≡ true))
            (λ (s : UploadSession). r.id ≢ s.id)
            (λ s (k, late) same.
              let one : r ≡ s =
                same_row (λ (u : UploadSession). u.id) w.db.upload_sessions r s unique h k same in
              let early' : is_overdue now s ≡ false = rw one at early in cc)
            (select_where (is_overdue now) w.db.upload_sessions)
            (select_where-All (is_overdue now) w.db.upload_sessions)))
        h)
