-- ===== src/Drive/UploadSession/Complete.antt =====
-- `complete` of an object that has another size than was announced.
use terab.Base.{ℕ, ◌≡◌, ◌≢◌, refl, false, some, List, arith, inl, inr, ◌==◌}
use terab.ErrorCode.{api, upload_size_mismatch}
use terab.Action.{World, ok, err}
use terab.Action.Laws.{Result-cases}
use terab.Drive.Schema.{DriveDb, UploadSession, single}
use terab.Drive.Outside.{Cache, ObjectStore, Part}
use terab.Drive.UploadSession.{complete, find_session, owned, is_overdue}

module _ {X : Type 0} (cache : Cache X) (minio : ObjectStore X) where
  -- `complete` outside a transaction, of a direct upload that is in time and whose object has
  -- another size than was announced: it throws UPLOAD_SIZE_MISMATCH and the object is removed, but
  -- the session is still there, since the transaction that deletes it is rolled back.
  pub complete_mismatch :
      (id now user session size : ℕ) (parts : List Part) (s : UploadSession) (w : World DriveDb X)
      (x : X)
      → w.in_tx ≡ false
      → find_session session w.db.upload_sessions ≡ some s
      → s.user_id ≡ user
      → s.upload_kind ≡ single
      → is_overdue now s ≡ false
      → minio.stat_object s.minio_key w.ext ≡ (ok size, x)
      → size ≢ s.size
      → let (r, w') = complete cache minio id now user session parts w in
        (r ≡ err (api upload_size_mismatch))
        × (w'.ext ≡ (minio.remove_object s.minio_key x).1)
        × (find_session session w'.db.upload_sessions ≡ some s)
  unfolding complete
  complete_mismatch id now user session size parts s w x outside found own kind early stat ne =
      let mine : owned user (some s) ≡ some s = ground arith in
      let differs : (size == s.size) ≡ false = ground arith in
      rw (outside, found, mine, early)
        (simp kind (
          rw (stat, differs)
            (elim (Result-cases (minio.remove_object s.minio_key x).0) [
              | inl (e, broken) ↦ rw broken (refl, refl, found)
              | inr (done, gone) ↦ rw gone (refl, refl, found)
            ])))
