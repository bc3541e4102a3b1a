-- ===== src/Storage/MountCredential/Compensation.antt =====
-- A failed `issue` of services/api/src/mount-credential/mount-credential.service.ts leaves nothing.
use terab.Base.{
  ℕ, ◌≡◌, ◌≢◌, refl, sym, ◌∙◌, ap, Bool, true, false, Option, none, some, Text, inl, inr,
  Option-cases, Bool-cases, is_null, ◌==◌,
}
use terab.ErrorCode.{Error, api, mount_credential_secret_write_failed}
use terab.Action.{World, ok, err, run_in_tx}
use terab.Action.Laws.{Result-cases, run_in_tx_atomic, catch-err, bind-split}
use terab.Storage.Schema.{DriveRow, StorageDb, StorageOutside, StorageConfig, delete_target_at}
use terab.Storage.Agent.{delete_target}
use terab.Storage.SecretStore.{write, remove, is_plain}
use terab.Storage.DriveService.{
  ensure_personal_drive, find_by_id_or_throw, find_personal_by_owner_id, find_drive_by_id,
}
use terab.Storage.MountCredential.{
  IssueDraws, issue, issue_for, issue_guarded, issue_body, compensate, undo_target, secret_ref_of,
  iqn_of, find_drive, find_active_by_drive_and_protocol, protocol_iscsi, is_active_unique_violation,
  is_ok, reach_target,
}
use mathlib.Core.Path.{subst}

-- A file that was removed is not there; `holds` says which files are.
abbrev pub IsStore : {X : Type 0} → StorageOutside X → (Text → X → Bool) → Type 0
IsStore {X} out holds = (name : Text) (x : X) → holds name (out.remove_file name x) ≡ false

module _ {X : Type 0} (config : StorageConfig) (out : StorageOutside X)
    (holds : Text → X → Bool) where
  -- The credentials are as before, and there is no secret of the name.
  abbrev pub IsClean : Text → World StorageDb X → World StorageDb X → Type 0
  IsClean name before after =
      (after.db.mount_credentials ≡ before.db.mount_credentials) × (holds name after.ext ≡ false)

  remove-clean :
      IsStore out holds
      → (name : Text) (w : World StorageDb X) → is_plain name ≡ true
      → ((remove out name w).0 ≡ ok tt)
        × ((remove out name w).1.db ≡ w.db)
        × (holds name (remove out name w).1.ext ≡ false)
  unfolding remove
  remove-clean store name w plain = rw plain (refl, refl, store name w.ext)

  pub delete_target-db :
      (iqn : Text) (w : World StorageDb X) → (delete_target out iqn w).1.db ≡ w.db
  unfolding delete_target
  delete_target-db iqn w = elim (Option-cases (out.request (delete_target_at iqn) w.ext).0) [
    | inl down ↦ rw down refl
    | inr (r, answered) ↦ elim (Bool-cases (r.status_code == 204)) [
      | inl gone ↦ rw (answered, gone) refl
      | inr other ↦ rw (answered, other) refl
    ]
  ]

  undo_target-keeps :
      (created : Bool) (iqn : Text) (w : World StorageDb X)
      → ((undo_target config out created iqn w).0 ≡ ok tt)
        × ((undo_target config out created iqn w).1.db ≡ w.db)
  unfolding undo_target
  undo_target-keeps false iqn w = (refl, refl)
  undo_target-keeps true iqn w =
      let kept = delete_target-db iqn w in
      elim (Result-cases (delete_target out iqn w).0) [
        | inl (e, failed) ↦ rw failed (refl, kept)
        | inr (tt, done) ↦ rw done (refl, kept)
      ]

  compensate-IsClean :
      IsStore out holds
      → (created : Bool) (iqn name : Text) (e : Error) (w : World StorageDb X)
      → is_plain name ≡ true
      → IsClean name w (compensate config out created iqn name e w).1
  compensate-IsClean store created iqn name e w plain =
      let (removed, db, gone) = remove-clean store name w plain in
      let w1 = (undo_target config out created iqn w).1 in
      let (undone, db1) = undo_target-keeps created iqn w in
      let (removed1, db2, gone1) = remove-clean store name w1 plain in
      elim (Bool-cases (is_active_unique_violation e)) [
        | inl duplicate ↦
            rw (duplicate, removed) (ap (λ (d : StorageDb). d.mount_credentials) db, gone)
        | inr other ↦
            rw (other, undone, removed1)
              (ap (λ (d : StorageDb). d.mount_credentials) (db2 ∙ db1), gone1)
      ]

  find_drive-keeps :
      (drawn : IssueDraws) (user : ℕ) (drive : Option ℕ) (w : World StorageDb X)
      → w.in_tx ≡ false
      → let w' = (find_drive config out drawn user drive w).1 in
        (w'.db.mount_credentials ≡ w.db.mount_credentials) × (w'.ext ≡ w.ext) × (w'.in_tx ≡ false)
  unfolding ensure_personal_drive find_by_id_or_throw
  find_drive-keeps drawn user none w outside =
      elim (Option-cases (find_personal_by_owner_id user w.db.drives)) [
        | inr (drive, there) ↦ rw there (refl, refl, outside)
        | inl missing ↦ elim (Option-cases config.drive_root) [
          | inl unset ↦ rw (missing, unset) (refl, refl, outside)
          | inr (root, set) ↦ rw (missing, set, outside) (refl, refl, refl)
        ]
      ]
  find_drive-keeps drawn user (some id) w outside =
      elim (Option-cases (find_drive_by_id id w.db.drives)) [
        | inl missing ↦ rw missing (refl, refl, outside)
        | inr (drive, there) ↦ elim (Bool-cases (drive.owner_id == user)) [
          | inl own ↦ rw (there, own) (refl, refl, outside)
          | inr foreign ↦ rw (there, foreign) (refl, refl, outside)
        ]
      ]

  issue_guarded-IsClean :
      IsStore out holds
      → (drawn : IssueDraws) (user : ℕ) (drive : DriveRow) (w : World StorageDb X) {e : Error}
      → is_plain (secret_ref_of drawn) ≡ true
      → w.in_tx ≡ false
      → (issue_guarded config out drawn user drive w).0 ≡ err e
      → IsClean (secret_ref_of drawn) w (issue_guarded config out drawn user drive w).1
  issue_guarded-IsClean store drawn user drive w plain outside failed =
      let m = issue_body config out drawn user drive in
      let name = secret_ref_of drawn in
      let created =
        is_ok (reach_target config out drawn user drive (record w { in_tx = true })).0 in
      let handler = compensate config out created (iqn_of config drive) name in
      let (e', broken, same) = catch-err (run_in_tx m) handler w failed in
      let w1 = (run_in_tx m w).1 in
      let (credentials, gone) =
        compensate-IsClean store created (iqn_of config drive) name e' w1 plain in
      let put_back = run_in_tx_atomic m w outside broken in
      subst (λ p. IsClean name w p.1) (sym same)
        (credentials ∙ ap (λ (d : StorageDb). d.mount_credentials) put_back, gone)

  issue_for-IsClean :
      IsStore out holds
      → (drawn : IssueDraws) (user : ℕ) (drive : DriveRow) (w : World StorageDb X) {e : Error}
      → is_plain (secret_ref_of drawn) ≡ true
      → w.in_tx ≡ false
      → holds (secret_ref_of drawn) w.ext ≡ false
      → (issue_for config out drawn user drive w).0 ≡ err e
      → e ≢ api mount_credential_secret_write_failed
      → IsClean (secret_ref_of drawn) w (issue_for config out drawn user drive w).1
  unfolding write
  issue_for-IsClean store drawn user drive w {e} plain outside absent failed other =
      let name = secret_ref_of drawn in
      let existing =
        find_active_by_drive_and_protocol drive.id user protocol_iscsi w.db.mount_credentials in
      elim (Bool-cases (is_null existing)) [
        | inr active ↦ rw active (refl, absent)
        | inl free ↦ elim (Bool-cases (out.write_file name drawn.password w.ext).0) [
          | inr full ↦
              let f : err (api mount_credential_secret_write_failed) ≡ err e =
                rw (free, plain, full) at failed in
              absurd (other cc)
          | inl written ↦
              let w1 = record w { ext = (out.write_file name drawn.password w.ext).1 } in
              rw (free, plain, written)
                (issue_guarded-IsClean store drawn user drive w1 plain outside
                  (rw (free, plain, written) at failed))
        ]
      ]

  -- With a store that does not hold what was removed, a call of `issue` outside a transaction,
  -- under a fresh secret name without slashes and double dots, that fails for any reason but
  -- MOUNT_CREDENTIAL_SECRET_WRITE_FAILED leaves the credentials as they were and no secret of that
  -- name.
  pub issue-cleans :
      IsStore out holds
      → (drawn : IssueDraws) (user : ℕ) (drive : Option ℕ) (w : World StorageDb X) {e : Error}
      → is_plain (secret_ref_of drawn) ≡ true
      → w.in_tx ≡ false
      → holds (secret_ref_of drawn) w.ext ≡ false
      → (issue config out drawn user drive w).0 ≡ err e
      → e ≢ api mount_credential_secret_write_failed
      → IsClean (secret_ref_of drawn) w (issue config out drawn user drive w).1
  unfolding issue
  issue-cleans store drawn user drive w plain outside absent failed other =
      let name = secret_ref_of drawn in
      let m = find_drive config out drawn user drive in
      let w1 = (m w).1 in
      let (credentials, ext, closed) = find_drive-keeps drawn user drive w outside in
      let absent1 : holds name w1.ext ≡ false = ap (holds name) ext ∙ absent in
      elim (bind-split m (issue_for config out drawn user) w failed) [
        | inl (lost, same) ↦ subst (λ v. IsClean name w v) (sym same) (credentials, absent1)
        | inr (row, found, refused, same) ↦
            let (kept, gone) =
              issue_for-IsClean store drawn user row w1 plain closed absent1 refused other in
            subst (λ p. IsClean name w p.1) (sym same) (kept ∙ credentials, gone)
      ]
