-- ===== src/Storage/MountCredential/Revoking.antt =====
-- `revoke` of services/api/src/mount-credential/mount-credential.service.ts works once.
use terab.Base.{
  ℕ, ◌≡◌, refl, sym, ◌∙◌, false, Option, none, some, List, Text, inl, inr, Option-cases, Bool-cases,
  is_null, ◌==◌, ==-refl,
}
use terab.ErrorCode.{Error, api, mount_credential_revoked}
use mathlib.Core.Path.{subst}
use terab.Action.{World, ok, err}
use terab.Action.Laws.{Result-cases, bind-ok}
use terab.Table.Laws.{find-update_where}
use terab.Storage.Schema.{StorageDb, StorageOutside, StorageConfig, MountCredential}
use terab.Storage.Agent.{delete_target}
use terab.Storage.SecretStore.{remove, is_plain}
use terab.Storage.MountCredential.{
  revoke, release_target, is_missing, soft_revoke, find_by_id_and_user_id, is_owned,
  with_revoked_at,
}
use terab.Storage.MountCredential.Compensation.{delete_target-db}

revoked_find :
    (id user now : ℕ) (t : List MountCredential) (row : MountCredential)
    → find_by_id_and_user_id id user t ≡ some row
    → find_by_id_and_user_id id user (soft_revoke row.id now t) ≡ some (with_revoked_at now row)
unfolding find_by_id_and_user_id soft_revoke
revoked_find id user now t row found = rw (==-refl row.id) at (
    find-update_where (is_owned id user) (λ (r : MountCredential). r.id == row.id)
      (with_revoked_at now) t row (λ r. refl) found)

refused-not-ok : {A : Type 0} {e : Error} {a : A} → ¬ (err e ≡ ok a)
refused-not-ok h = cc

module _ {X : Type 0} (config : StorageConfig) (out : StorageOutside X) where
  release_target-db :
      (iqn : Option Text) (w : World StorageDb X) → (release_target config out iqn w).1.db ≡ w.db
  release_target-db none w = refl
  release_target-db (some iqn) w =
      let kept = delete_target-db config out (λ name x. false) iqn w in
      elim (Result-cases (delete_target out iqn w).0) [
        | inr (u, gone) ↦ rw gone kept
        | inl (e, failed) ↦ elim (Bool-cases (is_missing e)) [
          | inl missing ↦ rw (failed, missing) kept
          | inr other ↦ rw (failed, other) kept
        ]
      ]

  remove-db : (name : Text) (w : World StorageDb X) → (remove out name w).1.db ≡ w.db
  unfolding remove
  remove-db name w = elim (Bool-cases (is_plain name)) [
    | inl plain ↦ rw plain refl
    | inr odd ↦ rw odd refl
  ]

  revoked-refused :
      (now user id : ℕ) (w : World StorageDb X) (row : MountCredential)
      → find_by_id_and_user_id id user w.db.mount_credentials ≡ some row
      → is_null row.revoked_at ≡ false
      → (revoke config out now user id w).0 ≡ err (api mount_credential_revoked)
  unfolding revoke
  revoked-refused now user id w row found over = rw (found, over) refl

  revoke-IsRevoked :
      (now user id : ℕ) (w : World StorageDb X)
      → (revoke config out now user id w).0 ≡ ok tt
      → (row : MountCredential) × (find_by_id_and_user_id id user
            (revoke config out now user id w).1.db.mount_credentials
          ≡ some (with_revoked_at now row))
  unfolding revoke
  revoke-IsRevoked now user id w done =
      elim (Option-cases (find_by_id_and_user_id id user w.db.mount_credentials)) [
        | inl missing ↦ absurd (refused-not-ok (rw missing at done))
        | inr (row, found) ↦ elim (Bool-cases (is_null row.revoked_at)) [
          | inr over ↦ absurd (refused-not-ok (rw (found, over) at done))
          | inl free ↦
              let e = rw (found, free) at done in
              let (u, released, rest, same1) = bind-ok (release_target config out row.iqn) _ w e in
              let w1 = (release_target config out row.iqn w).1 in
              let (v, removed, rest2, same2) = bind-ok (remove out row.secret_ref) _ w1 rest in
              let kept = remove-db row.secret_ref w1 ∙ release_target-db row.iqn w in
              let after = revoked_find id user now w.db.mount_credentials row found in
              (
                row,
                rw (found, free)
                    (subst
                      (λ p.
                        find_by_id_and_user_id id user p.1.db.mount_credentials
                        ≡ some (with_revoked_at now row))
                      (sym (same1 ∙ same2)) (rw kept after)),
              )
        ]
      ]

  -- A credential that `revoke` has revoked for its user is refused with MOUNT_CREDENTIAL_REVOKED
  -- when it is revoked again at once.
  pub revoke-once :
      (now now' user id : ℕ) (w : World StorageDb X)
      → (revoke config out now user id w).0 ≡ ok tt
      → (revoke config out now' user id (revoke config out now user id w).1).0
        ≡ err (api mount_credential_revoked)
  revoke-once now now' user id w done =
      let (row, found) = revoke-IsRevoked now user id w done in
      revoked-refused now' user id (revoke config out now user id w).1 (with_revoked_at now row)
        found refl
