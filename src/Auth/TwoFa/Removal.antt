-- ===== src/Auth/TwoFa/Removal.antt =====
-- `removeStrategy` of services/api/src/twofa/twofa.service.ts with the strategies it calls.
use terab.Base.{
  ℕ, ◌≡◌, ◌≢◌, refl, false, List, [], ◌∷◌, Has, inl, inr, Bool-cases, ◌==◌, arith, ◌+◌,
}
use terab.ErrorCode.{
  Error, api, forbidden, twofa_setup_not_supported, twofa_strategy_not_found,
  twofa_last_strategy_cannot_remove,
}
use terab.Action.{World, err}
use terab.Table.{select_where, delete_where}
use terab.Auth.Schema.{TotpRow, AuthDb}
use terab.Auth.BackupCode.{list, find_unused_by_user_id}
use terab.Auth.TwoFa.Totp.{InstanceId, revoke_strategy, delete_totp, find_totp, instances_of}
use terab.Auth.TwoFa.Service.{
  StrategyType, push, totp, passkey, backup_code, remove_strategy, count_remaining, revoke_by_type,
  remaining_of, is_totp, is_backup_code, backup_instances,
}

-- No row of a one-time password has the user's id for its own.
abbrev pub IsApart : ℕ → List TotpRow → Type 0
IsApart user t = (r : TotpRow) → Has r t → r.id ≢ user

select-none :
    (user : ℕ) (t : List TotpRow)
    → IsApart user t
    → (select_where (λ (r : TotpRow). r.id == user) t ≡ [])
      × (delete_where (λ (r : TotpRow). r.id == user) t ≡ t)
select-none user [] apart = (refl, refl)
select-none user (r ∷ t) apart =
    let (none_chosen, all_kept) = select-none user t (λ s h. apart s (inr h)) in
    let other : (r.id == user) ≡ false = let differs = apart r (inl refl) in ground arith in
    (rw (other, none_chosen) refl, rw (other, all_kept) refl)

module _ {X : Type 0} where
  revoke_by_type-refused :
      (type : StrategyType) (user : ℕ) (id : InstanceId) (w : World AuthDb X)
      → IsApart user w.db.totps
      → (e : Error) × (revoke_by_type type user id w ≡ (err e, w))
  unfolding revoke_strategy delete_totp
  revoke_by_type-refused push user id w apart = (api twofa_setup_not_supported, refl)
  revoke_by_type-refused totp user id w apart =
      let (none_chosen, all_kept) = select-none user w.db.totps apart in
      (api forbidden, rw (none_chosen, all_kept) refl)
  revoke_by_type-refused passkey user id w apart = (api twofa_strategy_not_found, refl)
  revoke_by_type-refused backup_code user id w apart = (api twofa_setup_not_supported, refl)

  -- Where no one-time password has the user's id for its own id, `removeStrategy` throws for every
  -- type and every instance and changes nothing.
  pub remove_strategy-refused :
      (type : StrategyType) (user : ℕ) (id : InstanceId) (w : World AuthDb X)
      → IsApart user w.db.totps
      → (e : Error) × (remove_strategy user type id w ≡ (err e, w))
  unfolding remove_strategy count_remaining list
  remove_strategy-refused type user id w apart =
      let remaining =
        remaining_of (is_totp type) id (instances_of (find_totp user w.db.totps))
        + remaining_of (is_backup_code type) id
            (backup_instances (find_unused_by_user_id user w.db.backup_codes)) in
      elim (Bool-cases (remaining == 0)) [
        | inl last ↦ (api twofa_last_strategy_cannot_remove, rw last refl)
        | inr more ↦
            let (e, refused) = revoke_by_type-refused type user id w apart in (e, rw more refused)
      ]
