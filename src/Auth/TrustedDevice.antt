-- ===== src/Auth/TrustedDevice.antt =====
-- services/api/src/trusted-device: trusted-device.service.ts and trusted-device.repository.ts, the
-- browsers that may skip the second factor. Ids, times and random texts are arguments.
pub mod Window
pub mod Tests
use terab.Base.{
  ℕ, zero, suc, ◌+◌, ◌-◌, ◌*◌, Bool, true, false, Option, none, some, List, [], ◌∷◌, map, length,
  leb, ltb, ◌==◌, ◌&&◌, if◌then◌else◌,
}
use terab.ErrorCode.{trusted_device_not_found}
use terab.Action.{World, Action, pure, or_throw, query, statement, run_in_tx, ◌>>=◌, ◌>>◌}
use terab.Table.{select_where, find_where, update_where, delete_where, insert, is_in}
use terab.Drive.Schema.{Text}
use terab.Auth.Schema.{TrustedDevice, AuthDb, TokenConfig}

abbrev pub trust_duration_ms : ℕ
trust_duration_ms = 30 * 24 * 60 * 60 * 1000

abbrev pub trust_absolute_max_ms : ℕ
trust_absolute_max_ms = 90 * 24 * 60 * 60 * 1000

abbrev pub max_trust_per_user : ℕ
max_trust_per_user = 10

pub record TrustedDeviceItem : Type 0 where
  pub id : ℕ
  pub user_agent : Option Text
  pub created_at : ℕ

-- ORDER BY created_at, oldest first.
unfoldable pub place : TrustedDevice → List TrustedDevice → List TrustedDevice
place a [] = a ∷ []
place a (b ∷ t) =
    let rest = place a t in if leb a.created_at b.created_at then a ∷ b ∷ t else b ∷ rest

unfoldable pub sort_oldest : List TrustedDevice → List TrustedDevice
sort_oldest [] = []
sort_oldest (a ∷ t) = place a (sort_oldest t)

-- LIMIT
unfoldable pub limit : ℕ → List TrustedDevice → List TrustedDevice
limit zero t = []
limit (suc n) [] = []
limit (suc n) (a ∷ t) = a ∷ limit n t

abbrev pub belongs_to : ℕ → TrustedDevice → Bool
belongs_to user r = r.user_id == user

unfoldable pub count_active_by_user_id : ℕ → ℕ → List TrustedDevice → ℕ
count_active_by_user_id user now t =
    length (select_where (λ (r : TrustedDevice). belongs_to user r && ltb now r.expires_at) t)

unfoldable pub delete_oldest_by_user_id : ℕ → ℕ → List TrustedDevice → List TrustedDevice
delete_oldest_by_user_id user count t =
    let oldest =
      map (λ (r : TrustedDevice). r.id)
        (limit count (sort_oldest (select_where (belongs_to user) t))) in
    delete_where (λ (r : TrustedDevice). is_in r.id oldest) t

abbrev pub find_by_token_hash : ℕ → List TrustedDevice → Option TrustedDevice
find_by_token_hash hash t = find_where (λ (r : TrustedDevice). r.token_hash == hash) t

abbrev pub with_expires_at : ℕ → TrustedDevice → TrustedDevice
with_expires_at at r = record r { expires_at = at }

unfoldable pub refresh_expires_at : ℕ → ℕ → List TrustedDevice → List TrustedDevice
refresh_expires_at id at t = update_where (λ (r : TrustedDevice). r.id == id) (with_expires_at at) t

abbrev pub new_device : (id now created : ℕ) → ℕ → ℕ → Option Text → TrustedDevice
new_device id now created user hash agent = record {
  id = id;
  user_id = user;
  token_hash = hash;
  user_agent = agent;
  expires_at = now + trust_duration_ms;
  created_at = created;
}

-- The time until which a successful `verify` at `now` extends the trust.
unfoldable pub slid : ℕ → TrustedDevice → ℕ
slid now device =
    let candidate = now + trust_duration_ms in
    let hard_cap = device.created_at + trust_absolute_max_ms in
    if ltb candidate hard_cap then candidate else hard_cap

abbrev pub on_devices : (List TrustedDevice → List TrustedDevice) → AuthDb → Unit {0} × AuthDb
on_devices f d = (tt, record d { trusted_devices = f d.trusted_devices })

abbrev pub DeviceAction : Type 0 → Type 0 → Type 0
DeviceAction X A = Action (World AuthDb X) A

module _ {X : Type 0} where
  -- The overflow is `active - (MAX - 1)`, and nothing is deleted where it is not positive.
  abbrev pub trim_excess_devices : (now : ℕ) → ℕ → DeviceAction X (Unit {0})
  trim_excess_devices now user = do
    active ← query (λ d. count_active_by_user_id user now d.trusted_devices)
    if ltb 0 (active - (max_trust_per_user - 1))
        then statement
            (on_devices (delete_oldest_by_user_id user (active - (max_trust_per_user - 1))))
        else pure tt

  -- `now` is read for the expiry, `later` by the trim, and `created` by the database.
  unfoldable pub register :
      TokenConfig → (id now later created : ℕ) (raw : Text) → ℕ → Option Text → DeviceAction X Text
  register config id now later created raw user agent = do
    run_in_tx (do
      trim_excess_devices later user
      statement
          (on_devices (insert (new_device id now created user (config.hash_token raw) agent))))
    pure raw

  abbrev pub slide_expires_at : TrustedDevice → ℕ → DeviceAction X (Unit {0})
  slide_expires_at device now =
      if ltb device.expires_at (slid now device)
      then statement (on_devices (refresh_expires_at device.id (slid now device)))
      else pure tt

  abbrev pub verify_found : (now : ℕ) → Option TrustedDevice → ℕ → DeviceAction X Bool
  verify_found now none user = pure false
  verify_found now (some device) user =
      if device.user_id == user
      then (if leb device.expires_at now
          then pure false
          else do slide_expires_at device now; pure true)
      else pure false

  -- An absent cookie and an empty one are `none`.
  unfoldable pub verify : TokenConfig → (now : ℕ) → Option Text → ℕ → DeviceAction X Bool
  verify config now none user = pure false
  verify config now (some raw) user = do
    device ← query (λ d. find_by_token_hash (config.hash_token raw) d.trusted_devices)
    verify_found now device user

  unfoldable pub list : ℕ → DeviceAction X (List TrustedDeviceItem)
  list user = query (λ d.
      map
        (λ (r : TrustedDevice). record {
          id = r.id;
          user_agent = r.user_agent;
          created_at = r.created_at;
        })
        (select_where (belongs_to user) d.trusted_devices))

  unfoldable pub revoke : ℕ → ℕ → DeviceAction X (Unit {0})
  revoke id user = do
    device ←
        query (λ d.
          find_where (λ (r : TrustedDevice). r.id == id && r.user_id == user) d.trusted_devices)
    or_throw device trusted_device_not_found
    statement (on_devices (delete_where (λ (r : TrustedDevice). r.id == id)))
