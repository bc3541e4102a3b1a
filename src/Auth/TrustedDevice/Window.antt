-- ===== src/Auth/TrustedDevice/Window.antt =====
-- How long a browser is trusted.
use terab.Base.{
  ap, sym, ◌∙◌, ◌↔◌, ◌&&◌, Has, All-of_Has, ℕ, ◌+◌, ◌≤◌, ◌<◌, ◌≡◌, refl, Bool, true, false, Option,
  none, some, List, [], ◌∷◌, arith, inl, inr, ◌==◌, leb, ltb, ◌-◌, All, All-Has, All-append,
  Option-cases, Bool-cases,
}
use terab.Action.{World, ok}
use terab.Table.{UniqueIds, find_where, delete_where, insert}
use terab.Table.Laws.{find_where-Has, update_where_split, same_row}
use terab.Drive.Schema.{Text}
use terab.Auth.Schema.{TrustedDevice, AuthDb, TokenConfig}
use terab.Auth.TrustedDevice.{
  trust_duration_ms, trust_absolute_max_ms, find_by_token_hash, with_expires_at, refresh_expires_at,
  new_device, slid, delete_oldest_by_user_id, count_active_by_user_id, register, verify, revoke,
}

-- No device is trusted for longer than the hard cap after it was created.
abbrev pub IsCapped : List TrustedDevice → Type 0
IsCapped t = All (λ (r : TrustedDevice). r.expires_at ≤ r.created_at + trust_absolute_max_ms) t

delete_where-All :
    {A : Type 0} (Q : A → Type 0) (p : A → Bool) (t : List A) → All Q t → All Q (delete_where p t)
delete_where-All Q p [] q = tt
delete_where-All Q p (r ∷ t) q = elim (Bool-cases (p r)) [
  | inl hit ↦ rw hit (delete_where-All Q p t q.1)
  | inr kept ↦ rw kept (q.0, delete_where-All Q p t q.1)
]

slid-le :
    (now : ℕ) (device : TrustedDevice) → slid now device ≤ device.created_at + trust_absolute_max_ms
unfolding slid
slid-le now device = ground arith

-- The calls of the trusted device service that write, with what they draw.
pub data DeviceCall : Type 0 where
  registers : (id now later created : ℕ) → Text → ℕ → Option Text → DeviceCall
  verifies : (now : ℕ) → Option Text → ℕ → DeviceCall
  revokes : (id user : ℕ) → DeviceCall

-- The database's clock is at most 60 days behind the service's.
abbrev pub IsTimely : DeviceCall → Type 0
IsTimely (registers id now later created raw user agent) =
    now + trust_duration_ms ≤ created + trust_absolute_max_ms
IsTimely (verifies now raw user) = Unit
IsTimely (revokes id user) = Unit

trimmed :
    (user count : ℕ) (t : List TrustedDevice)
    → IsCapped t
    → IsCapped (delete_oldest_by_user_id user count t)
unfolding delete_oldest_by_user_id
trimmed user count t capped =
    delete_where-All (λ (r : TrustedDevice). r.expires_at ≤ r.created_at + trust_absolute_max_ms) _
      t capped

-- The row with the id of the device is the device.
extended :
    (now : ℕ) (device : TrustedDevice) (t : List TrustedDevice)
    → UniqueIds (λ (r : TrustedDevice). r.id) t
    → Has device t
    → IsCapped t
    → IsCapped (refresh_expires_at device.id (slid now device) t)
unfolding refresh_expires_at
extended now device t unique h capped =
    update_where_split
      (λ (r : TrustedDevice). Has r t × (r.expires_at ≤ r.created_at + trust_absolute_max_ms))
      (λ (r : TrustedDevice). r.expires_at ≤ r.created_at + trust_absolute_max_ms)
      (λ (r : TrustedDevice). r.id == device.id) (with_expires_at (slid now device)) t
      (λ a (k, old) fits.
        let one : a ≡ device =
          same_row (λ (r : TrustedDevice). r.id) t a device unique k h (ground arith) in
        rw one (slid-le now device))
      (λ a (k, old) misses. old)
      (All-of_Has
        (λ (r : TrustedDevice). Has r t × (r.expires_at ≤ r.created_at + trust_absolute_max_ms)) t
        (λ a k. (
          k,
          All-Has (λ (r : TrustedDevice). r.expires_at ≤ r.created_at + trust_absolute_max_ms) t
              capped k,
        )))

module _ {X : Type 0} (config : TokenConfig) where
  abbrev pub perform : DeviceCall → World AuthDb X → World AuthDb X
  perform (registers id now later created raw user agent) w =
      (register config id now later created raw user agent w).1
  perform (verifies now raw user) w = (verify config now raw user w).1
  perform (revokes id user) w = (revoke id user w).1

  register-IsCapped :
      (id now later created : ℕ) (raw : Text) (user : ℕ) (agent : Option Text) (w : World AuthDb X)
      → now + trust_duration_ms ≤ created + trust_absolute_max_ms
      → IsCapped w.db.trusted_devices
      → IsCapped (register config id now later created raw user agent w).1.db.trusted_devices
  unfolding register
  register-IsCapped id now later created raw user agent w timely capped =
      elim (Bool-cases w.in_tx) [
        | inl inside ↦
            elim (Bool-cases
              (ltb 0 (count_active_by_user_id user later w.db.trusted_devices - 9))) [
                | inl full ↦
                    simp (inside, full) (entered _ (trimmed user _ w.db.trusted_devices capped))
                | inr room ↦ simp (inside, room) (entered _ capped)
              ]
        | inr outside ↦
            elim (Bool-cases
              (ltb 0 (count_active_by_user_id user later w.db.trusted_devices - 9))) [
                | inl full ↦
                    simp (outside, full) (entered _ (trimmed user _ w.db.trusted_devices capped))
                | inr room ↦ simp (outside, room) (entered _ capped)
              ]
      ]
    where
      entered :
          (t : List TrustedDevice)
          → IsCapped t
          → IsCapped (insert (new_device id now created user (config.hash_token raw) agent) t)
      entered t c =
          All-append (λ (r : TrustedDevice). r.expires_at ≤ r.created_at + trust_absolute_max_ms) t
            (new_device id now created user (config.hash_token raw) agent ∷ []) c (timely, tt)

  verify-IsCapped :
      (now : ℕ) (raw : Option Text) (user : ℕ) (w : World AuthDb X)
      → UniqueIds (λ (r : TrustedDevice). r.id) w.db.trusted_devices
      → IsCapped w.db.trusted_devices
      → IsCapped (verify config now raw user w).1.db.trusted_devices
  unfolding verify
  verify-IsCapped now none user w unique capped = capped
  verify-IsCapped now (some raw) user w unique capped =
      elim (Option-cases (find_by_token_hash (config.hash_token raw) w.db.trusted_devices)) [
        | inl missing ↦ rw missing capped
        | inr (device, found) ↦ rw found (elim (Bool-cases (device.user_id == user)) [
          | inr other ↦ rw other capped
          | inl own ↦ rw own (elim (Bool-cases (leb device.expires_at now)) [
            | inl late ↦ rw late capped
            | inr early ↦ rw early (elim (Bool-cases (ltb device.expires_at (slid now device))) [
              | inr kept ↦ rw kept capped
              | inl longer ↦ rw longer (
                  extended now device w.db.trusted_devices unique
                    (find_where-Has (λ (r : TrustedDevice). r.token_hash == config.hash_token raw)
                      w.db.trusted_devices device found).0
                    capped)
            ])
          ])
        ])
      ]

  revoke-IsCapped :
      (id user : ℕ) (w : World AuthDb X)
      → IsCapped w.db.trusted_devices
      → IsCapped (revoke id user w).1.db.trusted_devices
  unfolding revoke
  revoke-IsCapped id user w capped =
      elim (Option-cases (
        find_where (λ (r : TrustedDevice). r.id == id && r.user_id == user) w.db.trusted_devices)) [
          | inl missing ↦ rw missing capped
          | inr (device, found) ↦ rw found (
              delete_where-All
                (λ (r : TrustedDevice). r.expires_at ≤ r.created_at + trust_absolute_max_ms)
                (λ (r : TrustedDevice). r.id == id) w.db.trusted_devices capped)
        ]

  -- Whatever call of `register`, `verify` and `revoke` the trusted device service performs, and
  -- however it ends, no device is trusted for more than 90 days after it was created, where device
  -- ids are unique and the database's clock is at most 60 days behind the service's.
  pub perform-IsCapped :
      (call : DeviceCall) (w : World AuthDb X)
      → UniqueIds (λ (r : TrustedDevice). r.id) w.db.trusted_devices
      → IsTimely call
      → IsCapped w.db.trusted_devices
      → IsCapped (perform call w).db.trusted_devices
  perform-IsCapped (registers id now later created raw user agent) w unique timely =
      register-IsCapped id now later created raw user agent w timely
  perform-IsCapped (verifies now raw user) w unique timely = verify-IsCapped now raw user w unique
  perform-IsCapped (revokes id user) w unique timely = revoke-IsCapped id user w

  -- `TrustedDeviceService.verify` accepts a token exactly where it finds a device of the user
  -- whose trust has not run out.
  pub verify_iff :
      (now : ℕ) (raw : Text) (user : ℕ) (w : World AuthDb X)
      → ((verify config now (some raw) user w).0 ≡ ok true) ↔ (
          (device : TrustedDevice) × (find_by_token_hash
              (config.hash_token raw)
              w.db.trusted_devices
            ≡ some device)
          × (device.user_id ≡ user)
          × (now < device.expires_at))
  unfolding verify
  verify_iff now raw user w = (to, from)
    where
      answer :
          (device : TrustedDevice)
          → find_by_token_hash (config.hash_token raw) w.db.trusted_devices ≡ some device
          → (verify config now (some raw) user w).0
            ≡ ok (device.user_id == user && ltb now device.expires_at)
      answer device found = rw found (elim (Bool-cases (device.user_id == user)) [
        | inr other ↦ rw other refl
        | inl own ↦ rw own (elim (Bool-cases (leb device.expires_at now)) [
          | inl late ↦
              let run_out : ltb now device.expires_at ≡ false = ground arith in
              rw (late, run_out) refl
          | inr early ↦
              let lasts : ltb now device.expires_at ≡ true = ground arith in
              rw (early, lasts)
                (elim (Bool-cases (ltb device.expires_at (slid now device))) [
                  | inl longer ↦ rw longer refl
                  | inr kept ↦ rw kept refl
                ])
        ])
      ])

      value : (b : Bool) → ok b ≡ ok true → b ≡ true
      value true e = refl
      value false e = cc

      IsGood : Type 0
      IsGood =
          (device : TrustedDevice) × (find_by_token_hash (config.hash_token raw)
              w.db.trusted_devices
            ≡ some device)
          × (device.user_id ≡ user)
          × (now < device.expires_at)

      to : (verify config now (some raw) user w).0 ≡ ok true → IsGood
      to e = elim (Option-cases (find_by_token_hash (config.hash_token raw) w.db.trusted_devices)) [
        | inl missing ↦ (let refused : ok false ≡ ok true = rw missing at e in cc)
        | inr (device, found) ↦
            let yes : (device.user_id == user && ltb now device.expires_at) ≡ true =
              value _ (sym (answer device found) ∙ e) in
            (device, found, ground arith, ground arith)
      ]

      from : IsGood → (verify config now (some raw) user w).0 ≡ ok true
      from (device, found, own, lasts) =
          let yes : (device.user_id == user && ltb now device.expires_at) ≡ true = ground arith in
          answer device found ∙ ap ok yes
