-- ===== src/Auth/Device/Handover.antt =====
-- A push token belongs to the user who registered it last.
use terab.Base.{
  ℕ, ◌≡◌, ◌≢◌, refl, true, false, Option, List, [], ◌∷◌, arith, inl, inr, Has, All, All-of_Has,
  All-mono, All-append, Bool-cases,
}
use terab.Action.{World}
use terab.Table.{UniqueIds, exists_where, insert}
use terab.Table.Laws.{
  update_where-UniqueIds, Has-of_exists_where, Has-update_where, updated, update_where_split,
}
use terab.Drive.Schema.{Text}
use terab.Auth.Schema.{Device, AuthDb}
use terab.Auth.Device.{register, upsert, has_push_token, with_owner, new_device}

abbrev pub push_of : Device → ℕ
push_of r = r.push_token

-- Every row with the token is the user's, and there is one.
abbrev pub IsOwned : ℕ → ℕ → List Device → Type 0
IsOwned user push t =
    All (λ (r : Device). r.push_token ≡ push → r.user_id ≡ user) t
    × ((r : Device) × Has r t × (r.push_token ≡ push) × (r.user_id ≡ user))

-- No row has the token, where none was found.
absent :
    (push : ℕ) (t : List Device)
    → exists_where (has_push_token push) t ≡ false
    → All (λ (r : Device). r.push_token ≢ push) t
absent push [] e = tt
absent push (r ∷ t) e = elim (Bool-cases (has_push_token push r)) [
  | inl has ↦ (let found : true ≡ false = rw has at e in cc)
  | inr other ↦ (λ same. ground arith, absent push t (rw other at e))
]

UniqueIds-insert :
    (row : Device) (t : List Device)
    → All (λ (r : Device). r.push_token ≢ row.push_token) t
    → UniqueIds push_of t
    → UniqueIds push_of (insert row t)
UniqueIds-insert row [] apart unique = (tt, tt)
UniqueIds-insert row (r ∷ t) apart unique = (
  All-append (λ (s : Device). s.push_token ≢ r.push_token) t (row ∷ []) unique.0
      (λ e. apart.0 (ground arith), tt),
  UniqueIds-insert row t apart.1 unique.1,
)

Has-insert : (row : Device) (t : List Device) → Has row (insert row t)
Has-insert row [] = inl refl
Has-insert row (r ∷ t) = inr (Has-insert row t)

module _ {X : Type 0} where
  -- Where push tokens are unique, they are after `DeviceService.register`, and the token that it
  -- registers is the user's and nobody else's.
  pub register-IsOwned :
      (id now user push : ℕ) (agent : Option Text) (w : World AuthDb X)
      → UniqueIds push_of w.db.devices
      → let w' = (register id now user push agent w).1 in
        UniqueIds push_of w'.db.devices × IsOwned user push w'.db.devices
  unfolding register upsert
  register-IsOwned id now user push agent w unique =
      elim (Bool-cases (exists_where (has_push_token push) w.db.devices)) [
        | inl there ↦
            let (r, h, fits) = Has-of_exists_where (has_push_token push) w.db.devices there in
            rw there (
              update_where-UniqueIds push_of (has_push_token push) (with_owner user agent)
                  w.db.devices (λ s. refl) unique,
              (
                update_where_split (λ (s : Device). Unit {0})
                    (λ (s : Device). s.push_token ≡ push → s.user_id ≡ user) (has_push_token push)
                    (with_owner user agent) w.db.devices (λ a u k e. refl) (λ a u k e. ground arith)
                    (All-of_Has (λ (s : Device). Unit {0}) w.db.devices (λ a k. tt)),
                (
                  updated (has_push_token push) (with_owner user agent) r,
                  Has-update_where (has_push_token push) (with_owner user agent) w.db.devices r h,
                  ground arith,
                  ground arith,
                ),
              ),
            )
        | inr gone ↦
            let apart = absent push w.db.devices gone in
            rw gone (
              UniqueIds-insert (new_device id now user push agent) w.db.devices apart unique,
              (
                All-append (λ (s : Device). s.push_token ≡ push → s.user_id ≡ user) w.db.devices
                    (new_device id now user push agent ∷ [])
                    (All-mono (λ (s : Device). s.push_token ≢ push)
                      (λ (s : Device). s.push_token ≡ push → s.user_id ≡ user)
                      (λ s ne e. absurd (ne e)) w.db.devices apart)
                    (λ e. refl, tt),
                (new_device id now user push agent, Has-insert _ w.db.devices, refl, refl),
              ),
            )
      ]
