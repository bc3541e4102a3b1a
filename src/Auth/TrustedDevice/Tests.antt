-- ===== src/Auth/TrustedDevice/Tests.antt =====
-- Runs of the trusted device service, and the theorems about it at them.
use terab.Base.{
  ℕ, ◌+◌, ◌<◌, ◌≡◌, ◌↔◌, refl, none, some, zero, suc, List, [], ◌∷◌, true, false, arith,
}
use terab.Action.{World, ok}
use terab.Auth.Schema.{TrustedDevice, AuthDb, TokenConfig, empty_auth}
use terab.Auth.TrustedDevice.{
  register, verify, find_by_token_hash, count_active_by_user_id, delete_oldest_by_user_id,
  sort_oldest, limit, place,
}
use terab.Auth.TrustedDevice.Window.{IsCapped, verifies, perform, perform-IsCapped, verify_iff}

abbrev config : TokenConfig
config = record { hash_token = λ raw. 7; refresh_exp_ms = 1000 }

abbrev device : ℕ → ℕ → TrustedDevice
device id expires = record {
  id = id;
  user_id = 4;
  token_hash = 7;
  user_agent = none;
  expires_at = expires;
  created_at = id;
}

abbrev world_of : List TrustedDevice → World AuthDb (Unit {0})
world_of t = record { db = record empty_auth { trusted_devices = t }; ext = tt; in_tx = false }

abbrev devices_from : ℕ → ℕ → List TrustedDevice
devices_from zero id = []
devices_from (suc n) id = device id 1000 ∷ devices_from n (id + 1)

-- Ten active devices and an older one that has run out: the old one makes room for an eleventh.
eleven :
    count_active_by_user_id 4 100
      (register config 20 100 100 100 [] 4 none
        (world_of (device 1 50 ∷ devices_from 10 2))).1.db.trusted_devices
    ≡ 11
unfolding count_active_by_user_id register delete_oldest_by_user_id sort_oldest limit place
eleven = refl

perform-IsCapped_example :
    IsCapped
      (perform config (verifies 500 (some []) 4) (world_of (device 1 1000 ∷ []))).db.trusted_devices
perform-IsCapped_example =
    perform-IsCapped config (verifies 500 (some []) 4) (world_of (device 1 1000 ∷ [])) (tt, tt) tt
      (omega arith, tt)

verify_iff_example :
    ((verify config 500 (some []) 4 (world_of (device 1 1000 ∷ []))).0 ≡ ok true) ↔ (
      (d : TrustedDevice) × (find_by_token_hash 7 (device 1 1000 ∷ []) ≡ some d)
      × (d.user_id ≡ 4)
      × (500 < d.expires_at))
verify_iff_example = verify_iff config 500 [] 4 (world_of (device 1 1000 ∷ []))
