-- ===== src/Auth/Device/Tests.antt =====
-- A run of the device service, and the theorem about it at it.
use terab.Base.{◌≡◌, refl, none, [], ◌∷◌, false}
use terab.Action.{World, ok}
use terab.Table.{UniqueIds}
use terab.Auth.Schema.{AuthDb, empty_auth}
use terab.Auth.Device.{register, upsert, new_device, find_push_tokens_by_user_id}
use terab.Auth.Device.Handover.{push_of, IsOwned, register-IsOwned}

abbrev phone : World AuthDb (Unit {0})
phone = record {
  db = record empty_auth { devices = new_device 1 0 4 77 none ∷ [] };
  ext = tt;
  in_tx = false;
}

no_longer_theirs : (find_push_tokens_by_user_id 4 (register 2 10 5 77 none phone).1).0 ≡ ok []
unfolding find_push_tokens_by_user_id register upsert
no_longer_theirs = refl

register-IsOwned_example :
    let w' = (register 2 10 5 77 none phone).1 in
    UniqueIds push_of w'.db.devices × IsOwned 5 77 w'.db.devices
register-IsOwned_example = register-IsOwned 2 10 5 77 none phone (tt, tt)
