-- ===== src/Auth/Device.antt =====
-- services/api/src/device: device.service.ts and device.repository.ts, the devices that get push
-- messages. Ids and times are arguments.
pub mod Handover
pub mod Tests
use terab.Base.{ℕ, Option, none, some, List, map, ◌==◌, ◌&&◌, Bool, if◌then◌else◌}
use terab.ErrorCode.{device_not_found}
use terab.Action.{World, Action, pure, or_throw, query, statement, ◌>>=◌, ◌>>◌}
use terab.Table.{select_where, find_where, update_where, delete_where, exists_where, insert}
use terab.Drive.Schema.{Text}
use terab.Auth.Schema.{Device, AuthDb}

pub record DeviceItem : Type 0 where
  pub id : ℕ
  pub user_agent : Option Text
  pub created_at : ℕ

abbrev pub has_push_token : ℕ → Device → Bool
has_push_token push r = r.push_token == push

abbrev pub with_owner : ℕ → Option Text → Device → Device
with_owner user agent r = record r { user_id = user; user_agent = agent }

abbrev pub new_device : (id now : ℕ) → ℕ → ℕ → Option Text → Device
new_device id now user push agent = record {
  id = id;
  user_id = user;
  push_token = push;
  user_agent = agent;
  created_at = now;
}

-- INSERT … ON CONFLICT (push_token) DO UPDATE SET user_id, user_agent
unfoldable pub upsert : (id now : ℕ) → ℕ → ℕ → Option Text → List Device → List Device
upsert id now user push agent t =
    if exists_where (has_push_token push) t
    then update_where (has_push_token push) (with_owner user agent) t
    else insert (new_device id now user push agent) t

abbrev pub find_by_user_id : ℕ → List Device → List Device
find_by_user_id user t = select_where (λ (r : Device). r.user_id == user) t

abbrev pub on_push_devices : (List Device → List Device) → AuthDb → Unit {0} × AuthDb
on_push_devices f d = (tt, record d { devices = f d.devices })

abbrev pub PushAction : Type 0 → Type 0 → Type 0
PushAction X A = Action (World AuthDb X) A

module _ {X : Type 0} where
  unfoldable pub register : (id now : ℕ) → ℕ → ℕ → Option Text → PushAction X (Unit {0})
  register id now user push agent = statement (on_push_devices (upsert id now user push agent))

  unfoldable pub list : ℕ → PushAction X (List DeviceItem)
  list user = query (λ d.
      map
        (λ (r : Device). record { id = r.id; user_agent = r.user_agent; created_at = r.created_at })
        (find_by_user_id user d.devices))

  unfoldable pub remove : ℕ → ℕ → PushAction X (Unit {0})
  remove id user = do
    device ← query (λ d. find_where (λ (r : Device). r.id == id && r.user_id == user) d.devices)
    or_throw device device_not_found
    statement (on_push_devices (delete_where (λ (r : Device). r.id == id)))

  unfoldable pub find_push_tokens_by_user_id : ℕ → PushAction X (List ℕ)
  find_push_tokens_by_user_id user =
      query (λ d. map (λ (r : Device). r.push_token) (find_by_user_id user d.devices))

  unfoldable pub deactivate_by_push_token : ℕ → ℕ → PushAction X (Unit {0})
  deactivate_by_push_token user push =
      statement
        (on_push_devices (delete_where (λ (r : Device). r.user_id == user && r.push_token == push)))
