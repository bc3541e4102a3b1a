-- ===== src/Storage/DriveService.antt =====
-- services/api/src/drive: drive.service.ts and drive.repository.ts. Ids and times are arguments.
use terab.Base.{
  ℕ, Option, none, some, List, ◌∷◌, ◌++◌, ◌==◌, ◌&&◌, Text, codes, text_eq, if◌then◌else◌,
}
use terab.ErrorCode.{api, failure, drive_not_found, drive_forbidden}
use terab.Action.{pure, throw, or_throw, query, statement, run_in_tx, ◌>>=◌, ◌>>◌}
use terab.Table.{find_where, insert}
use terab.Storage.Schema.{DriveRow, StorageDb, StorageConfig, StorageAction}

abbrev pub personal_drive_kind : Text
personal_drive_kind = codes "PRIVATE"

abbrev pub personal_drive_name : Text
personal_drive_name = codes "내 드라이브"

unfoldable pub find_personal_by_owner_id : ℕ → List DriveRow → Option DriveRow
find_personal_by_owner_id owner t =
    find_where (λ (r : DriveRow). r.owner_id == owner && text_eq r.kind personal_drive_kind) t

unfoldable pub find_drive_by_id : ℕ → List DriveRow → Option DriveRow
find_drive_by_id id t = find_where (λ (r : DriveRow). r.id == id) t

abbrev pub personal_drive : (id now : ℕ) → (root id_text : Text) → ℕ → DriveRow
personal_drive id now root id_text owner = record {
  id = id;
  owner_id = owner;
  name = personal_drive_name;
  kind = personal_drive_kind;
  mount_path = root ++ b'/' ∷ id_text;
  created_at = now;
}

abbrev pub on_drives : (List DriveRow → List DriveRow) → StorageDb → Unit {0} × StorageDb
on_drives f d = (tt, record d { drives = f d.drives })

module _ {X : Type 0} where
  -- A missing setting throws an error of the library, number 2.
  abbrev pub setting : {A : Type 0} → Option A → StorageAction X A
  setting none = throw (failure 2)
  setting (some a) = pure a

  -- A mount path is new with its id, so the unique index has nothing to reject.
  abbrev pub create_personal : StorageConfig → (id now : ℕ) → ℕ → StorageAction X DriveRow
  create_personal config id now owner = do
    root ← setting config.drive_root
    run_in_tx (do
      statement (on_drives (insert (personal_drive id now root (config.uuid_text id) owner)))
      pure (personal_drive id now root (config.uuid_text id) owner))

  abbrev pub personal_or_new :
      StorageConfig → (id now : ℕ) → ℕ → Option DriveRow → StorageAction X DriveRow
  personal_or_new config id now owner none = create_personal config id now owner
  personal_or_new config id now owner (some drive) = pure drive

  unfoldable pub ensure_personal_drive : StorageConfig → (id now : ℕ) → ℕ → StorageAction X DriveRow
  ensure_personal_drive config id now owner = do
    existing ← query (λ d. find_personal_by_owner_id owner d.drives)
    personal_or_new config id now owner existing

  unfoldable pub find_by_id_or_throw : ℕ → ℕ → StorageAction X DriveRow
  find_by_id_or_throw id user = do
    found ← query (λ d. find_drive_by_id id d.drives)
    drive ← or_throw found drive_not_found
    if drive.owner_id == user then pure drive else throw (api drive_forbidden)
