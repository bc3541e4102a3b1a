-- ===== src/Lib.antt =====
-- terab: a self-hosted file manager. The API (services/api/src, NestJS over PostgreSQL, Redis and
-- MinIO) keeps the drive (folders, files, a trash and uploads) and who may use it. A controller calls
-- one service method, which calls repositories (SQL), the cache and the object store.
--
-- The model. A service method is an action (Action.antt) on a world: the database, whatever stands
-- outside it, and whether the call runs in a transaction. A rejected promise is an `err` with the world
-- that the calls before it left; `run_in_tx` (services/api/src/database/core/service.core.ts) puts the
-- database back and leaves the outside as it is. A table is a list of rows and a statement a function
-- on it (Table.antt); Table/Recursive.antt evaluates WITH RECURSIVE as PostgreSQL documents it. The
-- uuids and the times that a method draws are its arguments.
--
-- The files:
--   ErrorCode.antt               services/api/src/common/exceptions/error-code.enum.ts
--   Action.antt, Table.antt      services/api/src/database: transactions, and SQL over lists of rows
--   Drive/Schema.antt            services/api/src/database/schema: folders, files, uploadSessions
--   Drive/Outside.antt           the cache manager and the MinIO client, as parameters
--   Drive/FolderRepository.antt  services/api/src/folder/folder.repository.ts
--   Drive/FolderService.antt     services/api/src/folder/folder.service.ts: `get_root`, `get_children`,
--                                `create`, `rename`, `move`, `remove`, `assert_belongs_to_user`
--   Drive/Tree.antt              what a forest of folders is, and that the recursive queries then end
--   Drive/Trash.antt             services/api/src/trash: `list`, `restore`, `permanent_delete`
--   Drive/FileRepository.antt    services/api/src/file/file.repository.ts
--   Drive/FileService.antt       services/api/src/file/file.service.ts: `rename`, `move`, `copy`,
--                                `remove`, `search_files`, `get_download_stream`, `resolve_zip_files`
--   Drive/UploadSession.antt     services/api/src/file/upload-session.{service,repository}.ts: `init`,
--                                `complete`, `cleanup_expired`
--   Auth/Schema.antt             services/api/src/database/schema: the tables of the login
--   Auth/Outside.antt            what the login calls elsewhere, as parameters; the access tokens of
--                                services/api/src/security/token.service.ts
--   Auth/Session.antt            services/api/src/auth/session: `issue_for_user`, `rotate`,
--                                `revoke_by_raw_token`
--   Auth/TrustedDevice.antt      services/api/src/trusted-device: `register`, `verify`, `list`, `revoke`
--   Auth/Invitation.antt         services/api/src/invitation: `create`, `validate`, `consume`, `deactivate`
--   Auth/Device.antt             services/api/src/device: `register`, `list`, `remove`
--   Auth/BackupCode.antt         services/api/src/twofa/backup-code: `generate_for_user`,
--                                `regenerate`, `consume`, `list`
--   Auth/Role.antt               services/api/src/auth/role: the permissions of a user
--   Auth/User.antt               services/api/src/user: `create_user`, `get_current_user`
--   Auth/AuthService.antt        services/api/src/auth/auth.service.ts: passwords, tokens and cookies
--   Auth/Login.antt              services/api/src/auth/login.service.ts: `register_user`, `login`,
--                                `login_with_backup_code`, `refresh`, `logout`
--   Auth/TwoFa/Options.antt      the numbers of a challenge, and the text they are stored as
--   Auth/TwoFa/Push.antt         services/api/src/twofa/strategies/push.strategy.ts, twofa.repository.ts
--   Auth/TwoFa/Totp.antt         services/api/src/twofa/totp*.ts, strategies/totp.strategy.ts
--   Auth/TwoFa/Service.antt      services/api/src/twofa/twofa.service.ts: `get_status`, `respond`,
--                                `resend`, `complete_challenge`, `remove_strategy`
--   Auth/Guard.antt              services/api/src/common/guards: the two guards of a request
--   Storage/DriveService.antt    services/api/src/drive: `ensure_personal_drive`, `find_by_id_or_throw`
--   Storage/Agent.antt           services/api/src/storage-agent/storage-agent.client.ts
--   Storage/SecretStore.antt     services/api/src/mount-credential/secret-store.ts: `write`, `remove`
--   Storage/MountCredential.antt services/api/src/mount-credential: `issue`, `revoke`, `list_active`
--   Logger/PiiMasker.antt        services/api/src/logger/pii-masker.ts: `walk`, `mask_value`
--   Web/UploadParts.antt         services/web/src/features/file-upload/model/upload-parts.ts: the bytes
--                                of each part
-- Samples.antt and the Tests modules hold concrete runs.
--
-- Fuel. `with_recursive` gets one more round than the table has rows. In a forest every round of the
-- queries goes up or down one level, so it ends within that; with a cycle of parents PostgreSQL would
-- not return, and the model's callers end with the error `hang`.
--
-- The loop that draws the options of a challenge reads its draws from a list, and hangs where the list
-- does not end it. An outside part that fails says so by its answer.
--
-- Not modelled: controllers, validation pipes and DTO decorators (glue), logging, the expiry of cache
-- entries (an entry may be gone at any call), concurrent transactions, the commit of a transaction
-- (which never fails here), the list of users, the script of a mount credential, and
-- the web clients but for the cutting of an upload into parts.
pub mod Base
pub mod ErrorCode
pub mod Action
pub mod Auth
pub mod Table
pub mod Drive
pub mod Logger
pub mod Storage
pub mod Web
