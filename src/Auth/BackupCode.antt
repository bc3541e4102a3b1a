-- ===== src/Auth/BackupCode.antt =====
-- services/api/src/twofa/backup-code: backup-code.service.ts and backup-code.repository.ts, the codes
-- that stand in for the second factor. `matches` is `compare` of bcryptjs; the raw codes, their salted
-- hashes and their ids are drawn by the caller's environment and come as arguments.
pub mod Once
pub mod Tests
use terab.Base.{
  ℕ, Bool, true, false, Option, none, some, List, [], ◌∷◌, ◌++◌, map, ◌==◌, ◌&&◌, is_null,
  if◌then◌else◌,
}
use terab.ErrorCode.{backup_code_invalid}
use terab.Action.{World, Action, pure, or_throw, query, statement, run_in_tx, ◌>>=◌, ◌>>◌}
use terab.Table.{select_where, update_where}
use terab.Drive.Schema.{Text}
use terab.Auth.Schema.{BackupCode, AuthDb}

-- One drawn code.
pub record DrawnCode : Type 0 where
  pub id : ℕ
  pub raw : Text
  pub hash : ℕ

abbrev pub is_unused_of : ℕ → BackupCode → Bool
is_unused_of user r = r.user_id == user && is_null r.used_at

unfoldable pub find_unused_by_user_id : ℕ → List BackupCode → List BackupCode
find_unused_by_user_id user t = select_where (is_unused_of user) t

abbrev pub code_row : (now : ℕ) → ℕ → DrawnCode → BackupCode
code_row now user c = record {
  id = c.id;
  user_id = user;
  code_hash = c.hash;
  used_at = none;
  created_at = now;
}

unfoldable pub insert_many : (now : ℕ) → ℕ → List DrawnCode → List BackupCode → List BackupCode
insert_many now user codes t = t ++ map (code_row now user) codes

abbrev pub with_used_at : ℕ → BackupCode → BackupCode
with_used_at now r = record r { used_at = some now }

unfoldable pub mark_used : ℕ → ℕ → List BackupCode → List BackupCode
mark_used id now t = update_where (λ (r : BackupCode). r.id == id) (with_used_at now) t

unfoldable pub mark_all_used : List BackupCode → ℕ → List BackupCode → List BackupCode
mark_all_used [] now t = t
mark_all_used (c ∷ codes) now t = mark_all_used codes now (mark_used c.id now t)

-- `match && matchedId === null`
abbrev pub keep_first : Bool → ℕ → Option ℕ → Option ℕ
keep_first true id none = some id
keep_first true id (some kept) = some kept
keep_first false id matched = matched

-- The loop of `consume`, which compares every code whether or not one has matched.
unfoldable pub match_all :
    (matches : Text → ℕ → Bool) → Text → List BackupCode → Option ℕ → Option ℕ
match_all matches raw [] matched = matched
match_all matches raw (c ∷ codes) matched =
    match_all matches raw codes (keep_first (matches raw c.code_hash) c.id matched)

abbrev pub on_backup_codes : (List BackupCode → List BackupCode) → AuthDb → Unit {0} × AuthDb
on_backup_codes f d = (tt, record d { backup_codes = f d.backup_codes })

abbrev pub BackupCodeAction : Type 0 → Type 0 → Type 0
BackupCodeAction X A = Action (World AuthDb X) A

module _ {X : Type 0} where
  unfoldable pub generate_for_user :
      (now : ℕ) (codes : List DrawnCode) → ℕ → BackupCodeAction X (List Text)
  generate_for_user now codes user = do
    statement (on_backup_codes (insert_many now user codes))
    pure (map (λ (c : DrawnCode). c.raw) codes)

  -- The transaction of `regenerateForUser`, which follows the check of the password.
  unfoldable pub regenerate :
      (now created : ℕ) (codes : List DrawnCode) → ℕ → BackupCodeAction X (List Text)
  regenerate now created codes user = run_in_tx (do
    unused ← query (λ d. find_unused_by_user_id user d.backup_codes)
    statement (on_backup_codes (mark_all_used unused now))
    generate_for_user created codes user)

  unfoldable pub consume :
      (matches : Text → ℕ → Bool) (now : ℕ) → ℕ → Text → BackupCodeAction X (Unit {0})
  consume matches now user raw = do
    codes ← query (λ d. find_unused_by_user_id user d.backup_codes)
    id ← or_throw (match_all matches raw codes none) backup_code_invalid
    statement (on_backup_codes (mark_used id now))

  unfoldable pub list : ℕ → BackupCodeAction X (List BackupCode)
  list user = query (λ d. find_unused_by_user_id user d.backup_codes)
