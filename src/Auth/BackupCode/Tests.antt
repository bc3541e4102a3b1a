-- ===== src/Auth/BackupCode/Tests.antt =====
-- A run of the backup codes, and the theorems about it at it.
use terab.Base.{ℕ, ◌≡◌, refl, Bool, false, [], ◌∷◌, inl, inr, ◌==◌, arith}
use terab.Table.{find_where}
use terab.ErrorCode.{api, backup_code_invalid}
use terab.Action.{World, ok, err}
use terab.Drive.Schema.{Text}
use terab.Auth.Schema.{BackupCode, AuthDb, empty_auth}
use terab.Auth.BackupCode.{consume, code_row}
use terab.Auth.BackupCode.Once.{fits, answer, consume-eq-answer, consume-twice}

-- A comparison that reads the first character.
abbrev matches : Text → ℕ → Bool
matches [] hash = 0 == hash
matches (c ∷ s) hash = c == hash

abbrev code : ℕ → BackupCode
code n = code_row 0 4 (record { id = n; raw = n ∷ []; hash = n })

abbrev armed : World AuthDb (Unit {0})
armed = record {
  db = record empty_auth { backup_codes = code 7 ∷ code 8 ∷ [] };
  ext = tt;
  in_tx = false;
}

consume-eq-answer_example :
    consume matches 50 4 (8 ∷ []) armed
    ≡ answer matches 50 (find_where (fits matches 4 (8 ∷ [])) armed.db.backup_codes) armed
consume-eq-answer_example = consume-eq-answer matches 50 4 (8 ∷ []) armed

consume-twice_example :
    let (done, w') = consume matches 50 4 (8 ∷ []) armed in
    (done ≡ ok tt) × ((consume matches 60 4 (8 ∷ []) w').0 ≡ err (api backup_code_invalid))
consume-twice_example = consume-twice matches 50 60 4 (8 ∷ []) (code 8) armed refl (λ r h hit.
    elim h [
      | inl e ↦ ground arith
      | inr k ↦ elim k [ inl e ↦ ground arith | inr bad ↦ absurd bad ]
    ])
