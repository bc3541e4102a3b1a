-- ===== src/Auth/BackupCode/Once.antt =====
-- A backup code works once.
use mathlib.Core.Option
use terab.Base.{
  ℕ, ◌≡◌, refl, ◌∙◌, Bool, true, false, Option, none, some, List, [], ◌∷◌, arith, inl, inr, ◌==◌,
  ◌&&◌, Has, All, All-of_Has, Option-cases, Bool-cases,
}
use terab.ErrorCode.{api, backup_code_invalid}
use terab.Action.{World, Result, ok, err}
use terab.Table.{select_where, find_where}
use terab.Table.Laws.{update_where_split}
use terab.Drive.Schema.{Text}
use terab.Auth.Schema.{BackupCode, AuthDb}
use terab.Auth.BackupCode.{
  is_unused_of, find_unused_by_user_id, with_used_at, mark_used, match_all, consume,
}

module _ (matches : Text → ℕ → Bool) (user : ℕ) (raw : Text) where
  -- An unused code of the user that matches.
  abbrev pub fits : BackupCode → Bool
  fits r = is_unused_of user r && matches raw r.code_hash

  abbrev pub id_of : BackupCode → ℕ
  id_of c = c.id

  -- Once a code is kept the loop keeps it.
  match_all-some :
      (codes : List BackupCode) (id : ℕ) → match_all matches raw codes (some id) ≡ some id
  unfolding match_all
  match_all-some [] id = refl
  match_all-some (c ∷ codes) id = elim (Bool-cases (matches raw c.code_hash)) [
    | inl hits ↦ rw hits (match_all-some codes id)
    | inr fails ↦ rw fails (match_all-some codes id)
  ]

  hit_first :
      (c : BackupCode) (codes : List BackupCode)
      → matches raw c.code_hash ≡ true
      → match_all matches raw (c ∷ codes) none ≡ some c.id
  unfolding match_all
  hit_first c codes hits = rw hits (match_all-some codes c.id)

  miss_first :
      (c : BackupCode) (codes : List BackupCode)
      → matches raw c.code_hash ≡ false
      → match_all matches raw (c ∷ codes) none ≡ match_all matches raw codes none
  unfolding match_all
  miss_first c codes fails = rw fails refl

  -- The loop over the unused codes finds what a search that stops at the first match finds.
  match_all-eq :
      (t : List BackupCode)
      → match_all matches raw (select_where (is_unused_of user) t) none
        ≡ Option.map id_of (find_where fits t)
  unfolding match_all
  match_all-eq [] = refl
  match_all-eq (r ∷ t) = elim (Bool-cases (is_unused_of user r)) [
    | inr used ↦ rw used (match_all-eq t)
    | inl free ↦ rw free (elim (Bool-cases (matches raw r.code_hash)) [
      | inl hits ↦ hit_first r (select_where (is_unused_of user) t) hits ∙ rw hits refl
      | inr fails ↦
          miss_first r (select_where (is_unused_of user) t) fails ∙ match_all-eq t ∙ rw fails refl
    ])
  ]

  no_fit :
      (t : List BackupCode) → All (λ (r : BackupCode). fits r ≡ false) t → find_where fits t ≡ none
  no_fit [] none_fits = refl
  no_fit (r ∷ t) none_fits = rw none_fits.0 (no_fit t none_fits.1)

  -- Marking the one fitting code leaves none.
  marked_fits :
      (c : BackupCode) (now : ℕ) (t : List BackupCode)
      → ((r : BackupCode) → Has r t → fits r ≡ true → r.id ≡ c.id)
      → All (λ (r : BackupCode). fits r ≡ false) (mark_used c.id now t)
  unfolding mark_used
  marked_fits c now t one =
      update_where_split (λ (r : BackupCode). fits r ≡ true → r.id ≡ c.id)
        (λ (r : BackupCode). fits r ≡ false) (λ (r : BackupCode). r.id == c.id) (with_used_at now) t
        (λ r only hit. ground arith)
        (λ r only other. elim (Bool-cases (fits r)) [
          | inl hits ↦
              (let same = only hits in let hit : (r.id == c.id) ≡ true = ground arith in cc)
          | inr fails ↦ fails
        ])
        (All-of_Has (λ (r : BackupCode). fits r ≡ true → r.id ≡ c.id) t one)

module _ {X : Type 0} (matches : Text → ℕ → Bool) where
  abbrev pub answer : ℕ → Option BackupCode → World AuthDb X → Result (Unit {0}) × World AuthDb X
  answer now none w = (err (api backup_code_invalid), w)
  answer now (some c) w =
      (ok tt, record w { db = record w.db { backup_codes = mark_used c.id now w.db.backup_codes } })

  -- `BackupCodeService.consume`, whose loop compares every unused code of the user, does what a
  -- search for the first match would: it marks that code as used, or changes nothing and throws
  -- BACKUP_CODE_INVALID.
  pub consume-eq-answer :
      (now user : ℕ) (raw : Text) (w : World AuthDb X)
      → consume matches now user raw w
        ≡ answer now (find_where (fits matches user raw) w.db.backup_codes) w
  unfolding consume find_unused_by_user_id
  consume-eq-answer now user raw w =
      rw (match_all-eq matches user raw w.db.backup_codes)
        (elim (Option-cases (find_where (fits matches user raw) w.db.backup_codes)) [
          | inl missing ↦ rw missing refl
          | inr (c, found) ↦ rw found refl
        ])

  -- Where an unused code of the user matches a text, and no unused code of the user with another
  -- id does, `BackupCodeService.consume` accepts the text once and throws BACKUP_CODE_INVALID when
  -- it is given again.
  pub consume-twice :
      (now now' user : ℕ) (raw : Text) (c : BackupCode) (w : World AuthDb X)
      → find_where (fits matches user raw) w.db.backup_codes ≡ some c
      → ((r : BackupCode) → Has r w.db.backup_codes → fits matches user raw r ≡ true → r.id ≡ c.id)
      → let (first, w') = consume matches now user raw w in
        (first ≡ ok tt) × ((consume matches now' user raw w').0 ≡ err (api backup_code_invalid))
  consume-twice now now' user raw c w found one =
      rw (consume-eq-answer now user raw w, found)
        (
          refl,
          rw
              (
                consume-eq-answer now' user raw (record w {
                  db = record w.db { backup_codes = mark_used c.id now w.db.backup_codes };
                }),
                no_fit matches user raw (mark_used c.id now w.db.backup_codes)
                    (marked_fits matches user raw c now w.db.backup_codes one),
              )
              refl,
        )
