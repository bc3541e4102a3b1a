-- ===== src/Auth/Session/Reuse.antt =====
-- A refresh token works once.
use terab.Base.{
  ℕ, ◌≡◌, ◌≢◌, refl, true, false, none, some, List, [], ◌∷◌, arith, inl, inr, ◌==◌, Has, All,
  Option-cases, Bool-cases,
}
use terab.ErrorCode.{api, refresh_token_invalid}
use terab.Action.{World, ok, err}
use terab.Table.{UniqueIds, insert}
use terab.Table.Laws.{find_where-Has, same_row}
use terab.Drive.Schema.{Text}
use terab.Auth.Schema.{RefreshToken, AuthDb, TokenConfig}
use terab.Auth.Session.{
  is_active, find_active_by_hash, revoke_by_id, issued_row, issue_for_user, rotate,
  revoke_by_raw_token, RotatedRefreshToken,
}

-- Every row with the digest is revoked (or there is none).
abbrev pub IsDead : ℕ → List RefreshToken → Type 0
IsDead hash t = All (λ (r : RefreshToken). r.token_hash ≡ hash → ¬ (r.revoked_at ≡ none)) t

-- A dead token is not found.
dead-find :
    (hash now : ℕ) (t : List RefreshToken) → IsDead hash t → find_active_by_hash hash now t ≡ none
unfolding find_active_by_hash
dead-find hash now [] dead = refl
dead-find hash now (r ∷ t) dead = elim (Bool-cases (is_active hash now r)) [
  | inl fits ↦ absurd (dead.0 (ground arith) (ground arith))
  | inr misses ↦ rw misses (dead-find hash now t dead.1)
]

IsDead-insert :
    (hash : ℕ) (row : RefreshToken) (t : List RefreshToken)
    → row.token_hash ≢ hash
    → IsDead hash t
    → IsDead hash (insert row t)
IsDead-insert hash row [] other dead = ((λ e. absurd (other e)), tt)
IsDead-insert hash row (r ∷ t) other dead = (dead.0, IsDead-insert hash row t other dead.1)

IsDead-revoke :
    (hash id at : ℕ) (t : List RefreshToken) → IsDead hash t → IsDead hash (revoke_by_id id at t)
unfolding revoke_by_id
IsDead-revoke hash id at [] dead = tt
IsDead-revoke hash id at (r ∷ t) dead = (
  elim (Bool-cases (r.id == id)) [
    | inl hit ↦ rw hit (λ e none_now. cc)
    | inr other ↦ rw other dead.0
  ],
  IsDead-revoke hash id at t dead.1,
)

-- Revoking the one row of a digest makes it dead.
revoked-IsDead :
    (row : RefreshToken) (at : ℕ) (t : List RefreshToken)
    → ((r : RefreshToken) → Has r t → r.token_hash ≡ row.token_hash → r ≡ row)
    → IsDead row.token_hash (revoke_by_id row.id at t)
unfolding revoke_by_id
revoked-IsDead row at [] one = tt
revoked-IsDead row at (r ∷ t) one = (
  elim (Bool-cases (r.id == row.id)) [
    | inl hit ↦ rw hit (λ e none_now. cc)
    | inr other ↦ rw other (λ e none_now.
        let same : r ≡ row = one r (inl refl) e in
        let hit : (r.id == row.id) ≡ true = rw same (ground arith) in cc)
  ],
  revoked-IsDead row at t (λ s h. one s (inr h)),
)

replaced :
    (config : TokenConfig) (hash id now : ℕ) (raw : Text) (row : RefreshToken)
    (t : List RefreshToken)
    → config.hash_token raw ≢ hash
    → IsDead hash t
    → IsDead hash (insert (issued_row config id now raw row.user_id) (revoke_by_id row.id now t))
replaced config hash id now raw row t fresh dead =
    IsDead-insert hash (issued_row config id now raw row.user_id) (revoke_by_id row.id now t) fresh
      (IsDead-revoke hash row.id now t dead)

-- What is found is the one row of its digest, so revoking it leaves the digest dead.
found-IsDead :
    (hash now at : ℕ) (t : List RefreshToken) (row : RefreshToken)
    → UniqueIds (λ (r : RefreshToken). r.token_hash) t
    → find_active_by_hash hash now t ≡ some row
    → IsDead hash (revoke_by_id row.id at t)
unfolding find_active_by_hash
found-IsDead hash now at t row unique found =
    let (h, fits) = find_where-Has (is_active hash now) t row found in
    let same : row.token_hash ≡ hash = ground arith in
    let dead =
      revoked-IsDead row at t
        (λ r k e. same_row (λ (s : RefreshToken). s.token_hash) t r row unique k h e) in
    rw same at dead

-- The calls of the session service, with what they draw.
pub data SessionCall : Type 0 where
  issues : (id now : ℕ) → Text → ℕ → SessionCall
  rotates : (id now : ℕ) → Text → Text → SessionCall
  revokes : (now : ℕ) → Text → SessionCall

-- The call draws no text with the digest.
abbrev pub IsFresh : TokenConfig → ℕ → SessionCall → Type 0
IsFresh config hash (issues id now fresh user) = config.hash_token fresh ≢ hash
IsFresh config hash (rotates id now fresh raw) = config.hash_token fresh ≢ hash
IsFresh config hash (revokes now raw) = Unit

module _ {X : Type 0} (config : TokenConfig) where
  abbrev pub perform : SessionCall → World AuthDb X → World AuthDb X
  perform (issues id now fresh user) w = (issue_for_user config id now fresh user w).1
  perform (rotates id now fresh raw) w = (rotate config id now fresh raw w).1
  perform (revokes now raw) w = (revoke_by_raw_token config now raw w).1

  -- The calls in turn, each on the world that the one before it left.
  abbrev pub perform_all : List SessionCall → World AuthDb X → World AuthDb X
  perform_all [] w = w
  perform_all (call ∷ calls) w = perform_all calls (perform call w)

  rotate-IsDead :
      (hash id now : ℕ) (raw old : Text) (w : World AuthDb X)
      → config.hash_token raw ≢ hash
      → IsDead hash w.db.refresh_tokens
      → IsDead hash (rotate config id now raw old w).1.db.refresh_tokens
  unfolding rotate issue_for_user
  rotate-IsDead hash id now raw old w fresh dead = elim (Bool-cases w.in_tx) [
    | inl inside ↦
        elim (Option-cases (find_active_by_hash (config.hash_token old) now w.db.refresh_tokens)) [
          | inl none_found ↦ rw (inside, none_found) dead
          | inr (row, found) ↦
              rw (inside, found)
                (replaced config hash id now raw row w.db.refresh_tokens fresh dead)
        ]
    | inr outside ↦
        elim (Option-cases (find_active_by_hash (config.hash_token old) now w.db.refresh_tokens)) [
          | inl none_found ↦ rw (outside, none_found) dead
          | inr (row, found) ↦
              rw (outside, found)
                (replaced config hash id now raw row w.db.refresh_tokens fresh dead)
        ]
  ]

  perform-IsDead :
      (hash : ℕ) (call : SessionCall) (w : World AuthDb X)
      → IsFresh config hash call
      → IsDead hash w.db.refresh_tokens
      → IsDead hash (perform call w).db.refresh_tokens
  unfolding issue_for_user revoke_by_raw_token
  perform-IsDead hash (issues id now raw user) w fresh dead =
      IsDead-insert hash (issued_row config id now raw user) w.db.refresh_tokens fresh dead
  perform-IsDead hash (rotates id now raw old) w fresh dead =
      rotate-IsDead hash id now raw old w fresh dead
  perform-IsDead hash (revokes now raw) w fresh dead =
      elim (Option-cases (find_active_by_hash (config.hash_token raw) now w.db.refresh_tokens)) [
        | inl none_found ↦ rw (none_found, perform) dead
        | inr (row, found) ↦
            rw (found, perform) (IsDead-revoke hash row.id now w.db.refresh_tokens dead)
      ]

  perform_all-IsDead :
      (hash : ℕ) (calls : List SessionCall) (w : World AuthDb X)
      → All (IsFresh config hash) calls
      → IsDead hash w.db.refresh_tokens
      → IsDead hash (perform_all calls w).db.refresh_tokens
  perform_all-IsDead hash [] w fresh dead = dead
  perform_all-IsDead hash (call ∷ calls) w fresh dead =
      perform_all-IsDead hash calls (perform call w) fresh.1
        (perform-IsDead hash call w fresh.0 dead)

  -- A dead token is refused, inside a transaction or not.
  dead-rotate :
      (id now : ℕ) (fresh raw : Text) (w : World AuthDb X)
      → IsDead (config.hash_token raw) w.db.refresh_tokens
      → (rotate config id now fresh raw w).0 ≡ err (api refresh_token_invalid)
  unfolding rotate
  dead-rotate id now fresh raw w dead =
      let missing = dead-find (config.hash_token raw) now w.db.refresh_tokens dead in
      elim (Bool-cases w.in_tx) [
        | inl inside ↦ rw (inside, missing) refl
        | inr outside ↦ rw (outside, missing) refl
      ]

  used-IsDead :
      (id now : ℕ) (fresh raw : Text) (out : RotatedRefreshToken) (w : World AuthDb X)
      → w.in_tx ≡ false
      → UniqueIds (λ (r : RefreshToken). r.token_hash) w.db.refresh_tokens
      → config.hash_token fresh ≢ config.hash_token raw
      → (rotate config id now fresh raw w).0 ≡ ok out
      → IsDead (config.hash_token raw) (rotate config id now fresh raw w).1.db.refresh_tokens
  unfolding rotate issue_for_user
  used-IsDead id now fresh raw out w outside unique new done =
      elim (Option-cases (find_active_by_hash (config.hash_token raw) now w.db.refresh_tokens)) [
        | inl missing ↦
            (let failed : err (api refresh_token_invalid) ≡ ok out =
                rw (outside, missing) at done in
              cc)
        | inr (row, found) ↦
            rw (outside, found)
              (IsDead-insert (config.hash_token raw) (issued_row config id now fresh row.user_id)
                (revoke_by_id row.id now w.db.refresh_tokens) new
                (found-IsDead (config.hash_token raw) now now w.db.refresh_tokens row unique found))
      ]

  -- Where digests of refresh tokens are unique, a token that `SessionService.rotate` has accepted
  -- outside a transaction is refused with REFRESH_TOKEN_INVALID for ever after, whatever the
  -- session service does in between, as long as neither that call nor a later one draws a text
  -- with the same digest.
  pub rotate-once :
      (id now id' now' : ℕ) (fresh fresh' raw : Text) (out : RotatedRefreshToken)
      (calls : List SessionCall) (w : World AuthDb X)
      → w.in_tx ≡ false
      → UniqueIds (λ (r : RefreshToken). r.token_hash) w.db.refresh_tokens
      → config.hash_token fresh ≢ config.hash_token raw
      → All (IsFresh config (config.hash_token raw)) calls
      → (rotate config id now fresh raw w).0 ≡ ok out
      → (rotate config id' now' fresh' raw
          (perform_all calls (rotate config id now fresh raw w).1)).0
        ≡ err (api refresh_token_invalid)
  rotate-once id now id' now' fresh fresh' raw out calls w outside unique new apart done =
      dead-rotate id' now' fresh' raw (perform_all calls (rotate config id now fresh raw w).1) (
        perform_all-IsDead (config.hash_token raw) calls (rotate config id now fresh raw w).1 apart
          (used-IsDead id now fresh raw out w outside unique new done))

  -- Where digests of refresh tokens are unique, a token that `revokeByRawToken` has revoked is
  -- refused by `rotate` with REFRESH_TOKEN_INVALID for ever after, whatever the session service
  -- does in between, as long as no call draws a text with the same digest.
  pub revoke-stays :
      (now id' now' : ℕ) (fresh' raw : Text) (user : ℕ) (calls : List SessionCall)
      (w : World AuthDb X)
      → UniqueIds (λ (r : RefreshToken). r.token_hash) w.db.refresh_tokens
      → All (IsFresh config (config.hash_token raw)) calls
      → (revoke_by_raw_token config now raw w).0 ≡ ok (some user)
      → (rotate config id' now' fresh' raw
          (perform_all calls (revoke_by_raw_token config now raw w).1)).0
        ≡ err (api refresh_token_invalid)
  unfolding revoke_by_raw_token
  revoke-stays now id' now' fresh' raw user calls w unique apart done =
      elim (Option-cases (find_active_by_hash (config.hash_token raw) now w.db.refresh_tokens)) [
        | inl missing ↦ (let failed : ok none ≡ ok (some user) = rw missing at done in cc)
        | inr (row, found) ↦ rw found (
            dead-rotate id' now' fresh' raw _ (
              perform_all-IsDead (config.hash_token raw) calls _ apart (
                found-IsDead (config.hash_token raw) now now w.db.refresh_tokens row unique found)))
      ]
