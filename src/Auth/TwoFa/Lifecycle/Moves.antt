-- ===== src/Auth/TwoFa/Lifecycle/Moves.antt =====
-- services/api/src/twofa: what a call may do to a challenge, and how a search sees it.
use terab.Base.{
  ℕ, ◌≡◌, ◌≢◌, ◌⊎◌, ◌<◌, refl, true, false, none, some, List, [], ◌∷◌, Option, Text, inl, inr,
  Bool-cases, ◌==◌, leb, arith, ap, sym, ◌∙◌, if◌then◌else◌,
}
use terab.Action.{World}
use terab.Table.{insert}
use terab.Auth.Schema.{Challenge, ChallengeStatus, pending, approved, denied, expired, AuthDb}
use terab.Auth.TwoFa.Push.{
  ChallengeDraws, find_challenge, with_status, update_status, is_open, is_pending, is_approved,
}
use terab.Auth.TwoFa.Service.{CompleteBody, TrustDraws, status_of}

-- The calls of the service that may write a challenge, with what they draw.
pub data ChallengeCall : Type 0 where
  creates : ChallengeDraws → (user : ℕ) → ChallengeCall
  reads : (now later id : ℕ) → ChallengeCall
  responds : (now id user : ℕ) → Text → ChallengeCall
  claims : (id : ℕ) → ChallengeCall
  resends : ChallengeDraws → (id : ℕ) → ChallengeCall
  completes : (now : ℕ) → TrustDraws → (id : ℕ) → CompleteBody → Option Text → ChallengeCall

-- What a call may do to a challenge: nothing; accept the right number from its own user in time; deny
-- a wrong one; end it where it is not denied.
pub data Change (call : ChallengeCall) (c d : Challenge) : Type 0 where
  same : d ≡ c → Change call c d
  accepts :
      (now : ℕ)
      → call ≡ responds now c.id c.user_id c.correct_num
      → c.status ≡ pending
      → now < c.expires_at
      → d ≡ with_status approved (some now) c
      → Change call c d
  denies : (now : ℕ) → c.status ≡ pending → d ≡ with_status denied (some now) c → Change call c d
  lapses :
      (c.status ≡ pending) ⊎ (c.status ≡ approved)
      → d ≡ with_status expired none c
      → Change call c d

with_status-id :
    (status : ChallengeStatus) (at : Option ℕ) (c : Challenge) → (with_status status at c).id ≡ c.id
with_status-id status none c = refl
with_status-id status (some at) c = refl

pub find-update_status :
    (id key : ℕ) (status : ChallengeStatus) (at : Option ℕ) (t : List Challenge) {c : Challenge}
    → find_challenge id t ≡ some c
    → find_challenge id (update_status key status at t)
      ≡ some (if key == id then with_status status at c else c)
unfolding find_challenge update_status
find-update_status id key status at [] found = cc
find-update_status id key status at (r ∷ t) {c} found =
    let kept = with_status-id status at r in
    elim (Bool-cases (r.id == id)) [
      | inr miss ↦
          let found' = rw miss at found in
          let rest = find-update_status id key status at t found' in
          elim (Bool-cases (r.id == key)) [
            | inl picked ↦ rw (picked, kept, miss) rest
            | inr other ↦ rw (other, miss, rest)
          ]
      | inl hit ↦
          let head : some r ≡ some c = rw hit at found in
          elim (Bool-cases (r.id == key)) [
            | inl picked ↦
                let k : (key == id) ≡ true = ground arith in
                let e : r ≡ c = cc in
                rw (picked, kept, hit, k) (ap (λ d. some (with_status status at d)) e)
            | inr other ↦ let k : (key == id) ≡ false = ground arith in rw (other, hit, k) head
          ]
    ]

pub find-insert :
    (id : ℕ) (row : Challenge) (t : List Challenge) {c : Challenge}
    → find_challenge id t ≡ some c
    → find_challenge id (insert row t) ≡ some c
unfolding find_challenge
find-insert id row [] found = cc
find-insert id row (r ∷ t) found = elim (Bool-cases (r.id == id)) [
  | inl hit ↦ rw hit (rw hit at found)
  | inr miss ↦ rw miss (find-insert id row t (rw miss at found))
]

pub found_id :
    (id : ℕ) (t : List Challenge) {c : Challenge} → find_challenge id t ≡ some c → c.id ≡ id
unfolding find_challenge
found_id id [] found = cc
found_id id (r ∷ t) found = elim (Bool-cases (r.id == id)) [
  | inl hit ↦ let e : some r ≡ some _ = rw hit at found in ground arith
  | inr miss ↦ found_id id t (rw miss at found)
]

-- What the challenge with the id became.
abbrev pub Becomes : ChallengeCall → ℕ → Challenge → AuthDb → Type 0
Becomes call id c after =
    (d : Challenge) × (find_challenge id after.challenges ≡ some d) × Change call c d

pub kept :
    (call : ChallengeCall) (id : ℕ) {c : Challenge} (after : AuthDb)
    → find_challenge id after.challenges ≡ some c
    → Becomes call id c after
kept call id {c} after found = (c, found, same refl)

-- A challenge that may lapse, or another one, whose status a call sets to EXPIRED.
pub lapsed :
    (call : ChallengeCall) (id key : ℕ) (t : List Challenge) {c : Challenge}
    → find_challenge id t ≡ some c
    → ((c' : Challenge)
        → find_challenge key t ≡ some c'
        → (c'.status ≡ pending) ⊎ (c'.status ≡ approved))
    → (d : Challenge) × (find_challenge id (update_status key expired none t) ≡ some d)
      × Change call c d
lapsed call id key t {c} found may =
    let after = find-update_status id key expired none t found in
    elim (Bool-cases (key == id)) [
      | inr other ↦ (c, rw other at after, same refl)
      | inl this ↦
          let e : key ≡ id = ground arith in
          (with_status expired none c, rw this at after, lapses (may c (rw e found)) refl)
    ]

pub pending-of_is_pending : (s : ChallengeStatus) → is_pending s ≡ true → s ≡ pending
pending-of_is_pending pending h = refl
pending-of_is_pending approved h = cc
pending-of_is_pending denied h = cc
pending-of_is_pending expired h = cc

pub approved-of_is_approved : (s : ChallengeStatus) → is_approved s ≡ true → s ≡ approved
approved-of_is_approved pending h = cc
approved-of_is_approved approved h = refl
approved-of_is_approved denied h = cc
approved-of_is_approved expired h = cc

pub Status-cases : (s : ChallengeStatus) → (s ≡ pending) ⊎ (s ≢ pending)
Status-cases pending = inl refl
Status-cases approved = inr (λ e. cc)
Status-cases denied = inr (λ e. cc)
Status-cases expired = inr (λ e. cc)

pub settled_status :
    {X : Type 0} (now later id : ℕ) (c : Challenge) (s : ChallengeStatus) (w : World AuthDb X)
    → s ≢ pending
    → (status_of now later id c s w).1 ≡ w
settled_status now later id c pending w settled = absurd (settled refl)
settled_status now later id c approved w settled = refl
settled_status now later id c denied w settled = refl
settled_status now later id c expired w settled = refl

pub found_status :
    (key : ℕ) (t : List Challenge) (k c : Challenge) {s : ChallengeStatus}
    → find_challenge key t ≡ some k
    → find_challenge key t ≡ some c
    → k.status ≡ s
    → c.status ≡ s
found_status key t k c there found e =
    let same : some k ≡ some c = sym there ∙ found in let same' : c ≡ k = cc in rw same' e

-- The answer of a phone to its own challenge, in time.
pub answered :
    (call : ChallengeCall) (id key : ℕ) (status : ChallengeStatus) (now : ℕ) (t : List Challenge)
    (k : Challenge) {c : Challenge}
    → find_challenge id t ≡ some c
    → find_challenge key t ≡ some k
    → Change call k (with_status status (some now) k)
    → (d : Challenge) × (find_challenge id (update_status key status (some now) t) ≡ some d)
      × Change call c d
answered call id key status now t k {c} found there change =
    let after = find-update_status id key status (some now) t found in
    elim (Bool-cases (key == id)) [
      | inr other ↦ (c, rw other at after, same refl)
      | inl this ↦
          let e : key ≡ id = ground arith in
          let there' : some k ≡ some c = sym (rw e at there) ∙ found in
          let own : c ≡ k = cc in (with_status status (some now) c, rw this at after, rw own change)
    ]

pub open-cases :
    (now : ℕ) (c : Challenge) → is_open now c ≡ true → (c.status ≡ pending) × (now < c.expires_at)
open-cases now c h = elim (Bool-cases (is_pending c.status)) [
  | inr settled ↦ let f : false ≡ true = rw settled at h in cc
  | inl waits ↦ elim (Bool-cases (leb c.expires_at now)) [
    | inl late ↦ let f : false ≡ true = rw (waits, late) at h in cc
    | inr early ↦ (pending-of_is_pending c.status waits, ground arith)
  ]
]
