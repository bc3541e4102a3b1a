-- ===== src/Auth/TwoFa/Push.antt =====
-- services/api/src/twofa/twofa.repository.ts and strategies/push.strategy.ts: the challenges, and how
-- a signed-in phone answers one. Ids, times and drawn numbers are arguments.
use terab.Base.{
  ℕ, ◌+◌, Bool, true, false, ◌&&◌, not, Option, none, some, List, map, leb, ◌==◌, Text, text_eq,
  if◌then◌else◌,
}
use terab.ErrorCode.{api, failure, hang, forbidden, twofa_challenge_not_found}
use terab.Action.{pure, throw, or_throw, query, statement, ◌>>=◌, ◌>>◌}
use terab.Table.{find_where, update_where, insert}
use terab.Auth.Schema.{Challenge, ChallengeStatus, pending, approved, denied, expired, AuthDb}
use terab.Auth.Outside.{AuthAction}
use terab.Auth.TwoFa.Options.{generate_options, number_text, join_comma, element}

abbrev pub challenge_expiry_ms : ℕ
challenge_expiry_ms = 60000

-- What the creation of a challenge draws: `draws` by `generateOptions`, `pick` by `randomInt(3)`.
pub record ChallengeDraws : Type 0 where
  pub id : ℕ
  pub now : ℕ
  pub draws : List ℕ
  pub pick : ℕ

abbrev pub is_pending : ChallengeStatus → Bool
is_pending pending = true
is_pending approved = false
is_pending denied = false
is_pending expired = false

abbrev pub is_approved : ChallengeStatus → Bool
is_approved pending = false
is_approved approved = true
is_approved denied = false
is_approved expired = false

-- `status === 'PENDING' && expiresAt > now`
abbrev pub is_open : (now : ℕ) → Challenge → Bool
is_open now c = is_pending c.status && not (leb c.expires_at now)

unfoldable pub find_challenge : ℕ → List Challenge → Option Challenge
find_challenge id t = find_where (λ (c : Challenge). c.id == id) t

-- A `respondedAt` that is not given leaves the column as it is.
abbrev pub with_status : ChallengeStatus → Option ℕ → Challenge → Challenge
with_status status none c = record c { status = status }
with_status status (some at) c = record c { status = status; responded_at = some at }

unfoldable pub update_status : ℕ → ChallengeStatus → Option ℕ → List Challenge → List Challenge
update_status id status at t =
    update_where (λ (c : Challenge). c.id == id) (with_status status at) t

abbrev pub on_challenges : (List Challenge → List Challenge) → AuthDb → Unit {0} × AuthDb
on_challenges f d = (tt, record d { challenges = f d.challenges })

abbrev pub new_challenge : (id now : ℕ) → ℕ → List ℕ → ℕ → Challenge
new_challenge id now user nums correct = record {
  id = id;
  user_id = user;
  options = join_comma (map number_text nums);
  correct_num = number_text correct;
  status = pending;
  expires_at = now + challenge_expiry_ms;
  responded_at = none;
}

module _ {X : Type 0} where
  abbrev pub set_status : ℕ → ChallengeStatus → Option ℕ → AuthAction X (Unit {0})
  set_status id status at = statement (on_challenges (update_status id status at))

  -- The number of a TypeError (`undefined.toString()`) is 0.
  abbrev pub insert_drawn : ChallengeDraws → ℕ → Option (List ℕ) → AuthAction X Challenge
  insert_drawn drawn user none = throw hang
  insert_drawn drawn user (some nums) = insert_picked (element drawn.pick nums)
    where
      insert_picked : Option ℕ → AuthAction X Challenge
      insert_picked none = throw (failure 0)
      insert_picked (some correct) = do
        let row = new_challenge drawn.id drawn.now user nums correct
        statement (on_challenges (insert row))
        pure row

  unfoldable pub create_challenge : ChallengeDraws → ℕ → AuthAction X Challenge
  create_challenge drawn user = insert_drawn drawn user (generate_options drawn.draws)

  abbrev pub answer : (now : ℕ) → Challenge → ℕ → Text → AuthAction X Bool
  answer now c id selected =
      if text_eq c.correct_num selected
      then (do set_status id approved (some now); pure true)
      else (do set_status id denied (some now); pure false)

  -- `verifyResponse`; the second `new Date()`, which is stored, is the argument too.
  unfoldable pub verify_push : (now : ℕ) → ℕ → ℕ → Text → AuthAction X Bool
  verify_push now user id selected = do
    found ← query (λ d. find_challenge id d.challenges)
    c ← or_throw found twofa_challenge_not_found
    if c.user_id == user
        then (if is_open now c then answer now c id selected else pure false)
        else throw (api forbidden)
