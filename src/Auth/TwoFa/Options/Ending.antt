-- ===== src/Auth/TwoFa/Options/Ending.antt =====
-- The loop `while (nums.size < 3)` of services/api/src/twofa/strategies/push.strategy.ts ends as soon
-- as three different numbers were drawn.
use terab.Base.{
  ℕ, zero, suc, ◌+◌, ◌<◌, ◌≡◌, ◌≢◌, refl, true, none, some, List, [], ◌∷◌, length, leb, Has,
  Has-append_left, Has-append_right, inl, inr, Bool-cases, Option-cases, arith, ◌==◌, ◌⊎◌,
}
use terab.Action.{World, ok}
use terab.Table.{is_in}
use terab.Auth.Schema.{Challenge, AuthDb}
use terab.Auth.TwoFa.Options.{add_number, draw_options, generate_options, element}
use terab.Auth.TwoFa.Options.Choice.{draw_options-length}
use terab.Auth.TwoFa.Push.{ChallengeDraws, create_challenge, new_challenge}

Has-of_is_in : (n : ℕ) (nums : List ℕ) → is_in n nums ≡ true → Has n nums
Has-of_is_in n [] h = cc
Has-of_is_in n (m ∷ nums) h = elim (Bool-cases (n == m)) [
  | inl same ↦ inl (ground arith)
  | inr other ↦ inr (Has-of_is_in n nums (rw other at h))
]

Has-add_number : (n : ℕ) (nums : List ℕ) → Has n (add_number n nums)
Has-add_number n nums = elim (Bool-cases (is_in n nums)) [
  | inl seen ↦ rw seen (Has-of_is_in n nums seen)
  | inr fresh ↦ rw fresh (Has-append_right n nums (n ∷ []) (inl refl))
]

Has-add_number_other : (m n : ℕ) (nums : List ℕ) → Has m nums → Has m (add_number n nums)
Has-add_number_other m n nums h = elim (Bool-cases (is_in n nums)) [
  | inl seen ↦ rw seen h
  | inr fresh ↦ rw fresh (Has-append_left m nums (n ∷ []) h)
]

-- Where the loop goes on, everything drawn stands among fewer than three numbers.
abbrev IsShort : List ℕ → List ℕ → Type 0
IsShort draws nums =
    (last : List ℕ) × (length last < 3)
    × ((n : ℕ) → Has n nums → Has n last)
    × ((d : ℕ) → Has d draws → Has (10 + d) last)

endless-IsShort : (draws nums : List ℕ) → draw_options draws nums ≡ none → IsShort draws nums
unfolding draw_options
endless-IsShort [] nums endless = elim (Bool-cases (leb 3 (length nums))) [
  | inl full ↦ let f : some nums ≡ none = rw full at endless in cc
  | inr short ↦ (nums, ground arith, (λ n h. h), (λ d h. absurd h))
]
endless-IsShort (d ∷ draws) nums endless = elim (Bool-cases (leb 3 (length nums))) [
  | inl full ↦ let f : some nums ≡ none = rw full at endless in cc
  | inr short ↦
      let (last, few, keeps, has) =
        endless-IsShort draws (add_number (10 + d) nums) (rw short at endless) in
      (
        last,
        few,
        (λ n h. keeps n (Has-add_number_other n (10 + d) nums h)),
        (λ e h. first_or_rest d draws nums last keeps has e h),
      )
]
  where
    first_or_rest :
        (d : ℕ) (draws nums last : List ℕ)
        → ((n : ℕ) → Has n (add_number (10 + d) nums) → Has n last)
        → ((e : ℕ) → Has e draws → Has (10 + e) last)
        → (e : ℕ) → Has e (d ∷ draws)
        → Has (10 + e) last
    first_or_rest d draws nums last keeps has e (inl same) =
        rw same (keeps (10 + d) (Has-add_number (10 + d) nums))
    first_or_rest d draws nums last keeps has e (inr h) = has e h

only : (x n : ℕ) → Has n (x ∷ []) → n ≡ x
only x n (inl e) = e
only x n (inr h) = absurd h

one_of : (x y n : ℕ) → Has n (x ∷ y ∷ []) → (n ≡ x) ⊎ (n ≡ y)
one_of x y n (inl e) = inl e
one_of x y n (inr h) = inr (only y n h)

-- Three different numbers do not stand among two.
pigeons :
    (a b c : ℕ) (last : List ℕ)
    → length last < 3
    → Has a last
    → Has b last
    → Has c last
    → a ≢ b
    → a ≢ c
    → b ≢ c
    → ⊥
pigeons a b c [] few ha hb hc ab ac bc = absurd ha
pigeons a b c (x ∷ []) few ha hb hc ab ac bc =
    let ea = only x a ha in let eb = only x b hb in omega (arith, ea, eb, ab)
pigeons a b c (x ∷ y ∷ []) few ha hb hc ab ac bc =
    let ea = one_of x y a ha in
    let eb = one_of x y b hb in let ec = one_of x y c hc in omega (arith, ea, eb, ec, ab, ac, bc)
pigeons a b c (x ∷ y ∷ z ∷ last) few ha hb hc ab ac bc = omega arith

-- Where three different numbers are among the draws and the pick is below three, the loop of
-- `generateOptions` ends and `createChallenge` makes a challenge.
pub create_challenge-ends :
    {X : Type 0} (drawn : ChallengeDraws) (user : ℕ) (a b c : ℕ) (w : World AuthDb X)
    → Has a drawn.draws
    → Has b drawn.draws
    → Has c drawn.draws
    → a ≢ b
    → a ≢ c
    → b ≢ c
    → drawn.pick < 3
    → (d : Challenge) × ((create_challenge drawn user w).0 ≡ ok d)
unfolding create_challenge
create_challenge-ends drawn user a b c w ha hb hc ab ac bc picks =
    elim (Option-cases (generate_options drawn.draws)) [
      | inl endless ↦
          let (last, few, keeps, has) = endless-IsShort drawn.draws [] endless in
          absurd (
            pigeons (10 + a) (10 + b) (10 + c) last few (has a ha) (has b hb) (has c hc)
              (λ e. ab (omega arith)) (λ e. ac (omega arith)) (λ e. bc (omega arith)))
      | inr (nums, ended) ↦
          let (correct, picked) =
            element-some drawn.pick nums picks
              (draw_options-length drawn.draws [] (omega arith) ended) in
          (new_challenge drawn.id drawn.now user nums correct, rw (ended, picked) refl)
    ]
  where
    element-some :
        (i : ℕ) (nums : List ℕ) → i < 3 → length nums ≡ 3 → (n : ℕ) × (element i nums ≡ some n)
    element-some i [] below three = cc
    element-some zero (n ∷ nums) below three = (n, refl)
    element-some (suc i) (n ∷ []) below three = let f : ⊥ = omega (arith, three) in absurd f
    element-some (suc zero) (n ∷ m ∷ nums) below three = (m, refl)
    element-some (suc (suc i)) (n ∷ m ∷ []) below three =
        let f : ⊥ = omega (arith, three) in absurd f
    element-some (suc (suc zero)) (n ∷ m ∷ k ∷ nums) below three = (k, refl)
    element-some (suc (suc (suc i))) (n ∷ m ∷ k ∷ nums) below three =
        let f : ⊥ = omega (arith, below) in absurd f
