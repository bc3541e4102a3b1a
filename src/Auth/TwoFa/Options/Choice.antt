-- ===== src/Auth/TwoFa/Options/Choice.antt =====
-- `generateOptions` and the options' text, of services/api/src/twofa/strategies/push.strategy.ts: three
-- different numbers of two digits, and the right one among them.
use terab.Base.{
  ℕ, zero, suc, ◌+◌, ◌/◌, ◌%◌, ◌≤◌, ◌<◌, ◌≡◌, refl, ◌∙◌, true, false, none, some, List, [], ◌∷◌,
  ◌++◌, map, length, length-append, leb, ◌==◌, Has, All, All-append, Text, inl, inr, Bool-cases,
  Option-cases, arith, ap,
}
use terab.ErrorCode.{hang, failure}
use terab.Action.{World, ok, err}
use terab.Table.{is_in}
use terab.Auth.Schema.{Challenge, AuthDb}
use terab.Auth.TwoFa.Options.{
  add_number, draw_options, generate_options, number_text, join_comma, split_comma, element,
}
use terab.Auth.TwoFa.Push.{ChallengeDraws, create_challenge, new_challenge}

abbrev IsTwoDigit : ℕ → Type 0
IsTwoDigit n = (10 ≤ n) × (n < 100)

-- No number stands twice.
abbrev IsDistinct : List ℕ → Type 0
IsDistinct [] = Unit
IsDistinct (n ∷ nums) = (is_in n nums ≡ false) × IsDistinct nums

IsDistinct-snoc :
    (nums : List ℕ) (n : ℕ) → IsDistinct nums → is_in n nums ≡ false → IsDistinct (nums ++ n ∷ [])
IsDistinct-snoc [] n d fresh = (refl, tt)
IsDistinct-snoc (m ∷ nums) n d fresh = elim (Bool-cases (n == m)) [
  | inl same ↦ let f : true ≡ false = rw same at fresh in cc
  | inr other ↦ (last nums n m d.0 (ground arith), IsDistinct-snoc nums n d.1 (rw other at fresh))
]
  where
    last :
        (nums : List ℕ) (n m : ℕ)
        → is_in m nums ≡ false
        → (m == n) ≡ false
        → is_in m (nums ++ n ∷ []) ≡ false
    last [] n m absent other = rw other refl
    last (k ∷ nums) n m absent other = elim (Bool-cases (m == k)) [
      | inl same ↦ let f : true ≡ false = rw same at absent in cc
      | inr differs ↦ rw differs (last nums n m (rw differs at absent) other)
    ]

abbrev IsChoice : List ℕ → Type 0
IsChoice nums = IsDistinct nums × All IsTwoDigit nums × (length nums ≤ 3)

add_number-IsChoice :
    (d : ℕ) (nums : List ℕ)
    → d < 90
    → IsChoice nums
    → length nums < 3
    → IsChoice (add_number (10 + d) nums)
add_number-IsChoice d nums below (distinct, digits, few) short =
    elim (Bool-cases (is_in (10 + d) nums)) [
      | inl seen ↦ rw seen (distinct, digits, few)
      | inr fresh ↦ rw fresh (
        IsDistinct-snoc nums (10 + d) distinct fresh,
        All-append IsTwoDigit nums ((10 + d) ∷ []) digits ((omega arith, omega arith), tt),
        omega (arith, length-append nums ((10 + d) ∷ [])),
      )
    ]

draw_options-IsChoice :
    (draws nums : List ℕ) {chosen : List ℕ}
    → All (λ d. d < 90) draws
    → IsChoice nums
    → draw_options draws nums ≡ some chosen
    → IsChoice chosen × (length chosen ≡ 3)
unfolding draw_options
draw_options-IsChoice [] nums {chosen} below good done = elim (Bool-cases (leb 3 (length nums))) [
  | inl full ↦
      let e : some nums ≡ some chosen = rw full at done in
      let e' : nums ≡ chosen = cc in rw (← e') (good, ground arith)
  | inr short ↦ let f : none ≡ some chosen = rw short at done in cc
]
draw_options-IsChoice (d ∷ draws) nums {chosen} below good done =
    elim (Bool-cases (leb 3 (length nums))) [
      | inl full ↦
          let e : some nums ≡ some chosen = rw full at done in
          let e' : nums ≡ chosen = cc in rw (← e') (good, ground arith)
      | inr short ↦
          draw_options-IsChoice draws (add_number (10 + d) nums) below.1
            (add_number-IsChoice d nums below.0 good (ground arith)) (rw short at done)
    ]

pub draw_options-length :
    (draws nums : List ℕ) {chosen : List ℕ}
    → length nums ≤ 3
    → draw_options draws nums ≡ some chosen
    → length chosen ≡ 3
unfolding draw_options
draw_options-length [] nums {chosen} few done = elim (Bool-cases (leb 3 (length nums))) [
  | inl full ↦
      let e : some nums ≡ some chosen = rw full at done in
      let e' : nums ≡ chosen = cc in rw (← e') (ground arith)
  | inr short ↦ let f : none ≡ some chosen = rw short at done in cc
]
draw_options-length (d ∷ draws) nums {chosen} few done = elim (Bool-cases (leb 3 (length nums))) [
  | inl full ↦
      let e : some nums ≡ some chosen = rw full at done in
      let e' : nums ≡ chosen = cc in rw (← e') (ground arith)
  | inr short ↦
      draw_options-length draws (add_number (10 + d) nums)
        (length-add_number (10 + d) nums (ground arith)) (rw short at done)
]
  where
    length-add_number : (n : ℕ) (nums : List ℕ) → length nums < 3 → length (add_number n nums) ≤ 3
    length-add_number n nums short = elim (Bool-cases (is_in n nums)) [
      | inl seen ↦ rw seen (omega arith)
      | inr fresh ↦ rw fresh (omega (arith, length-append nums (n ∷ [])))
    ]

split-text :
    (n : ℕ) (s : Text) → split_comma (number_text n ++ b',' ∷ s) ≡ number_text n ∷ split_comma s
unfolding split_comma
split-text n s =
    let tens : (b'0' + n / 10 == b',') ≡ false = ground arith in
    let ones : (b'0' + n % 10 == b',') ≡ false = ground arith in rw (tens, ones) refl

split-last : (n : ℕ) → split_comma (number_text n) ≡ number_text n ∷ []
unfolding split_comma
split-last n =
    let tens : (b'0' + n / 10 == b',') ≡ false = ground arith in
    let ones : (b'0' + n % 10 == b',') ≡ false = ground arith in rw (tens, ones) refl

-- What is joined is split again.
split-join :
    (n : ℕ) (nums : List ℕ)
    → split_comma (join_comma (map number_text (n ∷ nums))) ≡ map number_text (n ∷ nums)
unfolding join_comma
split-join n [] = split-last n
split-join n (m ∷ nums) =
    split-text n (join_comma (map number_text (m ∷ nums)))
    ∙ ap (λ ts. number_text n ∷ ts) (split-join m nums)

element-Has :
    (i : ℕ) (nums : List ℕ) {n : ℕ}
    → element i nums ≡ some n
    → Has (number_text n) (map number_text nums)
element-Has i [] h = cc
element-Has zero (m ∷ nums) {n} h = let e : n ≡ m = cc in inl (ap number_text e)
element-Has (suc i) (m ∷ nums) h = inr (element-Has i nums h)

-- The texts of three different numbers of two digits, and the right one among them.
abbrev pub IsAsked : Challenge → Type 0
IsAsked c =
    (nums : List ℕ) × IsDistinct nums
    × All IsTwoDigit nums
    × (length nums ≡ 3)
    × (split_comma c.options ≡ map number_text nums)
    × Has c.correct_num (split_comma c.options)

chosen-IsAsked :
    (drawn : ChallengeDraws) (user : ℕ) (nums : List ℕ) (correct : ℕ)
    → IsChoice nums
    → length nums ≡ 3
    → element drawn.pick nums ≡ some correct
    → IsAsked (new_challenge drawn.id drawn.now user nums correct)
chosen-IsAsked drawn user [] correct good three picked = cc
chosen-IsAsked drawn user (n ∷ nums) correct (distinct, digits, few) three picked = (
  n ∷ nums,
  distinct,
  digits,
  three,
  split-join n nums,
  rw (split-join n nums) (element-Has drawn.pick (n ∷ nums) picked),
)

-- Where every draw is below 90, a challenge that `createChallenge` makes stores a text that splits
-- at the commas into three different numbers of two digits, and its right number is one of them.
pub create_challenge-IsAsked :
    {X : Type 0} (drawn : ChallengeDraws) (user : ℕ) (w : World AuthDb X) {c : Challenge}
    → All (λ d. d < 90) drawn.draws
    → (create_challenge drawn user w).0 ≡ ok c
    → IsAsked c
unfolding create_challenge
create_challenge-IsAsked drawn user w {c} below created =
    elim (Option-cases (generate_options drawn.draws)) [
      | inl endless ↦ let f : err hang ≡ ok c = rw endless at created in cc
      | inr (nums, ended) ↦
          let (good, three) =
            draw_options-IsChoice drawn.draws [] below (tt, tt, omega arith) ended in
          elim (Option-cases (element drawn.pick nums)) [
            | inl outside ↦ let f : err (failure 0) ≡ ok c = rw (ended, outside) at created in cc
            | inr (correct, picked) ↦
                let e : ok (new_challenge drawn.id drawn.now user nums correct) ≡ ok c =
                  rw (ended, picked) at created in
                let e' : new_challenge drawn.id drawn.now user nums correct ≡ c = cc in
                rw (← e') (chosen-IsAsked drawn user nums correct good three picked)
          ]
    ]
