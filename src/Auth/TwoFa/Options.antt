-- ===== src/Auth/TwoFa/Options.antt =====
-- `generateOptions` of services/api/src/twofa/strategies/push.strategy.ts: the three numbers of a
-- challenge, and the text they are stored as. The results of `randomInt(90)` are a list.
pub mod Choice
pub mod Ending
use terab.Base.{
  ℕ, zero, suc, ◌+◌, ◌/◌, ◌%◌, Bool, Option, none, some, List, [], ◌∷◌, ◌++◌, map, length, leb,
  ◌==◌, Text, if◌then◌else◌,
}
use terab.Table.{is_in}

-- `nums.add(n)` of a `Set`
abbrev pub add_number : ℕ → List ℕ → List ℕ
add_number n nums = if is_in n nums then nums else nums ++ n ∷ []

-- The loop `while (nums.size < 3)`; `none`: the draws at hand do not end it.
unfoldable pub draw_options : List ℕ → List ℕ → Option (List ℕ)
draw_options [] nums = if leb 3 (length nums) then some nums else none
draw_options (d ∷ draws) nums =
    let rest = draw_options draws (add_number (10 + d) nums) in
    if leb 3 (length nums) then some nums else rest

abbrev pub generate_options : List ℕ → Option (List ℕ)
generate_options draws = draw_options draws []

-- `toString` of a number from 10 to 99
abbrev pub number_text : ℕ → Text
number_text n = (b'0' + n / 10) ∷ (b'0' + n % 10) ∷ []

-- `join(',')`
unfoldable pub join_comma : List Text → Text
join_comma [] = []
join_comma (t ∷ []) = t
join_comma (t ∷ s ∷ ts) = t ++ b',' ∷ join_comma (s ∷ ts)

-- One more character in front of the first part.
abbrev pub push_front : ℕ → List Text → List Text
push_front c [] = (c ∷ []) ∷ []
push_front c (t ∷ ts) = (c ∷ t) ∷ ts

-- `split(',')`
unfoldable pub split_comma : Text → List Text
split_comma [] = [] ∷ []
split_comma (c ∷ s) = let rest = split_comma s in if c == b',' then [] ∷ rest else push_front c rest

-- `nums[i]`
abbrev pub element : ℕ → List ℕ → Option ℕ
element i [] = none
element zero (n ∷ nums) = some n
element (suc i) (n ∷ nums) = element i nums
