-- ===== src/Table.antt =====
-- SQL over a table held as a list of rows: the statements that the repositories build with drizzle.
-- A table has no order of its own; `find_where` (LIMIT 1) takes the first row that fits, and the
-- rows that the repositories look for are unique (`UniqueIds`).
pub mod Laws
pub mod Recursive
pub mod Count
use terab.Base.{
  ℕ, Bool, true, false, Option, none, some, List, [], ◌∷◌, ◌++◌, ◌==◌, ◌≢◌, All, map, if◌then◌else◌,
}

module _ {A : Type 0} where
  -- SELECT … WHERE
  abbrev pub select_where : (A → Bool) → List A → List A
  select_where p [] = []
  select_where p (r ∷ t) = let rest = select_where p t in if p r then r ∷ rest else rest

  -- SELECT … WHERE … LIMIT 1, with `const [row = null]`
  abbrev pub find_where : (A → Bool) → List A → Option A
  find_where p [] = none
  find_where p (r ∷ t) = if p r then some r else find_where p t

  -- UPDATE … SET … WHERE
  abbrev pub update_where : (A → Bool) → (A → A) → List A → List A
  update_where p f [] = []
  update_where p f (r ∷ t) = (if p r then f r else r) ∷ update_where p f t

  -- DELETE … WHERE
  abbrev pub delete_where : (A → Bool) → List A → List A
  delete_where p [] = []
  delete_where p (r ∷ t) = let rest = delete_where p t in if p r then rest else r ∷ rest

  -- INSERT
  abbrev pub insert : A → List A → List A
  insert r t = t ++ r ∷ []

  -- The first row that an UPDATE … RETURNING gives back.
  abbrev pub first : List A → Option A
  first [] = none
  first (r ∷ t) = some r

  abbrev pub exists_where : (A → Bool) → List A → Bool
  exists_where p [] = false
  exists_where p (r ∷ t) = if p r then true else exists_where p t

-- value IN (…)
abbrev pub is_in : ℕ → List ℕ → Bool
is_in a [] = false
is_in a (b ∷ bs) = if a == b then true else is_in a bs

-- A primary key: no two rows have one id.
abbrev pub UniqueIds : {A : Type 0} → (A → ℕ) → List A → Type 0
UniqueIds id [] = Unit
UniqueIds id (r ∷ t) = All (λ s. id s ≢ id r) t × UniqueIds id t
