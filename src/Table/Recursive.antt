-- ===== src/Table/Recursive.antt =====
-- WITH RECURSIVE … UNION ALL: PostgreSQL's evaluation. The rows of the working table go into the
-- result, and the rows joined to them are the next working table; it ends with an empty one. The
-- fuel bounds the rounds; running out of it stands for a query that never ends.
use mathlib.Core.Option
use terab.Base.{
  ℕ, zero, suc, ◌+◌, ◌<◌, ◌≤◌, ◌≡◌, refl, Option, none, some, List, [], ◌∷◌, ◌++◌, arith, inl, inr,
  Has, Has-append_left, Has-append_right, Has-append, All, All-append, Option-cases, ◌⊎◌,
}

module _ {A : Type 0} where
  -- The rows joined to any row of the working table.
  abbrev pub join : (A → List A) → List A → List A
  join next [] = []
  join next (r ∷ w) = next r ++ join next w

  unfoldable pub with_recursive : ℕ → (A → List A) → List A → Option (List A)
  with_recursive zero next w = none
  with_recursive (suc n) next [] = some []
  with_recursive (suc n) next (r ∷ w) =
      Option.map (λ rest. (r ∷ w) ++ rest) (with_recursive n next (join next (r ∷ w)))

  pub Has-join :
      (next : A → List A) (w : List A) (a b : A) → Has a w → Has b (next a) → Has b (join next w)
  Has-join next [] a b h k = absurd h
  Has-join next (r ∷ w) a b (inl e) k = Has-append_left b (next r) (join next w) (rw (← e) k)
  Has-join next (r ∷ w) a b (inr h) k =
      Has-append_right b (next r) (join next w) (Has-join next w a b h k)

  -- What an evaluation that ended has done in its first round.
  unrolled :
      (n : ℕ) (next : A → List A) (r : A) (w out : List A)
      → with_recursive (suc n) next (r ∷ w) ≡ some out
      → (rest : List A) × (with_recursive n next (join next (r ∷ w)) ≡ some rest)
        × (out ≡ (r ∷ w) ++ rest)
  unfolding with_recursive
  unrolled n next r w out e = elim (Option-cases (with_recursive n next (join next (r ∷ w)))) [
    | inl bad ↦ ground arith
    | inr (rest, good) ↦ (rest, good, ground arith)
  ]

  -- More fuel does not change the result.
  pub with_recursive-suc :
      (n : ℕ) (next : A → List A) (w out : List A)
      → with_recursive n next w ≡ some out
      → with_recursive (suc n) next w ≡ some out
  unfolding with_recursive
  with_recursive-suc zero next w out e = cc
  with_recursive-suc (suc n) next [] out e = e
  with_recursive-suc (suc n) next (r ∷ w) out e =
      let (rest, good, shape) = unrolled n next r w out e in
      rw (with_recursive-suc n next (join next (r ∷ w)) rest good, shape)

  -- The working table is part of the result.
  pub working-Has :
      (n : ℕ) (next : A → List A) (w out : List A) (a : A)
      → with_recursive n next w ≡ some out
      → Has a w
      → Has a out
  unfolding with_recursive
  working-Has zero next w out a e h = cc
  working-Has (suc n) next [] out a e h = absurd h
  working-Has (suc n) next (r ∷ w) out a e h =
      let (rest, good, shape) = unrolled n next r w out e in
      rw shape (Has-append_left a (r ∷ w) rest h)

  -- The result is closed under the join.
  pub closed-Has :
      (n : ℕ) (next : A → List A) (w out : List A) (a b : A)
      → with_recursive n next w ≡ some out
      → Has a out
      → Has b (next a)
      → Has b out
  unfolding with_recursive
  closed-Has zero next w out a b e h k = cc
  closed-Has (suc n) next [] out a b e h k = absurd (rw (some-out e) at h)
    where
      some-out : some [] ≡ some out → out ≡ []
      some-out p = cc
  closed-Has (suc n) next (r ∷ w) out a b e h k =
      let (rest, good, shape) = unrolled n next r w out e in
      let split : Has a (r ∷ w) ⊎ Has a rest = Has-append a (r ∷ w) rest (rw shape at h) in
      rw shape (
        Has-append_right b (r ∷ w) rest (elim split [
          | inl now ↦
              working-Has n next (join next (r ∷ w)) rest b good (Has-join next (r ∷ w) a b now k)
          | inr later ↦ closed-Has n next (join next (r ∷ w)) rest a b good later k
        ]))

  module _ {κ} (Q : A → Type κ) (next : A → List A) (keep : (a : A) → Q a → All Q (next a)) where
    All-join : (w : List A) → All Q w → All Q (join next w)
    All-join [] q = tt
    All-join (r ∷ w) q = All-append Q (next r) (join next w) (keep r q.0) (All-join w q.1)

    -- What the join keeps holds of the whole result.
    pub with_recursive-All :
        (n : ℕ) (w out : List A) → with_recursive n next w ≡ some out → All Q w → All Q out
    unfolding with_recursive
    with_recursive-All zero w out e q = cc
    with_recursive-All (suc n) [] out e q = rw (← some-out e) tt
      where
        some-out : some [] ≡ some out → [] ≡ out
        some-out p = cc
    with_recursive-All (suc n) (r ∷ w) out e q =
        let (rest, good, shape) = unrolled n next r w out e in
        rw shape (
          All-append Q (r ∷ w) rest q
            (with_recursive-All n (join next (r ∷ w)) rest good (All-join (r ∷ w) q)))

  module _ {κ} (Q : ℕ → A → Type κ) (next : A → List A) (bound : ℕ)
      (low : (k : ℕ) (a : A) → Q k a → k < bound)
      (step : (k : ℕ) (a : A) → Q k a → All (Q (suc k)) (next a)) where
    All-join_step : (k : ℕ) (w : List A) → All (Q k) w → All (Q (suc k)) (join next w)
    All-join_step k [] q = tt
    All-join_step k (r ∷ w) q =
        All-append (Q (suc k)) (next r) (join next w) (step k r q.0) (All-join_step k w q.1)

    -- An evaluation ends where the rows of each round are marked by a number below `bound` that
    -- grows with the rounds.
    pub with_recursive_ends :
        (fuel k : ℕ) (w : List A)
        → fuel + k ≡ suc bound
        → k ≤ bound
        → All (Q k) w
        → (out : List A) × (with_recursive fuel next w ≡ some out)
    unfolding with_recursive
    with_recursive_ends zero k w e b q = absurd (omega arith)
    with_recursive_ends (suc n) k [] e b q = ([], refl)
    with_recursive_ends (suc n) k (r ∷ w) e b q =
        let (rest, good) =
          with_recursive_ends n (suc k) (join next (r ∷ w)) (omega arith) (low k r q.0)
            (All-join_step k (r ∷ w) q) in
        ((r ∷ w) ++ rest, rw good)
