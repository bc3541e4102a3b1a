-- ===== src/Table/Count.antt =====
-- How many rows fit a test: the pigeonhole behind the bound on recursive queries.
use terab.Base.{
  ℕ, ◌+◌, ◌≤◌, ◌<◌, ◌≡◌, Bool, true, false, List, [], ◌∷◌, arith, inl, inr, Has, length,
  if◌then◌else◌,
}

module _ {A : Type 0} where
  abbrev pub count : (A → Bool) → List A → ℕ
  count p [] = 0
  count p (r ∷ t) = (if p r then 1 else 0) + count p t

  pub count-le-length : (p : A → Bool) (t : List A) → count p t ≤ length t
  count-le-length p [] = omega arith
  count-le-length p (r ∷ t) = ground (arith, count-le-length p t)

  pub count-lt-length :
      (p : A → Bool) (t : List A) (a : A) → Has a t → p a ≡ false → count p t < length t
  count-lt-length p [] a h e = absurd h
  count-lt-length p (r ∷ t) a (inl same) e =
      let out : p r ≡ false = rw (← same) e in rw out (omega (arith, count-le-length p t))
  count-lt-length p (r ∷ t) a (inr h) e = ground (arith, count-lt-length p t a h e)

  module _ (p q : A → Bool) (p→q : (a : A) → p a ≡ true → q a ≡ true) where
    pub count_mono : (t : List A) → count p t ≤ count q t
    count_mono [] = omega arith
    count_mono (r ∷ t) = ground (arith, count_mono t, p→q r)

    pub count-lt-count :
        (t : List A) (a : A) → Has a t → p a ≡ false → q a ≡ true → count p t < count q t
    count-lt-count [] a h e f = absurd h
    count-lt-count (r ∷ t) a (inl same) e f =
        let e' : p r ≡ false = rw (← same) e in
        let f' : q r ≡ true = rw (← same) f in rw (e', f') (omega (arith, count_mono t))
    count-lt-count (r ∷ t) a (inr h) e f = ground (arith, count-lt-count t a h e f, p→q r)
