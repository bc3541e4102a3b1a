-- ===== src/Base/Lists.antt =====
-- Lists measured by native numbers, membership and "for all" as predicates by recursion.
use Prim.Native.Nat.{ℕ, suc, ◌+◌}
use mathlib.Core.Path.{◌≡◌, refl}
use mathlib.Core.Logic.{◌⊎◌, inl, inr}
use mathlib.Core.List.{List, [], ◌∷◌, ◌++◌}
use native.Mathlib.Omega.{arith}

module _ {ℓ} {A : Type ℓ} where
  abbrev pub length : List A → ℕ
  length [] = 0
  length (x ∷ xs) = suc (length xs)

  pub length-append : (xs ys : List A) → length (xs ++ ys) ≡ length xs + length ys
  length-append [] ys = omega arith
  length-append (x ∷ xs) ys = omega (arith, length-append xs ys)

module _ {A : Type 0} where
  -- `a` stands in the list.
  abbrev pub Has : A → List A → Type 0
  Has a [] = ⊥
  Has a (x ∷ xs) = (a ≡ x) ⊎ Has a xs

  pub Has-append_left : (a : A) (xs ys : List A) → Has a xs → Has a (xs ++ ys)
  Has-append_left a [] ys h = absurd h
  Has-append_left a (x ∷ xs) ys (inl e) = inl e
  Has-append_left a (x ∷ xs) ys (inr h) = inr (Has-append_left a xs ys h)

  pub Has-append_right : (a : A) (xs ys : List A) → Has a ys → Has a (xs ++ ys)
  Has-append_right a [] ys h = h
  Has-append_right a (x ∷ xs) ys h = inr (Has-append_right a xs ys h)

  pub Has-append : (a : A) (xs ys : List A) → Has a (xs ++ ys) → Has a xs ⊎ Has a ys
  Has-append a [] ys h = inr h
  Has-append a (x ∷ xs) ys (inl e) = inl (inl e)
  Has-append a (x ∷ xs) ys (inr h) = elim (Has-append a xs ys h) [
    | inl l ↦ inl (inr l)
    | inr r ↦ inr r
  ]

module _ {κ} {A : Type 0} (P : A → Type κ) where
  abbrev pub All : List A → Type κ
  All [] = Unit
  All (x ∷ xs) = P x × All xs

  pub All-Has : (xs : List A) {a : A} → All xs → Has a xs → P a
  All-Has [] p h = absurd h
  All-Has (x ∷ xs) p (inl e) = rw e p.0
  All-Has (x ∷ xs) p (inr h) = All-Has xs p.1 h

  pub All-append : (xs ys : List A) → All xs → All ys → All (xs ++ ys)
  All-append [] ys p q = q
  All-append (x ∷ xs) ys p q = (p.0, All-append xs ys p.1 q)

  pub All-append_left : (xs ys : List A) → All (xs ++ ys) → All xs
  All-append_left [] ys p = tt
  All-append_left (x ∷ xs) ys p = (p.0, All-append_left xs ys p.1)

  pub All-of_Has : (xs : List A) → ((a : A) → Has a xs → P a) → All xs
  All-of_Has [] f = tt
  All-of_Has (x ∷ xs) f = (f x (inl refl), All-of_Has xs (λ a h. f a (inr h)))

module _ {κ μ} {A : Type 0} (P : A → Type κ) (Q : A → Type μ) (f : (a : A) → P a → Q a) where
  pub All-mono : (xs : List A) → All P xs → All Q xs
  All-mono [] p = tt
  All-mono (x ∷ xs) p = (f x p.0, All-mono xs p.1)

-- The lists of all elements, one after the other.
abbrev pub concat_map {ℓ} : {A : Type ℓ} {B : Type 0} → (A → List B) → List A → List B
concat_map f [] = []
concat_map f (x ∷ xs) = f x ++ concat_map f xs

module _ {A B : Type 0} (f : A → List B) where
  pub Has-concat_map :
      (b : B) (a : A) (xs : List A) → Has a xs → Has b (f a) → Has b (concat_map f xs)
  Has-concat_map b a [] h k = absurd h
  Has-concat_map b a (x ∷ xs) (inl e) k = Has-append_left b (f x) (concat_map f xs) (rw (← e) k)
  Has-concat_map b a (x ∷ xs) (inr h) k =
      Has-append_right b (f x) (concat_map f xs) (Has-concat_map b a xs h k)

  pub Has-of_concat_map :
      (b : B) (xs : List A) → Has b (concat_map f xs) → (a : A) × Has a xs × Has b (f a)
  Has-of_concat_map b [] h = absurd h
  Has-of_concat_map b (x ∷ xs) h = elim (Has-append b (f x) (concat_map f xs) h) [
    | inl here ↦ (x, inl refl, here)
    | inr later ↦ let (a, k, there) = Has-of_concat_map b xs later in (a, inr k, there)
  ]
