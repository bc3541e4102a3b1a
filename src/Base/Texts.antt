-- ===== src/Base/Texts.antt =====
-- Texts as the codes of their characters, and equality of texts.
use Prim.Native.Nat.{ℕ}
use Prim.Native.Char.{code}
use Prim.Native.String.{String}
use mathlib.Core.Path.{◌≡◌, refl}
use mathlib.Core.Bool.{Bool, true, false, ◌&&◌}
use mathlib.Core.List.{List, [], ◌∷◌}
use native.Mathlib.Omega.{arith}
use terab.Base.Tests.{◌==◌, if◌then◌else◌, Bool-cases}
use mathlib.Core.Logic.{inl, inr}

-- UTF-16 code units
abbrev pub Text : Type 0
Text = List ℕ

abbrev pub codes : String → Text
codes String.[] = []
codes (String.◌∷◌ c s) = code c ∷ codes s

abbrev pub text_eq : Text → Text → Bool
text_eq [] [] = true
text_eq [] (b ∷ t) = false
text_eq (a ∷ s) [] = false
text_eq (a ∷ s) (b ∷ t) = a == b && text_eq s t

-- `list.includes(text)`, and `set.has(text)`
abbrev pub has_text : Text → List Text → Bool
has_text s [] = false
has_text s (t ∷ ts) = if text_eq s t then true else has_text s ts

pub eq-of_text_eq : (s t : Text) → text_eq s t ≡ true → s ≡ t
eq-of_text_eq [] [] h = refl
eq-of_text_eq [] (b ∷ t) h = cc
eq-of_text_eq (a ∷ s) [] h = cc
eq-of_text_eq (a ∷ s) (b ∷ t) h = elim (Bool-cases (a == b)) [
  | inl same ↦
      let tails : s ≡ t = eq-of_text_eq s t (rw same at h) in let heads : a ≡ b = ground arith in cc
  | inr other ↦ let f : false ≡ true = rw other at h in cc
]

pub text_eq_refl : (s : Text) → text_eq s s ≡ true
text_eq_refl [] = refl
text_eq_refl (a ∷ s) = let rest = text_eq_refl s in ground arith
