-- ===== src/Web/UploadParts/Bytes.antt =====
-- The first bytes of a file, the others, and the slices between.
use terab.Base.{
  Bool-cases, leb, ℕ, zero, suc, ◌+◌, ◌-◌, ◌≤◌, ◌≡◌, inl, inr, refl, sym, ap, ◌∙◌, min, List, [],
  ◌∷◌, ◌++◌, length, arith,
}
use terab.Web.UploadParts.{take, drop, slice}

take-drop : (n : ℕ) (s : List ℕ) → take n s ++ drop n s ≡ s
take-drop zero s = refl
take-drop (suc n) [] = refl
take-drop (suc n) (c ∷ s) = ap (λ r. c ∷ r) (take-drop n s)

drop-nil : (n : ℕ) → drop n [] ≡ []
drop-nil zero = refl
drop-nil (suc n) = refl

drop-drop : (m n : ℕ) (s : List ℕ) → drop n (drop m s) ≡ drop (m + n) s
drop-drop zero n s = let same : 0 + n ≡ n = omega arith in rw same refl
drop-drop (suc m) n [] = drop-nil n ∙ sym (drop-nil (suc m + n))
drop-drop (suc m) n (c ∷ s) =
    let next : suc m + n ≡ suc (m + n) = omega arith in rw next (drop-drop m n s)

pub length-drop : (n : ℕ) (s : List ℕ) → length (drop n s) ≡ length s - n
length-drop zero s = omega arith
length-drop (suc n) [] = omega arith
length-drop (suc n) (c ∷ s) = omega (arith, length-drop n s)

pub length-take : (n : ℕ) (s : List ℕ) → length (take n s) ≡ min n (length s)
length-take zero s = omega arith
length-take (suc n) [] = omega arith
length-take (suc n) (c ∷ s) = omega (arith, length-take n s)

pub drop-all : (n : ℕ) (s : List ℕ) → length s ≤ n → drop n s ≡ []
drop-all zero [] h = refl
drop-all zero (c ∷ s) h = absurd (omega arith)
drop-all (suc n) [] h = refl
drop-all (suc n) (c ∷ s) h = drop-all n s (omega arith)

-- A slice of `n` bytes that ends in the file.
pub slice-min :
    (s : List ℕ) (start n : ℕ)
    → slice s start (min (start + n) (length s)) ++ drop (start + n) s ≡ drop start s
slice-min s start n = elim (Bool-cases (leb (start + n) (length s))) [
  | inl inside ↦
      let size : min (start + n) (length s) - start ≡ n = ground (arith, inside) in
      rw (size, ← (drop-drop start n s)) (take-drop n (drop start s))
  | inr outside ↦
      let size : min (start + n) (length s) - start ≡ length s - start = ground (arith, outside) in
      let over : length s ≤ start + n = ground (arith, outside) in
      let rest : drop (length s - start) (drop start s) ≡ [] =
        drop-all (length s - start) (drop start s) (omega (arith, length-drop start s)) in
      rw (size, drop-all (start + n) s over)
        (ap (λ r. take (length s - start) (drop start s) ++ r) (sym rest)
          ∙ take-drop (length s - start) (drop start s))
]
