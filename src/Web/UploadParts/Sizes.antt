-- ===== src/Web/UploadParts/Sizes.antt =====
-- The sizes of the parts of a multipart upload: the server counts the parts, the client divides the
-- file by their count.
use terab.Base.{
  ℕ, zero, suc, ◌+◌, ◌-◌, ◌*◌, ◌≤◌, ◌<◌, ◌≡◌, ◌⊎◌, ◌==◌, min, leb, Bool-cases, inl, inr, arith,
}
use terab.Drive.UploadSession.{ceil_div}

pub mul_mono : (a b c : ℕ) → a ≤ b → a * c ≤ b * c
mul_mono a b c h = grind arith

mul_mono_right : (c a b : ℕ) → a ≤ b → c * a ≤ c * b
mul_mono_right c a b h = grind arith

mul_pred : (n q : ℕ) → 0 < n → (n - 1) * q + q ≡ q * n
mul_pred zero q h = absurd (omega arith)
mul_pred (suc n) q h = let before : suc n - 1 ≡ n = omega arith in rw before (omega arith)

-- `ceil_div a b` pieces too many by less than one.
pub ceil_div_excess : (a b : ℕ) → 0 < b → ceil_div a b * b < a + b
ceil_div_excess a b hb = grind arith

-- A part but the last is over half of what the server counted with.
pub slice-large :
    (size n q p : ℕ) → 104857600 ≤ p → (n - 1) * p < size → size ≤ q * n → 1 < n → 52428800 ≤ q
slice-large size n q p hp few holds many = elim (Bool-cases (leb 52428800 q)) [
  | inl big ↦ ground arith
  | inr small ↦
      let q_low : q ≤ 52428799 = ground arith in
      absurd (omega (arith, mul_mono q 52428799 n q_low, mul_mono_right (n - 1) 104857600 p hp))
]

-- The parts before the last do not hold the file.
pub slices-short :
    (size n q : ℕ)
    → 104857600 ≤ size
    → 0 < n
    → n ≤ 9000
    → size ≤ q * n
    → q * n < size + n
    → (n - 1) * q < size
slices-short size n q hs hn few holds excess = elim (Bool-cases (leb n q)) [
  | inl wide ↦ let wide' : n ≤ q = ground arith in omega (arith, mul_pred n q hn)
  | inr narrow ↦
      let q_low : q ≤ 8999 = ground arith in absurd (omega (arith, mul_mono q 8999 n q_low))
]

-- The bytes of part `k` of `n`.
pub piece-sized :
    (size n q k l : ℕ)
    → 0 < k
    → k ≤ n
    → (n - 1) * q < size
    → size ≤ q * n
    → l ≡ min q (size - (k - 1) * q)
    → (0 < l) × (l ≤ q) × ((k ≡ n) ⊎ ((k < n) × (l ≡ q)))
piece-sized size n q k l hk le short whole weight = elim (Bool-cases (k == n)) [
  | inl last ↦ (filled, omega arith, inl (ground arith))
  | inr before ↦
      let less : k < n = ground arith in
      let full : l ≡ q = omega (arith, mul_mono k (n - 1) q (omega arith), mul_pred k q hk) in
      (filled, omega arith, inr (less, full))
]
  where
    thick : 0 < q
    thick = elim (Bool-cases (q == 0)) [
      | inl none ↦ let low : q ≤ 0 = ground arith in absurd (omega (arith, mul_mono q 0 n low))
      | inr thicker ↦ ground arith
    ]

    filled : 0 < l
    filled = omega (arith, thick, mul_mono (k - 1) (n - 1) q (omega arith))
