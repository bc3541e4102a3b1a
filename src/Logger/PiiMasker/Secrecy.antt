-- ===== src/Logger/PiiMasker/Secrecy.antt =====
-- Nothing that stands under a masked key is logged, and nothing deeper than the limit.
use terab.Base.{
  ℕ, suc, ◌+◌, ◌≤◌, ◌≡◌, refl, sym, ◌∙◌, ap, Option, List, ◌∷◌, [], leb, Text, codes, has_text, max,
  Bool-cases, Option-cases, ltb, inl, inr, arith, if◌then◌else◌,
}
use terab.Table.{is_in}
use terab.Logger.PiiMasker.{
  Value, primitive, array, convertible, object, Values, no_values, value, Fields, no_fields, field,
  mask, is_masked, walk, walk_values, walk_fields, mask_value, max_mask_depth,
}

-- The names under which a trace may show nothing, in lower case.
abbrev pub secret_names : List Text
secret_names =
    codes "password"
    ∷ codes "currentpassword"
    ∷ codes "newpassword"
    ∷ codes "token"
    ∷ codes "accesstoken"
    ∷ codes "refreshtoken"
    ∷ codes "secret"
    ∷ codes "apikey"
    ∷ codes "authorization"
    ∷ codes "totpsecret"
    ∷ codes "otp"
    ∷ []

module _ (lower : Text → Text) where
  -- The value without what stands under masked keys, at every depth.
  abbrev mutual
    pub erase : Value → Value
    erase (primitive p) = primitive p
    erase (convertible i p) = convertible i p
    erase (array i vs) = array i (erase_values vs)
    erase (object i fs) = object i (erase_fields fs)

    pub erase_values : Values → Values
    erase_values no_values = no_values
    erase_values (value v vs) = value (erase v) (erase_values vs)

    pub erase_fields : Fields → Fields
    erase_fields no_fields = no_fields
    erase_fields (field key v fs) =
        field key (if has_text (lower key) secret_names then mask else erase v) (erase_fields fs)

  mutual
    unfolding walk walk_values walk_fields

    walk-erase :
        (v : Value) (depth : ℕ) (seen : List ℕ)
        → walk lower (erase v) depth seen ≡ walk lower v depth seen
    walk-erase (primitive p) depth seen = refl
    walk-erase (convertible i p) depth seen = refl
    walk-erase (array i vs) depth seen = rw (walk_values-erase vs (suc depth) (i ∷ seen)) refl
    walk-erase (object i fs) depth seen = rw (walk_fields-erase fs (suc depth) (i ∷ seen)) refl

    walk_values-erase :
        (vs : Values) (depth : ℕ) (seen : List ℕ)
        → walk_values lower (erase_values vs) depth seen ≡ walk_values lower vs depth seen
    walk_values-erase no_values depth seen = refl
    walk_values-erase (value v vs) depth seen =
        rw (walk-erase v depth seen, walk_values-erase vs depth (walk lower v depth seen).1) refl

    walk_fields-erase :
        (fs : Fields) (depth : ℕ) (seen : List ℕ)
        → walk_fields lower (erase_fields fs) depth seen ≡ walk_fields lower fs depth seen
    walk_fields-erase no_fields depth seen = refl
    walk_fields-erase (field key v fs) depth seen = elim (Bool-cases (is_masked lower key)) [
      | inl hidden ↦ rw (hidden, walk_fields-erase fs depth seen) refl
      | inr shown ↦
          rw
            (shown, walk-erase v depth seen, walk_fields-erase fs depth (walk lower v depth seen).1)
            refl
    ]

  -- Two values that agree up to what stands under masked keys, at whatever depth, are masked to
  -- the same value, so nothing of what stands under a masked key reaches a trace.
  pub masked-alike :
      (size : Value → Option ℕ) (truncated : ℕ → Value) (v v' : Value) (limit : ℕ)
      → erase v ≡ erase v'
      → mask_value lower size truncated v limit ≡ mask_value lower size truncated v' limit
  unfolding mask_value
  masked-alike size truncated v v' limit alike =
      let e : walk lower v 0 [] ≡ walk lower v' 0 [] =
        sym (walk-erase v 0 []) ∙ ap (λ u. walk lower u 0 []) alike ∙ walk-erase v' 0 [] in
      rw e refl

-- How many arrays and objects stand in one another.
abbrev mutual
  pub levels : Value → ℕ
  levels (primitive p) = 0
  levels (convertible i p) = 1
  levels (array i vs) = suc (levels_values vs)
  levels (object i fs) = suc (levels_fields fs)

  pub levels_values : Values → ℕ
  levels_values no_values = 0
  levels_values (value v vs) = max (levels v) (levels_values vs)

  pub levels_fields : Fields → ℕ
  levels_fields no_fields = 0
  levels_fields (field key v fs) = max (levels v) (levels_fields fs)

module _ (lower : Text → Text) where
  mutual
    unfolding walk walk_values walk_fields

    walk-levels :
        (v : Value) (depth : ℕ) (seen : List ℕ)
        → depth ≤ max_mask_depth
        → levels (walk lower v depth seen).0 + depth ≤ max_mask_depth
    walk-levels (primitive p) depth seen low = omega arith
    walk-levels (convertible i p) depth seen low = elim (Bool-cases (leb max_mask_depth depth)) [
      | inl over ↦ rw over (omega arith)
      | inr under ↦ elim (Bool-cases (is_in i seen)) [
        | inl again ↦ rw (under, again) (omega arith)
        | inr new ↦ rw (under, new) (omega arith)
      ]
    ]
    walk-levels (array i vs) depth seen low = elim (Bool-cases (leb max_mask_depth depth)) [
      | inl over ↦ rw over (omega arith)
      | inr under ↦ elim (Bool-cases (is_in i seen)) [
        | inl again ↦ rw (under, again) (omega arith)
        | inr new ↦
            let below : suc depth ≤ max_mask_depth = ground arith in
            rw (under, new) (omega (arith, walk_values-levels vs (suc depth) (i ∷ seen) below))
      ]
    ]
    walk-levels (object i fs) depth seen low = elim (Bool-cases (leb max_mask_depth depth)) [
      | inl over ↦ rw over (omega arith)
      | inr under ↦ elim (Bool-cases (is_in i seen)) [
        | inl again ↦ rw (under, again) (omega arith)
        | inr new ↦
            let below : suc depth ≤ max_mask_depth = ground arith in
            rw (under, new) (omega (arith, walk_fields-levels fs (suc depth) (i ∷ seen) below))
      ]
    ]

    walk_values-levels :
        (vs : Values) (depth : ℕ) (seen : List ℕ)
        → depth ≤ max_mask_depth
        → levels_values (walk_values lower vs depth seen).0 + depth ≤ max_mask_depth
    walk_values-levels no_values depth seen low = omega arith
    walk_values-levels (value v vs) depth seen low = omega (
      arith,
      walk-levels v depth seen low,
      walk_values-levels vs depth (walk lower v depth seen).1 low,
    )

    walk_fields-levels :
        (fs : Fields) (depth : ℕ) (seen : List ℕ)
        → depth ≤ max_mask_depth
        → levels_fields (walk_fields lower fs depth seen).0 + depth ≤ max_mask_depth
    walk_fields-levels no_fields depth seen low = omega arith
    walk_fields-levels (field key v fs) depth seen low = elim (Bool-cases (is_masked lower key)) [
      | inl hidden ↦ rw hidden (omega (arith, walk_fields-levels fs depth seen low))
      | inr shown ↦ rw shown (
          omega (
            arith,
            walk-levels v depth seen low,
            walk_fields-levels fs depth (walk lower v depth seen).1 low,
          ))
    ]

  -- Where the text for a value that is too large is flat, a masked value has at most ten arrays
  -- and objects in one another.
  pub mask_value-levels :
      (size : Value → Option ℕ) (truncated : ℕ → Value) (v : Value) (limit : ℕ)
      → ((n : ℕ) → levels (truncated n) ≤ 10)
      → levels (mask_value lower size truncated v limit) ≤ 10
  unfolding mask_value
  mask_value-levels size truncated v limit flat =
      let masked = (walk lower v 0 []).0 in
      let low : levels masked ≤ max_mask_depth = omega (arith, walk-levels v 0 [] (omega arith)) in
      elim (Option-cases (size masked)) [
        | inl unknown ↦ rw unknown low
        | inr (bytes, known) ↦ elim (Bool-cases (ltb limit bytes)) [
          | inl over ↦ rw (known, over) (flat bytes)
          | inr fits ↦ rw (known, fits) low
        ]
      ]
