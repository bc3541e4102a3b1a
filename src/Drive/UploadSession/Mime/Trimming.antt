-- ===== src/Drive/UploadSession/Mime/Trimming.antt =====
-- What `split(';')[0]` and `trim` take from a text.
use terab.Base.{
  Text, ℕ, ◌≡◌, refl, sym, ap, ◌∙◌, Bool, true, false, ◌&&◌, not, [], ◌∷◌, ◌++◌, map, ◌==◌, inl,
  inr, All, All-append, if◌then◌else◌, Bool-cases, arith,
}
use mathlib.Core.List.{reverse, append-nil, reverse-append, reverse-reverse, reverse-cons}
use terab.Drive.UploadSession.Mime.{to_lower, is_space, before_semicolon, trim_start, trim}

abbrev pub Spaces : Text → Type 0
Spaces s = All (λ c. is_space c ≡ true) s

-- Nothing, or the parameters of a type, which a semicolon begins.
abbrev pub Ends : Text → Type 0
Ends [] = Unit
Ends (c ∷ s) = c ≡ b';'

-- No white space and no semicolon.
abbrev pub is_visible : Text → Bool
is_visible [] = true
is_visible (c ∷ s) = not (is_space c) && not (c == b';') && is_visible s

abbrev pub has_semicolon : Text → Bool
has_semicolon [] = false
has_semicolon (c ∷ s) = if c == b';' then true else has_semicolon s

to_lower-is_space : (c : ℕ) → is_space (to_lower c) ≡ is_space c
to_lower-is_space c = ground arith

to_lower-semicolon : (c : ℕ) → (to_lower c == b';') ≡ (c == b';')
to_lower-semicolon c = ground arith

pub is_visible-to_lower : (s : Text) → is_visible (map to_lower s) ≡ is_visible s
is_visible-to_lower [] = refl
is_visible-to_lower (c ∷ s) =
    rw (to_lower-is_space c, to_lower-semicolon c, is_visible-to_lower s) refl

-- What a text loses at its semicolon.
pub before_semicolon-append :
    (s t : Text) → has_semicolon s ≡ false → Ends t → before_semicolon (s ++ t) ≡ s
unfolding before_semicolon
before_semicolon-append [] [] clean ends = refl
before_semicolon-append [] (c ∷ t) clean ends = rw ends refl
before_semicolon-append (c ∷ s) t clean ends = elim (Bool-cases (c == b';')) [
  | inl semicolon ↦ let f : true ≡ false = rw semicolon at clean in cc
  | inr other ↦ rw (other, before_semicolon-append s t (rw other at clean) ends) refl
]

pub before_semicolon-split : (s : Text) → (t : Text) × (s ≡ before_semicolon s ++ t) × Ends t
unfolding before_semicolon
before_semicolon-split [] = ([], refl, tt)
before_semicolon-split (c ∷ s) = elim (Bool-cases (c == b';')) [
  | inl semicolon ↦ (c ∷ s, rw semicolon refl, ground arith)
  | inr other ↦
      let (t, e, ends) = before_semicolon-split s in (t, rw other (ap (λ r. c ∷ r) e), ends)
]

pub has_semicolon-append :
    (s t : Text)
    → has_semicolon s ≡ false
    → has_semicolon t ≡ false
    → has_semicolon (s ++ t) ≡ false
has_semicolon-append [] t p q = q
has_semicolon-append (c ∷ s) t p q = elim (Bool-cases (c == b';')) [
  | inl semicolon ↦ let f : true ≡ false = rw semicolon at p in cc
  | inr other ↦ rw (other, has_semicolon-append s t (rw other at p) q) refl
]

pub Spaces-has_semicolon : (s : Text) → Spaces s → has_semicolon s ≡ false
Spaces-has_semicolon [] h = refl
Spaces-has_semicolon (c ∷ s) (space, h) =
    let rest = Spaces-has_semicolon s h in ground (arith, space, rest)

pub is_visible-has_semicolon : (s : Text) → is_visible s ≡ true → has_semicolon s ≡ false
is_visible-has_semicolon [] h = refl
is_visible-has_semicolon (c ∷ s) h = elim (Bool-cases (is_space c)) [
  | inl space ↦ let f : false ≡ true = rw space at h in cc
  | inr shown ↦ elim (Bool-cases (c == b';')) [
    | inl semicolon ↦ let f : false ≡ true = rw (shown, semicolon) at h in cc
    | inr other ↦ rw (other, is_visible-has_semicolon s (rw (shown, other) at h)) refl
  ]
]

-- What a text loses at its start and at its end.
trim_start-Spaces : (s t : Text) → Spaces s → trim_start (s ++ t) ≡ trim_start t
unfolding trim_start
trim_start-Spaces [] t h = refl
trim_start-Spaces (c ∷ s) t (space, h) = rw (space, trim_start-Spaces s t h) refl

trim_start-split : (s : Text) → (t : Text) × (s ≡ t ++ trim_start s) × Spaces t
unfolding trim_start
trim_start-split [] = ([], refl, tt)
trim_start-split (c ∷ s) = elim (Bool-cases (is_space c)) [
  | inl space ↦
      let (t, e, spaces) = trim_start-split s in
      (c ∷ t, rw space (ap (λ r. c ∷ r) e), (space, spaces))
  | inr shown ↦ ([], rw shown refl, tt)
]

Spaces-reverse : (s : Text) → Spaces s → Spaces (reverse s)
Spaces-reverse [] h = tt
Spaces-reverse (c ∷ s) (space, h) =
    rw (reverse-cons c s)
      (All-append (λ c. is_space c ≡ true) (reverse s) (c ∷ []) (Spaces-reverse s h) (space, tt))

pub trim-split :
    (s : Text) → (a : Text) × (b : Text) × (s ≡ a ++ (trim s ++ b)) × Spaces a × Spaces b
unfolding trim
trim-split s =
    let (a, e, before) = trim_start-split s in
    let inner = trim_start s in
    let (b, e', after) = trim_start-split (reverse inner) in
    let whole : inner ≡ reverse (trim_start (reverse inner)) ++ reverse b =
      sym (reverse-reverse inner) ∙ ap reverse e' ∙ reverse-append b (trim_start (reverse inner)) in
    (a, reverse b, e ∙ ap (λ r. a ++ r) whole, before, Spaces-reverse b after)

is_visible-cons :
    (c : ℕ) (s : Text)
    → is_visible (c ∷ s) ≡ true
    → (is_space c ≡ false) × (is_visible (c ∷ []) ≡ true) × (is_visible s ≡ true)
is_visible-cons c s h = elim (Bool-cases (is_space c)) [
  | inl space ↦ let f : false ≡ true = rw space at h in cc
  | inr shown ↦ elim (Bool-cases (c == b';')) [
    | inl semicolon ↦ let f : false ≡ true = rw (shown, semicolon) at h in cc
    | inr other ↦ (shown, rw (shown, other) refl, rw (shown, other) at h)
  ]
]

is_visible-append :
    (s t : Text) → is_visible s ≡ true → is_visible t ≡ true → is_visible (s ++ t) ≡ true
is_visible-append [] t p q = q
is_visible-append (c ∷ s) t p q =
    let (shown, one, rest) = is_visible-cons c s p in
    elim (Bool-cases (c == b';')) [
      | inl semicolon ↦ let f : false ≡ true = rw (shown, semicolon) at one in cc
      | inr other ↦ rw (shown, other, is_visible-append s t rest q) refl
    ]

is_visible-reverse : (s : Text) → is_visible s ≡ true → is_visible (reverse s) ≡ true
is_visible-reverse [] h = refl
is_visible-reverse (c ∷ s) h =
    let (shown, one, rest) = is_visible-cons c s h in
    rw (reverse-cons c s) (is_visible-append (reverse s) (c ∷ []) (is_visible-reverse s rest) one)

trim_start-visible : (s : Text) → is_visible s ≡ true → trim_start s ≡ s
unfolding trim_start
trim_start-visible [] h = refl
trim_start-visible (c ∷ s) h = rw (is_visible-cons c s h).0 refl

-- A name that has no white space, and white space around it.
pub trim-around :
    (a s b : Text) → Spaces a → is_visible s ≡ true → Spaces b → trim (a ++ (s ++ b)) ≡ s
unfolding trim
trim-around a [] b before shown after =
    let blank : trim_start b ≡ [] = rw (append-nil b) at (trim_start-Spaces b [] after) in
    rw (trim_start-Spaces a b before, blank) refl
trim-around a (c ∷ s) b before shown after =
    let name = c ∷ s in
    let started : trim_start (name ++ b) ≡ name ++ b = rw (is_visible-cons c s shown).0 refl in
    let ended : trim_start (reverse (name ++ b)) ≡ reverse name =
      ap trim_start (reverse-append name b)
      ∙ trim_start-Spaces (reverse b) (reverse name) (Spaces-reverse b after)
      ∙ trim_start-visible (reverse name) (is_visible-reverse name shown) in
    ap (λ r. reverse (trim_start (reverse r))) (trim_start-Spaces a (name ++ b) before ∙ started)
    ∙ ap reverse ended
    ∙ reverse-reverse name
