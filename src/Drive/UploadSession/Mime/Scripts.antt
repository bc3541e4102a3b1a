-- ===== src/Drive/UploadSession/Mime/Scripts.antt =====
-- Which types `sanitizeMime` replaces, said without the functions that look for them.
use terab.Base.{
  codes, Text, ◌≡◌, refl, sym, ap, ◌∙◌, true, false, List, [], ◌∷◌, ◌++◌, map, ◌↔◌, ◌⊎◌, inl, inr,
  Has, All-Has, Bool-cases, eq-of_text_eq, text_eq,
}
use terab.Drive.UploadSession.Mime.{
  to_lower, before_semicolon, trim, normalized, dangerous_mime_prefixes, includes, sanitize_mime,
}
use terab.Drive.UploadSession.Mime.Trimming.{
  Spaces, Ends, is_visible, has_semicolon, is_visible-to_lower, before_semicolon-append,
  before_semicolon-split, has_semicolon-append, Spaces-has_semicolon, is_visible-has_semicolon,
  trim-split, trim-around,
}

abbrev pub script_types : List Text
script_types =
    codes "application/javascript"
    ∷ codes "application/xhtml+xml"
    ∷ codes "application/xml"
    ∷ codes "text/html"
    ∷ codes "text/javascript"
    ∷ codes "text/xml"
    ∷ []

-- White space, one of the types that a browser would run in any mix of cases, white space, and
-- perhaps parameters.
abbrev pub IsScript : Text → Type 0
IsScript m =
    (before : Text) × (name : Text) × (after : Text) × (parameters : Text) × (m
      ≡ (before ++ (name ++ after)) ++ parameters)
    × Spaces before
    × Spaces after
    × Ends parameters
    × Has (map to_lower name) script_types

includes-Has : (s : Text) (ts : List Text) → includes s ts ≡ true → Has s ts
includes-Has s [] h = cc
includes-Has s (t ∷ ts) h = elim (Bool-cases (text_eq s t)) [
  | inl same ↦ inl (eq-of_text_eq s t same)
  | inr other ↦ inr (includes-Has s ts (rw other at h))
]

includes-script_types : (s : Text) → Has s script_types → includes s dangerous_mime_prefixes ≡ true
includes-script_types s h =
    All-Has (λ t. includes t dangerous_mime_prefixes ≡ true) script_types
      (refl, (refl, (refl, (refl, (refl, (refl, tt)))))) h

script_types-includes : (s : Text) → Has s dangerous_mime_prefixes → Has s script_types
script_types-includes s h =
    All-Has (λ t. Has t script_types) dangerous_mime_prefixes
      (
        inr (inr (inr (inl refl))),
        (
          inl refl,
          (
            inr (inr (inr (inr (inl refl)))),
            (inr (inl refl), (inr (inr (inr (inr (inr (inl refl))))), (inr (inr (inl refl)), tt))),
          ),
        ),
      )
      h

script_types-is_visible : (s : Text) → Has s script_types → is_visible s ≡ true
script_types-is_visible s h =
    All-Has (λ t. is_visible t ≡ true) script_types
      (refl, (refl, (refl, (refl, (refl, (refl, tt)))))) h

normalized_iff : (m : Text) → (includes (normalized m) dangerous_mime_prefixes ≡ true) ↔ IsScript m
unfolding normalized
normalized_iff m = (
  (λ bad.
      let (parameters, e, ends) = before_semicolon-split m in
      let (a, b, e', before, after) = trim-split (before_semicolon m) in
      (
        a,
        trim (before_semicolon m),
        b,
        parameters,
        e ∙ ap (λ r. r ++ parameters) e',
        before,
        after,
        ends,
        script_types-includes _ (includes-Has _ dangerous_mime_prefixes bad),
      )),
  (λ (a, name, b, parameters, e, before, after, ends, script).
      let shown : is_visible name ≡ true =
        sym (is_visible-to_lower name) ∙ script_types-is_visible (map to_lower name) script in
      let clean : has_semicolon (a ++ (name ++ b)) ≡ false =
        has_semicolon-append a (name ++ b) (Spaces-has_semicolon a before) (
          has_semicolon-append name b (is_visible-has_semicolon name shown)
            (Spaces-has_semicolon b after)) in
      rw
        (
          e,
          before_semicolon-append (a ++ (name ++ b)) parameters clean ends,
          trim-around a name b before shown after,
        )
        (includes-script_types (map to_lower name) script)),
)

-- A type is replaced by `application/octet-stream` where, up to white space around its name, to
-- the case of its letters and to the parameters after a semicolon, it is one of the six types that
-- a browser would run, and it is kept as it is where it is none of them.
pub sanitize_mime_cases :
    (m : Text)
    → (IsScript m × (sanitize_mime m ≡ codes "application/octet-stream"))
      ⊎ (¬ (IsScript m) × (sanitize_mime m ≡ m))
unfolding sanitize_mime
sanitize_mime_cases m = elim (Bool-cases (includes (normalized m) dangerous_mime_prefixes)) [
  | inl bad ↦ inl ((normalized_iff m).0 bad, rw bad refl)
  | inr good ↦ inr (
    (λ script. let f : true ≡ false = sym ((normalized_iff m).1 script) ∙ good in cc),
    rw good refl,
  )
]
