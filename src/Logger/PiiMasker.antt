-- ===== src/Logger/PiiMasker.antt =====
-- services/api/src/logger/pii-masker.ts: the masking of values before they are logged. `lower` is
-- `toLocaleLowerCase`; `size` is the number of bytes of `JSON.stringify`, `none` where it gives nothing;
-- `truncated` is the text `<truncated:size=…>`.
pub mod Secrecy
pub mod Tests
use terab.Base.{
  ℕ, suc, ◌+◌, Bool, true, false, Option, none, some, List, [], ◌∷◌, leb, ltb, Text, codes,
  has_text, if◌then◌else◌,
}
use terab.Table.{is_in}

-- What is no object: a text, or a number that stands for any other such value (null, undefined, a
-- Boolean, a number).
pub data Primitive : Type 0 where
  plain : ℕ → Primitive
  text : Text → Primitive

-- A JavaScript value as the masker sees it. What is an object carries its identity, for `WeakSet`.
-- `convertible` is an object whose `toJSON` gives no object, as that of a `Date` does; the fields of
-- any other object that is no array are those of what its `toJSON` gives, or its own where it has
-- none. A value that contains itself is written out as far as the masker reads it.
mutual
  pub data Value : Type 0 where
    primitive : Primitive → Value
    array : (identity : ℕ) → Values → Value
    convertible : (identity : ℕ) → Primitive → Value
    object : (identity : ℕ) → Fields → Value

  pub data Values : Type 0 where
    no_values : Values
    value : Value → Values → Values

  pub data Fields : Type 0 where
    no_fields : Fields
    field : Text → Value → Fields → Fields

abbrev pub max_mask_depth : ℕ
max_mask_depth = 10

abbrev pub mask_keys : List Text
mask_keys =
    codes "password"
    ∷ codes "currentpassword"
    ∷ codes "newpassword"
    ∷ codes "token"
    ∷ codes "accesstoken"
    ∷ codes "refreshtoken"
    ∷ codes "secret"
    ∷ codes "apikey"
    ∷ codes "authorization"
    ∷ codes "totpsecret"
    ∷ codes "otp"
    ∷ []

abbrev pub circular : Value
circular = primitive (text (codes "<circular>"))

abbrev pub deep : Value
deep = primitive (text (codes "<deep>"))

abbrev pub mask : Value
mask = primitive (text (codes "***"))

module _ (lower : Text → Text) where
  abbrev pub is_masked : Text → Bool
  is_masked key = has_text (lower key) mask_keys

  -- The identities that were seen come back beside the value.
  unfoldable mutual
    pub walk : Value → (depth : ℕ) → List ℕ → Value × List ℕ
    walk (primitive p) depth seen = (primitive p, seen)
    walk (array i vs) depth seen =
        let (items, after) = walk_values vs (suc depth) (i ∷ seen) in
        if leb max_mask_depth depth
        then (deep, seen)
        else (if is_in i seen then (circular, seen) else (array i items, after))
    walk (convertible i p) depth seen =
        if leb max_mask_depth depth
        then (deep, seen)
        else (if is_in i seen then (circular, seen) else (primitive p, i ∷ seen))
    walk (object i fs) depth seen =
        let (fields, after) = walk_fields fs (suc depth) (i ∷ seen) in
        if leb max_mask_depth depth
        then (deep, seen)
        else (if is_in i seen then (circular, seen) else (object i fields, after))

    pub walk_values : Values → (depth : ℕ) → List ℕ → Values × List ℕ
    walk_values no_values depth seen = (no_values, seen)
    walk_values (value v vs) depth seen =
        let (w, seen1) = walk v depth seen in
        let (ws, seen2) = walk_values vs depth seen1 in (value w ws, seen2)

    pub walk_fields : Fields → (depth : ℕ) → List ℕ → Fields × List ℕ
    walk_fields no_fields depth seen = (no_fields, seen)
    walk_fields (field key v fs) depth seen =
        let (w, seen1) = walk v depth seen in
        let (rest, seen2) = walk_fields fs depth (if is_masked key then seen else seen1) in
        (field key (if is_masked key then mask else w) rest, seen2)

  abbrev pub limited : (truncated : ℕ → Value) → (limit : ℕ) → Value → Option ℕ → Value
  limited truncated limit v none = v
  limited truncated limit v (some bytes) = if ltb limit bytes then truncated bytes else v

  unfoldable pub mask_value :
      (size : Value → Option ℕ) (truncated : ℕ → Value) → Value → (limit : ℕ) → Value
  mask_value size truncated v limit =
      let masked = (walk v 0 []).0 in limited truncated limit masked (size masked)
