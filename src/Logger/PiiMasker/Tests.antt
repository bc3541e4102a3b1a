-- ===== src/Logger/PiiMasker/Tests.antt =====
-- Runs of the masker, and the theorems about it at them.
use terab.Base.{ℕ, ◌≡◌, ◌≤◌, refl, Option, some, Text, codes, map, arith}
use terab.Drive.UploadSession.Mime.{to_lower}
use terab.Logger.PiiMasker.{
  Value, text, plain, primitive, convertible, circular, array, object, value, no_values, field,
  no_fields, mask, walk, mask_value,
}
use terab.Logger.PiiMasker.Secrecy.{masked-alike, mask_value-levels, levels}

abbrev string : Text → Value
string t = primitive (text t)

abbrev lower : Text → Text
lower = map to_lower

abbrev small : Value → Option ℕ
small v = some 10

abbrev short : ℕ → Value
short n = string (codes "<truncated>")

abbrev login_body : Text → Value
login_body password = object 1 (
    field (codes "username") (string (codes "u"))
      (field (codes "Password") (string password) no_fields))

hides_password :
    mask_value lower small short (login_body (codes "pw")) 8192
    ≡ object 1
        (field (codes "username") (string (codes "u")) (field (codes "Password") mask no_fields))
unfolding mask_value walk
hides_password = refl

-- A text that stands in no object has no key.
keeps_positional :
    mask_value lower small short (array 1 (value (string (codes "secret")) no_values)) 8192
    ≡ array 1 (value (string (codes "secret")) no_values)
unfolding mask_value walk
keeps_positional = refl

-- The second time, a date counts as circular.
converts_once :
    mask_value lower small short
      (array 1
        (value (convertible 2 (text (codes "2026"))) (value (convertible 2 (plain 0)) no_values)))
      8192
    ≡ array 1 (value (string (codes "2026")) (value circular no_values))
unfolding mask_value walk
converts_once = refl

masked-alike_example :
    mask_value lower small short (login_body (codes "pw")) 8192
    ≡ mask_value lower small short (login_body (codes "other")) 8192
masked-alike_example =
    masked-alike lower small short (login_body (codes "pw")) (login_body (codes "other")) 8192 refl

mask_value-levels_example :
    levels (mask_value lower small short (login_body (codes "pw")) 8192) ≤ 10
mask_value-levels_example =
    mask_value-levels lower small short (login_body (codes "pw")) 8192 (λ n. omega arith)
