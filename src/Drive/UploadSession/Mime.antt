-- ===== src/Drive/UploadSession/Mime.antt =====
-- `sanitizeMime` of services/api/src/file/upload-session.service.ts. `toLowerCase` is written out for
-- ASCII letters: no other character becomes one that the six types have.
pub mod Scripts
pub mod Trimming
use terab.Base.{
  codes, text_eq, Text, ℕ, ◌+◌, Bool, true, false, List, [], ◌∷◌, leb, ◌==◌, ◌&&◌, ◌||◌,
  if◌then◌else◌,
}
use mathlib.Core.List.{map, reverse}

abbrev pub to_lower : ℕ → ℕ
to_lower c = if leb b'A' c && leb c b'Z' then c + 32 else c

-- The white space that `trim` removes.
abbrev pub is_space : ℕ → Bool
is_space c =
    (leb 9 c && leb c 13)
    || c == 32
    || c == 160
    || c == 0x1680
    || (leb 0x2000 c && leb c 0x200a)
    || c == 0x2028
    || c == 0x2029
    || c == 0x202f
    || c == 0x205f
    || c == 0x3000
    || c == 0xfeff

-- `split(';')[0]`
unfoldable pub before_semicolon : Text → Text
before_semicolon [] = []
before_semicolon (c ∷ s) = if c == b';' then [] else c ∷ before_semicolon s

unfoldable pub trim_start : Text → Text
trim_start [] = []
trim_start (c ∷ s) = if is_space c then trim_start s else c ∷ s

unfoldable pub trim : Text → Text
unfolding trim_start
trim s = reverse (trim_start (reverse (trim_start s)))

unfoldable pub normalized : Text → Text
unfolding before_semicolon trim
normalized s = map to_lower (trim (before_semicolon s))

abbrev pub dangerous_mime_prefixes : List Text
dangerous_mime_prefixes =
    codes "text/html"
    ∷ codes "application/javascript"
    ∷ codes "text/javascript"
    ∷ codes "application/xhtml+xml"
    ∷ codes "text/xml"
    ∷ codes "application/xml"
    ∷ []

abbrev pub includes : Text → List Text → Bool
includes s [] = false
includes s (t ∷ ts) = if text_eq s t then true else includes s ts

abbrev pub octet_stream : Text
octet_stream = codes "application/octet-stream"

unfoldable pub sanitize_mime : Text → Text
unfolding normalized
sanitize_mime m = if includes (normalized m) dangerous_mime_prefixes then octet_stream else m
