-- ===== src/Web/UploadParts/Tests.antt =====
-- An upload of two parts on the sample drive.
use terab.Base.{
  codes, ℕ, zero, suc, ◌*◌, ◌≤◌, ◌<◌, ◌≡◌, ◌⊎◌, inl, refl, ap, none, List, [], ◌∷◌, length,
  concat_map, arith,
}
use terab.Action.{ok}
use terab.Drive.UploadSession.{
  UploadPart, UploadInitBody, UploadInitResponse, init, presign_parts, part_count_for,
  part_size_for,
}
use terab.Drive.UploadSession.Mime.{sanitize_mime, normalized}
use terab.Drive.Samples.{entries, store, world}
use terab.Web.UploadParts.{blob_of}
use terab.Web.UploadParts.Slices.{uploaded-file}

abbrev first : UploadPart
first = record { part_number = 1; upload_url = 1 ∷ [] }

abbrev second : UploadPart
second = record { part_number = 2; upload_url = 2 ∷ [] }

abbrev parts : List UploadPart
parts = first ∷ second ∷ []

abbrev five : List ℕ
five = 1 ∷ 2 ∷ 3 ∷ 4 ∷ 5 ∷ []

first_three : blob_of five parts first ≡ 1 ∷ 2 ∷ 3 ∷ []
unfolding blob_of
first_three = refl

last_two : blob_of five parts second ≡ 4 ∷ 5 ∷ []
unfolding blob_of
last_two = refl

unfoldable zeros : ℕ → List ℕ
zeros zero = []
zeros (suc n) = 0 ∷ zeros n

length-zeros : (n : ℕ) → length (zeros n) ≡ n
unfolding zeros
length-zeros zero = refl
length-zeros (suc n) = ap suc (length-zeros n)

-- One byte more than a part holds.
abbrev body : UploadInitBody
body = record { folder_id = none; name = codes "z"; size = 104857601; mime_type = codes "z" }

abbrev answer : UploadInitResponse
answer = record { session_id = 30; parts = parts; content_type = codes "z"; expires_at = 3600005 }

accepted : (init entries store 30 40 5 1 body world).0 ≡ ok answer
unfolding init presign_parts part_count_for part_size_for sanitize_mime normalized
accepted = refl

uploaded-file_example :
    let bytes = length (blob_of (zeros 104857601) parts first) in
    (concat_map (blob_of (zeros 104857601) parts) parts ≡ zeros 104857601)
    × (2 ≤ 9000)
    × (0 < bytes)
    × (bytes ≤ 100 * 1024 * 1024)
    × ((first.part_number ≡ length parts) ⊎ (50 * 1024 * 1024 ≤ bytes))
uploaded-file_example =
    uploaded-file entries store 30 40 5 1 (zeros 104857601) body world first
      (length-zeros 104857601) (omega arith) accepted (inl refl)
