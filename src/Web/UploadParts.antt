-- ===== src/Web/UploadParts.antt =====
-- services/web/src/features/file-upload/model/upload-parts.ts: which bytes of a file the web client
-- puts to the URL of each part. The sending itself, its retries and the order in which parts are
-- taken from the queue are not modelled; a file is the list of its bytes.
pub mod Bytes
pub mod Sizes
pub mod Slices
pub mod Tests
use terab.Base.{ℕ, zero, suc, ◌+◌, ◌-◌, ◌*◌, min, List, [], ◌∷◌, length}
use terab.Drive.UploadSession.{UploadPart, ceil_div}

abbrev pub take : ℕ → List ℕ → List ℕ
take zero s = []
take (suc n) [] = []
take (suc n) (c ∷ s) = c ∷ take n s

abbrev pub drop : ℕ → List ℕ → List ℕ
drop zero s = s
drop (suc n) [] = []
drop (suc n) (c ∷ s) = drop n s

-- `file.slice(start, end)`
abbrev pub slice : List ℕ → (start end : ℕ) → List ℕ
slice file start end = take (end - start) (drop start file)

-- `Math.ceil(file.size / parts.length)`
abbrev pub part_size : List ℕ → List UploadPart → ℕ
part_size file parts = ceil_div (length file) (length parts)

-- The bytes that are put for a part.
unfoldable pub blob_of : List ℕ → List UploadPart → UploadPart → List ℕ
blob_of file parts part =
    let size = part_size file parts in
    let start = (part.part_number - 1) * size in slice file start (min (start + size) (length file))
