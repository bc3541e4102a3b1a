-- ===== src/Web/UploadParts/Slices.antt =====
-- What the client puts to the URLs that `init` gave it.
use terab.Base.{
  Bool-cases, ltb, false, ℕ, zero, suc, ◌+◌, ◌-◌, ◌*◌, ◌≤◌, ◌<◌, ◌≡◌, ◌⊎◌, inl, inr, refl, sym, ap,
  ◌∙◌, min, List, [], ◌∷◌, length, Has, concat_map, some, arith,
}
use terab.ErrorCode.{api, file_too_large}
use terab.Action.{World, ok, err, throw_if, external}
use terab.Action.Laws.{bind-ok}
use terab.Drive.Schema.{DriveDb, MinioKey, multipart}
use terab.Drive.Outside.{Cache, ObjectStore}
use terab.Drive.UploadSession.{
  UploadPart, UploadInitBody, UploadInitResponse, presign_parts, init, init_multipart, ceil_div,
  part_count_for, part_size_for, multipart_threshold, max_file_size, check_folder,
  default_part_size, url_expiry_sec, new_key, new_session, init_response, max_parts,
}
use terab.Drive.UploadSession.Mime.{sanitize_mime}
use terab.Drive.UploadSession.Parts.{
  part_count_lem, part_size_min, part_size_max, ceil_div_lem, ceil_div-le,
}
use terab.Web.UploadParts.{drop, slice, blob_of}
use terab.Web.UploadParts.Bytes.{length-drop, length-take, drop-all, slice-min}
use terab.Web.UploadParts.Sizes.{slice-large, slices-short, ceil_div_excess, piece-sized, mul_mono}

-- The parts are numbered from `n` on.
abbrev IsNumbered : List UploadPart → ℕ → Type 0
IsNumbered [] n = Unit
IsNumbered (p ∷ ps) n = (p.part_number ≡ n) × IsNumbered ps (suc n)

module _ (file : List ℕ) (q : ℕ) where
  abbrev piece : UploadPart → List ℕ
  piece p = let start = (p.part_number - 1) * q in slice file start (min (start + q) (length file))

  -- The pieces from the number `i + 1` on are the file from there on.
  concat_map-piece :
      (ps : List UploadPart) (i : ℕ)
      → IsNumbered ps (suc i)
      → length file ≤ (i + length ps) * q
      → concat_map piece ps ≡ drop (i * q) file
  concat_map-piece [] i numbered holds = sym (drop-all (i * q) file (omega arith))
  concat_map-piece (p ∷ ps) i (number, numbered) holds =
      let before : p.part_number - 1 ≡ i = omega arith in
      let next : suc i * q ≡ i * q + q = omega arith in
      let rest : concat_map piece ps ≡ drop (i * q + q) file =
        rw next at (concat_map-piece ps (suc i) numbered (rw next_end holds)) in
      rw (before, rest) (slice-min file (i * q) q)
    where
      next_end : suc i + length ps ≡ i + suc (length ps)
      next_end = omega arith

  piece-length :
      (p : UploadPart)
      → (p.part_number - 1) * q ≤ length file
      → length (piece p) ≡ min q (length file - (p.part_number - 1) * q)
  piece-length p inside = omega (
    arith,
    length-take (min ((p.part_number - 1) * q + q) (length file) - (p.part_number - 1) * q)
        (drop ((p.part_number - 1) * q) file),
    length-drop ((p.part_number - 1) * q) file,
  )

Has-IsNumbered :
    (p : UploadPart) (ps : List UploadPart) (n : ℕ)
    → IsNumbered ps n
    → Has p ps
    → (n ≤ p.part_number) × (p.part_number < n + length ps)
Has-IsNumbered p [] n numbered h = absurd h
Has-IsNumbered p (r ∷ ps) n (number, numbered) (inl e) =
    let same : p.part_number ≡ n = rw e number in (omega arith, omega arith)
Has-IsNumbered p (r ∷ ps) n (number, numbered) (inr h) =
    let (low, high) = Has-IsNumbered p ps (suc n) numbered h in (omega arith, omega arith)

module _ {X : Type 0} (cache : Cache X) (minio : ObjectStore X) where
  presign_parts-IsNumbered :
      (key : MinioKey) (upload count number : ℕ) (w : World DriveDb X) {ps : List UploadPart}
      → (presign_parts cache minio key upload count number w).0 ≡ ok ps
      → IsNumbered ps number × (length ps ≡ count)
  unfolding presign_parts
  presign_parts-IsNumbered key upload zero number w {ps} done =
      let e : [] ≡ ps = cc in rw (← e) (tt, refl)
  presign_parts-IsNumbered key upload (suc count) number w {ps} done =
      let (url, signed, done1, same1) =
        bind-ok (external (minio.presigned_put_part key upload number url_expiry_sec)) _ w done in
      let w1 = (external (minio.presigned_put_part key upload number url_expiry_sec) w).1 in
      let (rest, more, done2, same2) =
        bind-ok (presign_parts cache minio key upload count (number + 1)) _ w1 done1 in
      let (numbered, counted) = presign_parts-IsNumbered key upload count (number + 1) w1 more in
      let e : record { part_number = number; upload_url = url } ∷ rest ≡ ps = cc in
      let next : number + 1 ≡ suc number = omega arith in
      rw (← e) ((refl, rw (← next) numbered), omega (arith, counted))

  ok_injective : {A : Type 0} {a b : A} → ok a ≡ ok b → a ≡ b
  ok_injective h = cc

  init_multipart-ok :
      (id uuid now user : ℕ) (body : UploadInitBody) (w : World DriveDb X)
      {response : UploadInitResponse}
      → (init_multipart cache minio id uuid now user body w).0 ≡ ok response
      → IsNumbered response.parts 1 × (length response.parts ≡ part_count_for body.size)
  init_multipart-ok id uuid now user body w {response} done =
      let key = new_key user uuid in
      let few = throw_if (ltb max_parts (part_count_for body.size)) file_too_large in
      let starts = external (minio.create_multipart_upload key (sanitize_mime body.mime_type)) in
      let (u, low, done1, same1) = bind-ok few _ w done in
      let (upload, started, done2, same2) = bind-ok starts _ w done1 in
      let w2 = (starts w).1 in
      let signs = presign_parts cache minio key upload (part_count_for body.size) 1 in
      let (parts, signed, done3, same3) = bind-ok signs _ w2 done2 in
      let e : init_response (new_session id now user body key multipart (some upload)) parts
          ≡ response =
        ok_injective done3 in
      let same : parts ≡ response.parts = ap (λ (r : UploadInitResponse). r.parts) e in
      rw (← same) (presign_parts-IsNumbered key upload (part_count_for body.size) 1 w2 signed)

  init-ok :
      (id uuid now user : ℕ) (body : UploadInitBody) (w : World DriveDb X)
      {response : UploadInitResponse}
      → multipart_threshold ≤ body.size
      → (init cache minio id uuid now user body w).0 ≡ ok response
      → (body.size ≤ max_file_size)
        × IsNumbered response.parts 1
        × (length response.parts ≡ part_count_for body.size)
  unfolding init
  init-ok id uuid now user body w {response} large done =
      let is_large : ltb body.size multipart_threshold ≡ false = ground arith in
      let (u, small, done1, same1) =
        bind-ok (throw_if (ltb max_file_size body.size) file_too_large) _ w done in
      let (v, allowed, done2, same2) =
        bind-ok (check_folder cache minio user body.folder_id) _ w done1 in
      let w2 = (check_folder cache minio user body.folder_id w).1 in
      let done3 : (init_multipart cache minio id uuid now user body w2).0 ≡ ok response =
        rw is_large at done2 in
      let (numbered, counted) = init_multipart-ok id uuid now user body w2 done3 in
      (fits small, numbered, counted)
    where
      fits :
          {n : ℕ} → (throw_if (ltb max_file_size n) file_too_large w).0 ≡ ok tt → n ≤ max_file_size
      fits {n} h = elim (Bool-cases (ltb max_file_size n)) [
        | inl over ↦ let f : err (api file_too_large) ≡ ok tt = rw over at h in cc
        | inr under ↦ ground arith
      ]

-- What the piece of each part weighs, where the parts are as many as the server counts.
piece-bounds :
    (file : List ℕ) (ps : List UploadPart) (p : UploadPart)
    → multipart_threshold ≤ length file
    → length file ≤ max_file_size
    → length ps ≡ part_count_for (length file)
    → IsNumbered ps 1
    → Has p ps
    → let q = ceil_div (length file) (length ps) in
      (length file ≤ length ps * q)
      × (length ps ≤ 9000)
      × (0 < length (piece file q p))
      × (length (piece file q p) ≤ 104857600)
      × ((p.part_number ≡ length ps) ⊎ (52428800 ≤ length (piece file q p)))
piece-bounds file ps p large fits counted numbered h =
    let size = length file in
    let n = length ps in
    let q = ceil_div size n in
    let (some_part, few, holds, least) = rw (← counted) at (part_count_lem size (omega arith)) in
    let (low, high) = Has-IsNumbered p ps 1 numbered h in
    let (whole, x) = ceil_div_lem size n (omega arith) some_part in
    let excess = ceil_div_excess size n some_part in
    let short : (n - 1) * q < size =
      slices-short size n q (omega arith) some_part few whole excess in
    let thin : q ≤ default_part_size = omega (
      arith,
      ceil_div-le size n (part_size_for size) some_part (omega arith),
      part_size_max size fits,
    ) in
    let (filled, capped, place) =
      piece-sized size n q p.part_number (length (piece file q p)) low (omega arith) short whole (
        piece-length file q p
          (omega (arith, mul_mono (p.part_number - 1) (n - 1) q (omega arith)))) in
    (
      omega arith,
      few,
      filled,
      omega arith,
      elim place [
        | inl last ↦ inl last
        | inr (before, full) ↦
            let large_slice : 52428800 ≤ q =
              slice-large size n q (part_size_for size) (part_size_min size) least whole
                (omega arith) in
            inr (omega arith)
      ],
    )

module _ {X : Type 0} (cache : Cache X) (minio : ObjectStore X) where
  -- Where the server accepts a file of at least 100 MiB and the client puts, for each part that it
  -- was given, the bytes that it cuts for it: the bytes of all parts in their order are the file,
  -- the parts are at most 9000, each has a byte and at most 100 MiB, and each but the last has at
  -- least 50 MiB.
  pub uploaded-file :
      (id uuid now user : ℕ) (file : List ℕ) (body : UploadInitBody) (w : World DriveDb X)
      {response : UploadInitResponse} (p : UploadPart)
      → length file ≡ body.size
      → multipart_threshold ≤ body.size
      → (init cache minio id uuid now user body w).0 ≡ ok response
      → Has p response.parts
      → let parts = response.parts in
        let bytes = length (blob_of file parts p) in
        (concat_map (blob_of file parts) parts ≡ file)
        × (length parts ≤ 9000)
        × (0 < bytes)
        × (bytes ≤ 100 * 1024 * 1024)
        × ((p.part_number ≡ length parts) ⊎ (50 * 1024 * 1024 ≤ bytes))
  unfolding blob_of
  uploaded-file id uuid now user file body w {response} p size large done h =
      let (fits, numbered, counted) = init-ok cache minio id uuid now user body w large done in
      let (whole, few, filled, capped, place) =
        piece-bounds file response.parts p (rw size large) (rw size fits) (rw size counted) numbered
          h in
      let q = ceil_div (length file) (length response.parts) in
      let none : 0 * q ≡ 0 = omega arith in
      let start : drop (0 * q) file ≡ file = rw none refl in
      (
        concat_map-piece file q response.parts 0 numbered (omega (arith, whole)) ∙ start,
        few,
        filled,
        capped,
        place,
      )
