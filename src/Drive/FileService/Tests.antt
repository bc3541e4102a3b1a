-- ===== src/Drive/FileService/Tests.antt =====
-- Runs of the file service on the sample drive, and the theorems about it at them.
use terab.Base.{
  Bool, true, false, ◌&&◌, ◌==◌, ==-refl, if◌then◌else◌, ◌≡◌, refl, none, some, [], ◌∷◌,
}
use terab.ErrorCode.{unique_violation}
use terab.Action.{World, ok, err}
use terab.Drive.Outside.{FileNames, Cache, ObjectStore}
use terab.Drive.Schema.{DriveDb, MinioKey}
use terab.Drive.FileRepository
use terab.Drive.FileService.{copy, zip_files}
use terab.Drive.FileService.Isolation.{IsWithin, perform, moves, perform-IsWithin}
use terab.Drive.FileService.Cleaning.{IsStore, IsCleaned, copy-IsCleaned}
use terab.Drive.FileService.Coherence.{perform-file-IsCoherent}
use terab.Drive.FolderService.Coherence.{IsCoherent}
use terab.Drive.Samples.{
  entries, entries-IsLawful, store, world, warm, warm_IsCoherent, drive, files_UniqueIds, file_row,
}

-- No name has an extension, and every type has one of one letter.
abbrev bare : FileNames
bare = record { extname = λ name. []; mime_extension = λ mime. some (b'x' ∷ []) }

-- A file that is not the user's is left out of the archive, the others keep their order.
zipped :
    zip_files bare 1 (20 ∷ 99 ∷ 20 ∷ []) drive.files
    ≡ record { name = 20 ∷ b'.' ∷ b'x' ∷ []; key = (file_row 20 none).minio_key }
      ∷ record { name = 20 ∷ b'.' ∷ b'x' ∷ []; key = (file_row 20 none).minio_key }
      ∷ []
unfolding zip_files FileRepository.find_by_id_and_user
zipped = refl

perform-IsWithin_example :
    IsWithin 1 drive (perform entries store 1 (moves 5 20 (some 12)) world).db
perform-IsWithin_example = perform-IsWithin entries store 1 (moves 5 20 (some 12)) world

-- A store that is the set of its keys, and no cache.
abbrev Keys : Type 0
Keys = MinioKey → Bool

abbrev no_cache : Cache Keys
no_cache = record { get = λ k x. none; set = λ k v x. x; del = λ k x. x }

abbrev same_key : MinioKey → MinioKey → Bool
same_key k j = k.owner == j.owner && k.uuid == j.uuid

abbrev keys : ObjectStore Keys
keys = record store {
  copy_object = λ from to x. (ok tt, (λ k. if same_key to k then true else x k));
  remove_object = λ key x. (ok tt, (λ k. if same_key key k then false else x k));
}

abbrev holds : MinioKey → Keys → Bool
holds key x = x key

keys-IsStore : IsStore keys holds
keys-IsStore = record {
  removed = λ key x done. rw (==-refl key.owner, ==-refl key.uuid) refl;
  uncopied = λ from to x e failed. cc;
}

abbrev empty_store : World DriveDb Keys
empty_store = record { db = drive; ext = λ k. false; in_tx = false }

refused_copy :
    (copy no_cache keys (some (unique_violation 0)) 21 40 5 1 20 none empty_store).0
    ≡ err (unique_violation 0)
unfolding copy FileRepository.find_by_id_and_user
refused_copy = refl

copy-IsCleaned_example :
    let after = (copy no_cache keys (some (unique_violation 0)) 21 40 5 1 20 none empty_store).1 in
    (after.db ≡ drive) × IsCleaned no_cache keys holds (record { owner = 1; uuid = 40 }) after.ext
copy-IsCleaned_example =
    copy-IsCleaned no_cache keys holds keys-IsStore (some (unique_violation 0)) 21 40 5 1 20 none
      empty_store (unique_violation 0) refl refused_copy

perform-file-IsCoherent_example :
    let w' = perform entries store 1 (moves 5 20 none) warm in IsCoherent entries w'.db w'.ext
perform-file-IsCoherent_example =
    perform-file-IsCoherent entries entries-IsLawful store 1 (moves 5 20 none) warm (λ h. h)
      files_UniqueIds warm_IsCoherent
