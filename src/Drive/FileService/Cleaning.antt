-- ===== src/Drive/FileService/Cleaning.antt =====
-- What a failed copy of a file leaves in the object store.
use terab.Base.{ℕ, Bool, false, ◌≡◌, ◌⊎◌, refl, ◌∙◌, Option, none, some, inl, inr, Option-cases}
use terab.ErrorCode.{Error}
use terab.Action.{World, ok, err, pure, ◌>>=◌, ◌>>◌}
use terab.Action.Laws.{Result-cases}
use terab.Drive.Schema.{DriveDb, MinioKey, File, FileItem}
use terab.Drive.Outside.{Cache, ObjectStore}
use terab.Drive.FileRepository
use terab.Drive.FileRepository.{to_file_item}
use terab.Drive.FolderService.{invalidate}
use terab.Drive.FileService.{FileAction, copy, copied, insert_or_clean}
use terab.Drive.FileService.Isolation.{checked}

-- What MinIO documents of the two calls, where `holds` says which keys have an object: an object
-- that was removed is gone, and a copy that fails puts none.
pub record IsStore {X : Type 0} (minio : ObjectStore X) (holds : MinioKey → X → Bool) : Type 0 where
  pub removed :
      (key : MinioKey) (x : X)
      → (minio.remove_object key x).0 ≡ ok tt
      → holds key (minio.remove_object key x).1 ≡ false
  pub uncopied :
      (from to : MinioKey) (x : X) (e : Error)
      → (minio.copy_object from to x).0 ≡ err e
      → holds to (minio.copy_object from to x).1 ≡ holds to x

module _ {X : Type 0} (cache : Cache X) (minio : ObjectStore X) where
  -- The key has no object, or the store has refused to remove it.
  abbrev pub IsCleaned : (holds : MinioKey → X → Bool) → MinioKey → X → Type 0
  IsCleaned holds key after =
      (holds key after ≡ false)
      ⊎ ((x : X) × (e : Error) × ((minio.remove_object key x).0 ≡ err e)
          × (after ≡ (minio.remove_object key x).1))

  -- What follows the copy of the object.
  abbrev inserting :
      (refused : Option Error) (id uuid now user : ℕ)
      → Option ℕ
      → File
      → FileAction cache minio FileItem
  inserting refused id uuid now user folder file = do
    row ← insert_or_clean cache minio refused (copied cache minio id uuid now user folder file)
    invalidate cache user folder
    pure (to_file_item row)

  inserted-IsCleaned :
      (holds : MinioKey → X → Bool)
      → IsStore minio holds
      → (refused : Option Error) (id uuid now user : ℕ) (folder : Option ℕ) (file : File)
        (w : World DriveDb X) (e : Error)
      → (inserting refused id uuid now user folder file w).0 ≡ err e
      → let after = (inserting refused id uuid now user folder file w).1 in
        (after.db ≡ w.db) × IsCleaned holds (record { owner = user; uuid = uuid }) after.ext
  inserted-IsCleaned holds law none id uuid now user folder file w e failed = cc
  inserted-IsCleaned holds law (some e') id uuid now user folder file w e failed =
      let key : MinioKey = record { owner = user; uuid = uuid } in
      elim (Result-cases (minio.remove_object key w.ext).0) [
        | inl (refusal, broken) ↦ rw broken (refl, inr (w.ext, refusal, broken, refl))
        | inr (done, gone) ↦ rw gone (refl, inl (law.removed key w.ext gone))
      ]

  -- A call of `FileService.copy` that fails, at whichever step, changes no table, and the new key,
  -- which had no object, has none after it, but where the store itself refuses to remove the copy.
  pub copy-IsCleaned :
      (holds : MinioKey → X → Bool)
      → IsStore minio holds
      → (refused : Option Error) (id uuid now user source : ℕ) (folder : Option ℕ)
        (w : World DriveDb X) (e : Error)
      → holds (record { owner = user; uuid = uuid }) w.ext ≡ false
      → (copy cache minio refused id uuid now user source folder w).0 ≡ err e
      → let after = (copy cache minio refused id uuid now user source folder w).1 in
        (after.db ≡ w.db) × IsCleaned holds (record { owner = user; uuid = uuid }) after.ext
  unfolding copy
  copy-IsCleaned holds law refused id uuid now user source folder w e fresh failed =
      let key : MinioKey = record { owner = user; uuid = uuid } in
      elim (Option-cases (FileRepository.find_by_id_and_user source user w.db.files)) [
        | inl missing ↦ rw missing (refl, inl fresh)
        | inr (file, found) ↦ elim (checked cache minio user folder w) [
          | inl (e', denied) ↦ rw (found, denied) (refl, inl fresh)
          | inr allowed ↦ elim (Result-cases (minio.copy_object file.minio_key key w.ext).0) [
            | inl (e', broken) ↦
                rw (found, allowed, broken)
                  (refl, inl (law.uncopied file.minio_key key w.ext e' broken ∙ fresh))
            | inr (u, worked) ↦
                let more = rw (found, allowed, worked) at failed in
                rw (found, allowed, worked)
                  (inserted-IsCleaned holds law refused id uuid now user folder file
                    (record w { ext = (minio.copy_object file.minio_key key w.ext).1 }) e more)
          ]
        ]
      ]
