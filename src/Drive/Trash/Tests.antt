-- ===== src/Drive/Trash/Tests.antt =====
-- The trash on the sample drive.
use terab.Base.{◌≡◌, refl, none, some, List, [], ◌∷◌, false, arith}
use terab.Action.{ok}
use terab.Drive.Schema.{DriveDb, MinioKey}
use terab.Drive.FolderService.{remove}
use terab.Drive.FileService
use terab.Drive.Trash.{
  file, folder, restore, permanent_delete, is_parent_in_trash, find_deleted_folder,
}
use terab.Drive.Trash.RoundTrip.{restore-remove}
use terab.Drive.Trash.FileRoundTrip.{restore-remove_file}
use terab.Drive.Trash.Deletion.{IsDropped, purge, permanent_delete-IsDropped}
use terab.Drive.Samples.{
  entries, store, world, drive, drive-IsClean, folder_row, file_row, files_UniqueIds, live_20,
}

restore-remove_example :
    let (removed, w') = remove entries 5 1 10 world in
    let (r, w'') = restore store 1 10 folder w' in
    (removed ≡ ok tt) × (r ≡ ok tt) × (w''.db ≡ drive)
restore-remove_example =
    restore-remove entries store 10 1 5 (folder_row 10 none) world drive-IsClean

restore-remove_file_example :
    let (removed, w') = FileService.remove entries store 5 1 20 world in
    let (r, w'') = restore store 1 20 file w' in (removed ≡ ok tt) × (r ≡ ok tt) × (w''.db ≡ drive)
restore-remove_file_example =
    restore-remove_file entries store 20 1 5 (file_row 20 (some 11)) world files_UniqueIds live_20
      refl

-- Folder 10 is in the trash, folder 11 below it too.
abbrev trashed : DriveDb
trashed = record drive {
  folders =
      record (folder_row 10 none) { soft_deleted_at = some 5 }
      ∷ record (folder_row 11 (some 10)) { soft_deleted_at = some 5 }
      ∷ folder_row 12 none
      ∷ [];
}

trashed_clear : is_parent_in_trash 10 folder 1 trashed ≡ false
unfolding is_parent_in_trash
trashed_clear = refl

trashed_found :
    find_deleted_folder 10 1 trashed.folders
    ≡ some (record (folder_row 10 none) { soft_deleted_at = some 5 })
unfolding find_deleted_folder
trashed_found = refl

permanent_delete-IsDropped_example :
    let (r, w') = permanent_delete store 1 10 folder (record world { db = trashed }) in
    (keys : List MinioKey) × IsDropped 10 1 trashed w'.db keys
    × (r ≡ (purge store keys world.ext).0)
    × (w'.ext ≡ (purge store keys world.ext).1)
permanent_delete-IsDropped_example =
    permanent_delete-IsDropped store 10 1 (record (folder_row 10 none) { soft_deleted_at = some 5 })
      (record world { db = trashed })
      (record { rank = λ n. n; above = (λ p e. cc, (λ p e. ground arith, (λ p e. cc, tt))) })
      ((λ e. omega arith, (λ e. omega arith, tt)), ((λ e. omega arith, tt), (tt, tt))) trashed_clear
      trashed_found
