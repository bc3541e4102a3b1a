-- ===== src/Drive/FolderService/Tests.antt =====
-- Runs of the folder service on the sample drive, and the theorems about it at them.
use terab.Base.{◌≡◌, refl, none, some, [], ◌∷◌, arith}
use terab.ErrorCode.{api, folder_not_found, invalid_move_target}
use terab.Action.{ok, err}
use terab.Drive.FolderRepository
use terab.Drive.FolderRepository.{find_by_id_and_user}
use terab.Drive.FolderService.{get_root, move, remove, cache_key, listing}
use terab.Drive.FolderService.Calls.{
  creates, renames, moves, removes, perform, perform_all, AnyHung, perform_all-IsForest,
  perform-IsCoherent,
}
use terab.Drive.FolderService.Removal.{IsMarked, remove-IsMarked}
use terab.Drive.FolderService.Coherence.{IsCoherent}
use terab.Drive.FolderService.Coherence.Moving.{get_root-eq-listing}
use terab.Drive.Tree.{IsForest}
use terab.Drive.Samples.{
  entries, entries-IsLawful, world, warm, warm_IsCoherent, drive, drive_IsForest, drive_UniqueIds,
  live_11, folder_row,
}

-- A folder cannot be moved into itself or below itself, nor by another user.
into_itself : (move entries 5 1 10 (some 11) world).0 ≡ err (api invalid_move_target)
unfolding move FolderRepository.move find_by_id_and_user FolderRepository.is_descendant
    FolderRepository.ancestors terab.Table.Recursive.with_recursive
into_itself = refl

by_another : (move entries 5 2 10 none world).0 ≡ err (api folder_not_found)
unfolding move find_by_id_and_user
by_another = refl

perform_all-IsForest_example :
    let calls =
      creates 13 5 1 [] (some 11)
      ∷ moves 6 1 11 (some 12)
      ∷ renames 7 1 13 []
      ∷ removes 8 1 10
      ∷ [] in
    IsForest (perform_all entries calls world).db.folders × (¬ AnyHung entries calls world)
perform_all-IsForest_example =
    perform_all-IsForest entries
      (creates 13 5 1 [] (some 11)
        ∷ moves 6 1 11 (some 12)
        ∷ renames 7 1 13 []
        ∷ removes 8 1 10
        ∷ [])
      world
      (
        (
          (
            (λ e. omega arith, λ e. cc),
            ((λ e. omega arith, λ e. ground arith), ((λ e. omega arith, λ e. cc), tt)),
          ),
          λ e. ground arith,
        ),
        (tt, (tt, (tt, tt))),
      )
      drive_IsForest

remove-IsMarked_example :
    let (r, w') = remove entries 5 1 11 world in
    (r ≡ ok tt)
    × IsMarked 11 1 (some 5) drive w'.db
    × (w'.ext ≡ entries.del (cache_key 1 (some 10)) world.ext)
remove-IsMarked_example =
    remove-IsMarked entries 5 1 11 (folder_row 11 (some 10)) world drive_IsForest drive_UniqueIds
      live_11

perform-IsCoherent_example :
    let w' = perform entries (moves 5 1 11 none) warm in IsCoherent entries w'.db w'.ext
perform-IsCoherent_example =
    perform-IsCoherent entries entries-IsLawful (moves 5 1 11 none) warm (λ h. h) drive_UniqueIds
      warm_IsCoherent

get_root-eq-listing_example :
    let (r, w') = get_root entries 1 warm in
    (r ≡ ok (listing 1 none drive)) × (w'.db ≡ drive) × IsCoherent entries w'.db w'.ext
get_root-eq-listing_example = get_root-eq-listing entries entries-IsLawful 1 warm warm_IsCoherent
