-- ===== src/Drive/UploadSession/Tests.antt =====
-- Runs of the uploads on the sample drive, and the theorems about them at them.
use terab.Base.{Text, codes, ◌≤◌, ◌≡◌, refl, some, [], ◌∷◌, length, inl, inr, arith, Has, ◌⊎◌}
use terab.ErrorCode.{api, upload_session_not_found, upload_size_mismatch}
use terab.Action.{World, ok, err}
use terab.Drive.Schema.{DriveDb, UploadSession}
use terab.Drive.FileRepository.{to_file_item}
use terab.Drive.UploadSession.{
  complete, cleanup_expired, CleanupStats, find_session, find_expired_for_cleanup, part_size_for,
  part_count_for, file_of,
}
use terab.Drive.UploadSession.Mime.{sanitize_mime, normalized}
use terab.Drive.UploadSession.Mime.Scripts.{IsScript, sanitize_mime_cases}
use terab.Drive.UploadSession.Complete.{complete_mismatch}
use terab.Drive.UploadSession.Entered.{IsEntered, IsSized, complete-IsEntered, complete-twice}
use terab.Drive.UploadSession.Cleanup.{delete_all, cleanup_expired_lem, cleanup-keeps}
use terab.Drive.Samples.{Entries, entries, store, world, drive, session_row, sessions_UniqueIds}

two_terabytes : part_count_for 2199023255552 ≡ 9000
unfolding part_count_for part_size_for
two_terabytes = refl

abbrev claimed : Text
claimed = codes " Text/HTML ; charset=utf-8"

claimed-IsScript : IsScript claimed
claimed-IsScript = (
  codes " ",
  codes "Text/HTML",
  codes " ",
  codes "; charset=utf-8",
  refl,
  (refl, tt),
  (refl, tt),
  refl,
  inr (inr (inr (inl refl))),
)

html_is_replaced : sanitize_mime claimed ≡ codes "application/octet-stream"
unfolding sanitize_mime normalized
html_is_replaced = refl

sanitize_mime_cases_example :
    (IsScript claimed × (sanitize_mime claimed ≡ codes "application/octet-stream"))
    ⊎ (¬ (IsScript claimed) × (sanitize_mime claimed ≡ claimed))
sanitize_mime_cases_example = sanitize_mime_cases claimed

not_theirs : (complete entries store 21 500 2 30 [] world).0 ≡ err (api upload_session_not_found)
unfolding complete
not_theirs = refl

-- The session announces 8 bytes, and the object has 7.
abbrev wrong : UploadSession
wrong = record (session_row 30 1000) { size = 8 }

abbrev wrong_world : World DriveDb Entries
wrong_world = record world { db = record drive { upload_sessions = wrong ∷ [] } }

complete_mismatch_example :
    let (r, w') = complete entries store 21 500 1 30 [] wrong_world in
    (r ≡ err (api upload_size_mismatch))
    × (w'.ext ≡ (store.remove_object wrong.minio_key world.ext).1)
    × (find_session 30 w'.db.upload_sessions ≡ some wrong)
complete_mismatch_example =
    complete_mismatch entries store 21 500 1 30 7 [] wrong wrong_world world.ext refl refl refl refl
      refl refl (λ e. omega arith)

completed :
    (complete entries store 21 500 1 30 [] world).0
    ≡ ok (to_file_item (file_of 21 500 1 (session_row 30 1000)))
unfolding complete
completed = refl

complete-IsEntered_example :
    (s : UploadSession) × (find_session 30 drive.upload_sessions ≡ some s)
    × (s.user_id ≡ 1)
    × IsSized entries store s (complete entries store 21 500 1 30 [] world).1.ext
    × IsEntered s 1 drive (complete entries store 21 500 1 30 [] world).1.db
complete-IsEntered_example = complete-IsEntered entries store 21 500 1 30 [] world completed

complete-twice_example :
    let (r, after) =
      complete entries store 22 600 1 30 [] (complete entries store 21 500 1 30 [] world).1 in
    (r ≡ err (api upload_session_not_found))
    × (after.db ≡ (complete entries store 21 500 1 30 [] world).1.db)
complete-twice_example =
    complete-twice entries store 21 500 1 30 [] world 22 600 1 []
      (complete entries store 21 500 1 30 [] world).1 completed refl

cleanup_expired_lem_example :
    let ss = find_expired_for_cleanup 40000 10 drive.upload_sessions in
    (stats : CleanupStats) × (x : Entries) × (cleanup_expired entries store 40000 10 world
      ≡ (ok stats, record world { db = delete_all ss drive; ext = x }))
    × (stats.scanned_count ≡ length ss)
    × (stats.scanned_count ≤ 10)
    × (stats.aborted_count ≤ stats.scanned_count)
    × (stats.removed_count ≤ stats.scanned_count)
cleanup_expired_lem_example = cleanup_expired_lem entries store 40000 10 world

cleanup-keeps_example :
    Has (session_row 31 50000) (cleanup_expired entries store 40000 10 world).1.db.upload_sessions
cleanup-keeps_example =
    cleanup-keeps entries store 40000 10 world (session_row 31 50000) sessions_UniqueIds
      (inr (inl refl)) refl
