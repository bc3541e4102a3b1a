-- ===== src/Drive/Trash/RoundTrip.antt =====
-- Putting a folder in the trash and restoring it gives the tables back.
use terab.Base.{
  ℕ, ◌≤◌, ◌<◌, ◌≡◌, ◌↔◌, refl, sym, ap, ◌∙◌, Bool, true, false, Option, none, some, List, arith,
  inl, inr, ◌&&◌, is_null, not, Has, All-Has, Option-cases, Bool-cases,
}
use terab.Action.{World, ok}
use terab.Table.{UniqueIds, update_where, is_in, find_where}
use terab.Table.Laws.{
  find_where-Has, find_where_of_Has, same_row, updated, Has-update_where, Has-of_update_where,
  update_where_undo, update_where-UniqueIds,
}
use terab.Drive.Schema.{DriveDb, Folder, File}
use terab.Drive.Outside.{Cache, ObjectStore}
use terab.Drive.FolderRepository.{
  find_by_id_and_user, is_live, has_id, ids_of, in_folders, mark_folder, mark_file,
}
use terab.Drive.FolderService.{remove}
use terab.Drive.FolderService.Removal.{remove-IsMarked}
use terab.Drive.Tree.{IsForest, Below, subtree_ends}
use terab.Drive.Tree.Moving.{update_where-IsForest}
use terab.Drive.Tree.Subtree.{
  IsUnder, itself, below, IsUnder-Has, IsUnder-after, IsUnder-of_after, is_in-subtree_iff,
  in_folders-subtree_iff,
}
use terab.Drive.Trash.{
  folder, joined_mark, is_own_folder, is_parent_in_trash, find_deleted_folder, restore_folder,
  restore,
}

-- Two tests with the same meaning are equal.
test-eq : {P : Type 0} (a b : Bool) → (a ≡ true) ↔ P → (b ≡ true) ↔ P → a ≡ b
test-eq true true f g = refl
test-eq true false f g = sym (g.1 (f.0 refl))
test-eq false true f g = f.1 (g.0 refl)
test-eq false false f g = refl

rank-le :
    {t : List Folder} {top user : ℕ} {r : Folder} (f : IsForest t)
    → IsUnder t top user r
    → f.rank top ≤ f.rank r.id
rank-le f (itself h e u) = rw e (omega arith)
rank-le {t = t} {r = r} f (below s h e u) =
    let falls : f.rank s.id < f.rank r.id = All-Has (Below f.rank) t f.above h s.id e in
    omega (arith, rank-le f u)

-- What `remove` found, and that nothing it puts in the trash was there before.
pub record IsClean (top user : ℕ) (found : Folder) (d : DriveDb) : Type 0 where
  pub forest : IsForest d.folders
  pub unique : UniqueIds (λ (r : Folder). r.id) d.folders
  pub live : find_by_id_and_user top user d.folders ≡ some found
  pub parent : joined_mark found.parent_id d.folders ≡ none
  pub folders : (r : Folder) → IsUnder d.folders top user r → r.soft_deleted_at ≡ none
  pub files :
      (r : File) (s : Folder)
      → Has r d.files
      → IsUnder d.folders top user s
      → r.folder_id ≡ some s.id
      → r.soft_deleted_at ≡ none

module _ (top user now : ℕ) (found : Folder) (d : DriveDb) (c : IsClean top user found d)
    (chosen : Folder → Bool)
    (chosen_iff : (r : Folder)
      → Has r d.folders
      → (chosen r ≡ true) ↔ IsUnder d.folders top user r) where
  abbrev t' : List Folder
  t' = update_where chosen (mark_folder (some now)) d.folders

  abbrev after : Folder → Folder
  after = updated chosen (mark_folder (some now))

  forest' : IsForest t'
  forest' =
      update_where-IsForest d.folders c.forest chosen (mark_folder (some now)) (λ r. refl)
        (λ r. refl)

  unique' : UniqueIds (λ (r : Folder). r.id) t'
  unique' =
      update_where-UniqueIds (λ (r : Folder). r.id) chosen (mark_folder (some now)) d.folders
        (λ r. refl) c.unique

  same-IsUnder :
      (r : Folder) → Has r d.folders → IsUnder t' top user (after r) ↔ IsUnder d.folders top user r
  same-IsUnder r h = (
    λ u.
        let (s, under, e) =
          IsUnder-of_after chosen (mark_folder (some now)) d.folders (λ x. refl) (λ x. refl)
            (λ x. refl) u in
        let one : s ≡ r =
          same_row (λ (x : Folder). x.id) d.folders s r c.unique (IsUnder-Has under) h
            (sym (id-after s) ∙ ap (λ (x : Folder). x.id) (sym e) ∙ id-after r) in
        rw one at under,
    IsUnder-after chosen (mark_folder (some now)) d.folders (λ x. refl) (λ x. refl) (λ x. refl),
  )
    where
      id-after : (x : Folder) → (after x).id ≡ x.id
      id-after x = ground arith

  -- The restoring query undoes the marks of the folders.
  folders_back :
      (rows : List Folder)
      → ((r : Folder) → Has r t' → (is_in r.id (ids_of rows) ≡ true) ↔ IsUnder t' top user r)
      → update_where (λ (r : Folder). is_in r.id (ids_of rows)) (mark_folder none) t' ≡ d.folders
  folders_back rows iff =
      update_where_undo chosen (λ (r : Folder). is_in r.id (ids_of rows)) (mark_folder (some now))
        (mark_folder none) d.folders
        (λ r h.
          test-eq _ _
            (let (to, from) =
                iff (after r) (Has-update_where chosen (mark_folder (some now)) d.folders r h) in
              let (down, up) = same-IsUnder r h in (λ e. down (to e), λ u. from (up u)))
            (chosen_iff r h))
        (λ r h fits.
          let was : r.soft_deleted_at ≡ none = c.folders r ((chosen_iff r h).0 fits) in
          ground arith)

  -- The restoring query undoes the marks of the files.
  files_back :
      (held : File → Bool)
      → ((r : File)
          → (held r ≡ true)
            ↔ ((s : Folder) × IsUnder d.folders top user s × (r.folder_id ≡ some s.id)))
      → (rows : List Folder)
      → ((o : Option ℕ)
          → (in_folders (ids_of rows) o ≡ true)
            ↔ ((s : Folder) × IsUnder t' top user s × (o ≡ some s.id)))
      → update_where
          (λ (r : File). in_folders (ids_of rows) r.folder_id)
          (mark_file none)
          (update_where held (mark_file (some now)) d.files)
        ≡ d.files
  files_back held held_iff rows iff =
      update_where_undo held (λ (r : File). in_folders (ids_of rows) r.folder_id)
        (mark_file (some now)) (mark_file none) d.files
        (λ r h. test-eq _ _ (meaning r) (held_iff r))
        (λ r h fits.
          let (s, under, e) = (held_iff r).0 fits in
          let was : r.soft_deleted_at ≡ none = c.files r s h under e in ground arith)
    where
      id-after : (x : Folder) → (after x).id ≡ x.id
      id-after x = ground arith

      folder-after : (r : File) → (updated held (mark_file (some now)) r).folder_id ≡ r.folder_id
      folder-after r = ground arith

      meaning :
          (r : File)
          → (in_folders (ids_of rows) (updated held (mark_file (some now)) r).folder_id ≡ true)
            ↔ ((s : Folder) × IsUnder d.folders top user s × (r.folder_id ≡ some s.id))
      meaning r = (
        λ e.
            let (b, under, p) = (iff _).0 e in
            let (s, low, same) =
              IsUnder-of_after chosen (mark_folder (some now)) d.folders (λ x. refl) (λ x. refl)
                (λ x. refl) under in
            (
              s,
              low,
              sym (folder-after r) ∙ p ∙ ap (λ (x : Folder). some x.id) same ∙ ap some (id-after s),
            ),
        λ (s, under, p). (iff _).1 (
          after s,
          IsUnder-after chosen (mark_folder (some now)) d.folders (λ x. refl) (λ x. refl)
              (λ x. refl) under,
          folder-after r ∙ p ∙ ap some (sym (id-after s)),
        ),
      )

  top-Has : Has found d.folders × (found.id ≡ top) × (found.user_id ≡ user)
  unfolding find_by_id_and_user
  top-Has =
      let (h, fits) = find_where-Has (is_live top user) d.folders found c.live in
      (h, ground arith, ground arith)

  -- No row above the folder is marked.
  parent_stays : joined_mark found.parent_id t' ≡ none
  parent_stays = go found.parent_id refl c.parent
    where
      go :
          (o : Option ℕ)
          → found.parent_id ≡ o
          → joined_mark o d.folders ≡ none
          → joined_mark o t' ≡ none
      go none e clear = refl
      go (some p) e clear = elim (Option-cases (find_where (has_id p) t')) [
        | inl missing ↦ rw missing
        | inr (b, there) ↦
            let (k, fits) = find_where-Has (has_id p) t' b there in
            let (s, h, same) = Has-of_update_where chosen (mark_folder (some now)) d.folders b k in
            let sp : s.id ≡ p = ground arith in
            let (s', there') = find_where_of_Has (has_id p) d.folders s h (ground arith) in
            let (h', fits') = find_where-Has (has_id p) d.folders s' there' in
            let one : s' ≡ s =
              same_row (λ (x : Folder). x.id) d.folders s' s c.unique h' h (ground arith) in
            let mark' : s'.soft_deleted_at ≡ none = rw there' at clear in
            let mark : s.soft_deleted_at ≡ none = rw one at mark' in
            rw there (elim (Bool-cases (chosen s)) [
              | inl bad ↦
                  let (top_h, top_id, top_user) = top-Has in
                  let falls : c.forest.rank p < c.forest.rank found.id =
                    All-Has (Below c.forest.rank) d.folders c.forest.above top_h p e in
                  let rises : c.forest.rank top ≤ c.forest.rank s.id =
                    rank-le c.forest ((chosen_iff s h).0 bad) in
                  let falls' : c.forest.rank p < c.forest.rank top = rw top_id at falls in
                  let rises' : c.forest.rank top ≤ c.forest.rank p = rw sp at rises in
                  absurd (omega arith)
              | inr kept ↦ ground arith
            ])
      ]

  -- The marked row is what `restore` looks at.
  marked-Has : Has (after found) t'
  marked-Has = Has-update_where chosen (mark_folder (some now)) d.folders found top-Has.0

  top_chosen : chosen found ≡ true
  top_chosen = let (h, e, u) = top-Has in (chosen_iff found h).1 (itself h e u)

  own_row :
      (b : Folder) → find_where (is_own_folder top user) t' ≡ some b → b.parent_id ≡ found.parent_id
  own_row b there =
      let (k, fits) = find_where-Has (is_own_folder top user) t' b there in
      let (h, e, u) = top-Has in
      let one : b ≡ after found =
        same_row (λ (x : Folder). x.id) t' b (after found) unique' k marked-Has (ground arith) in
      ground arith

  unblocked :
      (files : List File)
      → is_parent_in_trash top folder user (record d { folders = t'; files = files }) ≡ false
  unfolding is_parent_in_trash
  unblocked files = elim (Option-cases (find_where (is_own_folder top user) t')) [
    | inl missing ↦ rw missing
    | inr (b, there) ↦ rw (there, own_row b there, parent_stays)
  ]

  in_trash : (b : Folder) × (find_deleted_folder top user t' ≡ some b)
  unfolding find_deleted_folder
  in_trash =
      let (h, e, u) = top-Has in
      find_where_of_Has
        (λ (r : Folder). is_own_folder top user r && not (is_null r.soft_deleted_at)) t'
        (after found) marked-Has (ground (arith, top_chosen))

restored :
    (top user now : ℕ) (found : Folder) (before : DriveDb) (held : File → Bool)
    (chosen : Folder → Bool)
    → IsClean top user found before
    → ((r : Folder) → Has r before.folders → (chosen r ≡ true) ↔ IsUnder before.folders top user r)
    → ((r : File)
        → (held r ≡ true)
          ↔ ((s : Folder) × IsUnder before.folders top user s × (r.folder_id ≡ some s.id)))
    → restore_folder top user (record before {
      folders = update_where chosen (mark_folder (some now)) before.folders;
      files = update_where held (mark_file (some now)) before.files;
    })
      ≡ some (before.folders, before.files)
unfolding restore_folder
restored top user now found before held chosen c chosen_iff held_iff =
    let folders' = update_where chosen (mark_folder (some now)) before.folders in
    let forest = forest' top user now found before c chosen chosen_iff in
    let (rows, ended) = subtree_ends folders' forest top user in
    let folder_eq = folders_back top user now found before c chosen chosen_iff rows (
      is_in-subtree_iff folders' top user rows ended
        (unique' top user now found before c chosen chosen_iff)) in
    let file_eq =
      files_back top user now found before c chosen chosen_iff held held_iff rows
        (in_folders-subtree_iff folders' top user rows ended) in
    rw ended (λ i. some (folder_eq i, file_eq i))

module _ {X : Type 0} (cache : Cache X) (minio : ObjectStore X) where
  -- `restore` of a folder where its three queries answer so.
  restore-eq :
      (top user : ℕ) (v : World DriveDb X) (b : Folder) (folders : List Folder) (files : List File)
      → is_parent_in_trash top folder user v.db ≡ false
      → find_deleted_folder top user v.db.folders ≡ some b
      → restore_folder top user v.db ≡ some (folders, files)
      → restore minio user top folder v
        ≡ (ok tt, record v { db = record v.db { folders = folders; files = files } })
  unfolding restore
  restore-eq top user v b folders files clear found answer = rw (clear, found, answer)

  -- A folder put in the trash by `FolderService.remove` and then restored by
  -- `TrashService.restore`: both succeed, and every table is as before, where nothing under the
  -- folder was in the trash and its parent is not.
  pub restore-remove :
      (top user now : ℕ) (found : Folder) (w : World DriveDb X)
      → IsClean top user found w.db
      → let (removed, w') = remove cache now user top w in
        let (r, w'') = restore minio user top folder w' in
        (removed ≡ ok tt) × (r ≡ ok tt) × (w''.db ≡ w.db)
  restore-remove top user now found w c =
      let (done, marked, deleted) =
        remove-IsMarked cache now user top found w c.forest c.unique c.live in
      let w' = (remove cache now user top w).1 in
      let db_eq : w'.db ≡ marked_db marked.chosen marked.held = λ i. record {
        folders = marked.folders i;
        files = marked.files i;
        upload_sessions = marked.upload_sessions i;
      } in
      let (b, there) = in_trash top user now found w.db c marked.chosen marked.chosen_iff in
      let end =
        restore-eq top user w' b w.db.folders w.db.files
          (rw db_eq (
            unblocked top user now found w.db c marked.chosen marked.chosen_iff
              (update_where marked.held (mark_file (some now)) w.db.files)))
          (rw db_eq there)
          (rw db_eq (
            restored top user now found w.db marked.held marked.chosen c marked.chosen_iff
              marked.held_iff)) in
      (
        done,
        ap (λ p. p.0) end,
        ap (λ p. p.1.db) end ∙ λ i. record {
          folders = w.db.folders;
          files = w.db.files;
          upload_sessions = marked.upload_sessions i;
        },
      )
    where
      marked_db : (Folder → Bool) → (File → Bool) → DriveDb
      marked_db p q = record w.db {
        folders = update_where p (mark_folder (some now)) w.db.folders;
        files = update_where q (mark_file (some now)) w.db.files;
      }
