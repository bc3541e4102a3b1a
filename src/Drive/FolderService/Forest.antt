-- ===== src/Drive/FolderService/Forest.antt =====
-- The methods of the folder service keep the folders a forest, so their recursive queries end.
use terab.Base.{
  ℕ, ◌-◌, ◌≡◌, ◌≢◌, refl, false, Option, none, some, List, inl, inr, All, Option-cases, Bool-cases,
  leb, length,
}
use terab.ErrorCode.{hang}
use terab.Action.{World, err}
use terab.Drive.Schema.{Text, DriveDb, Folder}
use terab.Drive.Outside.{Cache}
use terab.Drive.FolderRepository
use terab.Drive.FolderRepository.{
  is_descendant, find_by_id_and_user, get_depth, new_folder, subtree, mark_folder,
  soft_delete_cascade, with_name,
}
use terab.Drive.Tree.{IsForest, ancestors_ends, subtree_ends}
use terab.Drive.Tree.Ancestors.{climbs_to, is_descendant_ends}
use terab.Drive.Tree.Moving.{
  reparent-IsForest, unparent-IsForest, insert-IsForest, update_where-IsForest,
}
use terab.Drive.FolderService.{move, create, remove, rename, max_folder_depth}

-- Nobody has the id of the new row: what a fresh uuid and the foreign key give.
abbrev pub IsUnused : ℕ → List Folder → Type 0
IsUnused id t = All (λ (r : Folder). (r.id ≢ id) × (r.parent_id ≢ some id)) t

module _ (now user id : ℕ) (t : List Folder) (f : IsForest t) where
  reparent :
      (p : ℕ) → climbs_to t id p ≡ false → IsForest (FolderRepository.move id user (some p) now t).1
  unfolding FolderRepository.move
  reparent p apart = reparent-IsForest t f id p apart user now

  unparent : IsForest (FolderRepository.move id user none now t).1
  unfolding FolderRepository.move
  unparent = unparent-IsForest t f id user now

  renamed : (name : Text) → IsForest (FolderRepository.rename id user name now t).1
  unfolding FolderRepository.rename
  renamed name = update_where-IsForest t f _ (with_name name now) (λ r. refl) (λ r. refl)

  depth_ends : (p : ℕ) → (depth : ℕ) × (get_depth p t ≡ some depth)
  unfolding get_depth
  depth_ends p = let (rows, e) = ancestors_ends t f p in (length rows - 1, rw e)

module _ {X : Type 0} (cache : Cache X) where
  -- In a forest, `FolderService.move` leaves a forest, whether it succeeds or throws, and never
  -- waits for ever for its recursive query.
  pub move-IsForest :
      (now user id : ℕ) (parent : Option ℕ) (w : World DriveDb X)
      → IsForest w.db.folders
      → let (r, w') = move cache now user id parent w in IsForest w'.db.folders × (r ≢ err hang)
  unfolding move
  move-IsForest now user id none w f =
      elim (Option-cases (find_by_id_and_user id user w.db.folders)) [
        | inl e ↦ rw e (f, λ p. cc)
        | inr (folder, e) ↦
            rw e (elim (Option-cases (FolderRepository.move id user none now w.db.folders).0) [
              | inl gone ↦ rw gone (unparent now user id w.db.folders f, λ p. cc)
              | inr (row, moved) ↦ rw moved (unparent now user id w.db.folders f, λ p. cc)
            ])
      ]
  move-IsForest now user id (some p) w f =
      elim (Option-cases (find_by_id_and_user id user w.db.folders)) [
        | inl e ↦ rw e (f, λ p. cc)
        | inr (folder, e) ↦ rw e (elim (Option-cases (find_by_id_and_user p user w.db.folders)) [
          | inl e' ↦ rw e' (f, λ p. cc)
          | inr (target, e') ↦
              rw (e', is_descendant_ends w.db.folders f id p)
                (elim (Bool-cases (climbs_to w.db.folders id p)) [
                  | inl below ↦ rw below (f, λ q. cc)
                  | inr apart ↦
                      rw apart
                        (elim (Option-cases
                          (FolderRepository.move id user (some p) now w.db.folders).0) [
                            | inl gone ↦
                                rw gone (reparent now user id w.db.folders f p apart, λ q. cc)
                            | inr (row, moved) ↦
                                rw moved (reparent now user id w.db.folders f p apart, λ q. cc)
                          ])
                ])
        ])
      ]

  -- In a forest, `FolderService.create` under an id that nobody uses leaves a forest, whether it
  -- succeeds or throws, and never waits for ever.
  pub create-IsForest :
      (id now user : ℕ) (name : Text) (parent : Option ℕ) (w : World DriveDb X)
      → IsForest w.db.folders
      → IsUnused id w.db.folders
      → parent ≢ some id
      → let (r, w') = create cache id now user name parent w in
        IsForest w'.db.folders × (r ≢ err hang)
  unfolding create
  create-IsForest id now user name none w f unused other =
      (insert-IsForest w.db.folders f (new_folder id now user name none) unused other, λ p. cc)
  create-IsForest id now user name (some p) w f unused other =
      elim (Option-cases (find_by_id_and_user p user w.db.folders)) [
        | inl e ↦ rw e (f, λ p. cc)
        | inr (target, e) ↦
            let (depth, d) = depth_ends now user id w.db.folders f p in
            rw (e, d)
              (elim (Bool-cases (leb max_folder_depth depth)) [
                | inl deep ↦ rw deep (f, λ p. cc)
                | inr fits ↦ rw fits (
                  insert-IsForest w.db.folders f (new_folder id now user name (some p)) unused
                      other,
                  λ p. cc,
                )
              ])
      ]

  -- `FolderService.rename` leaves a forest a forest.
  pub rename-IsForest :
      (now user id : ℕ) (name : Text) (w : World DriveDb X)
      → IsForest w.db.folders
      → IsForest (rename cache now user id name w).1.db.folders
  unfolding rename
  rename-IsForest now user id name w f =
      elim (Option-cases (FolderRepository.rename id user name now w.db.folders).0) [
        | inl gone ↦ rw gone (renamed now user id w.db.folders f name)
        | inr (row, e) ↦ rw e (renamed now user id w.db.folders f name)
      ]

  -- In a forest, `FolderService.remove` leaves a forest and never waits for ever.
  pub remove-IsForest :
      (now user id : ℕ) (w : World DriveDb X)
      → IsForest w.db.folders
      → let (r, w') = remove cache now user id w in IsForest w'.db.folders × (r ≢ err hang)
  unfolding remove soft_delete_cascade
  remove-IsForest now user id w f = elim (Option-cases (find_by_id_and_user id user w.db.folders)) [
    | inl e ↦ rw e (f, λ p. cc)
    | inr (folder, e) ↦
        let (rows, s) = subtree_ends w.db.folders f id user in
        rw (e, s)
          (
            update_where-IsForest w.db.folders f _ (mark_folder (some now)) (λ r. refl) (λ r. refl),
            λ p. cc,
          )
  ]
