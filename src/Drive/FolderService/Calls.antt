-- ===== src/Drive/FolderService/Calls.antt =====
-- services/api/src/folder/folder.service.ts: whatever call of the service that writes.
use terab.Base.{ℕ, ◌≡◌, ◌≢◌, ◌⊎◌, Option, some, List, [], ◌∷◌, inl, inr, Option-cases}
use terab.ErrorCode.{hang}
use terab.Action.{World, err}
use terab.Table.{UniqueIds}
use terab.Drive.Schema.{Text, DriveDb, Folder}
use terab.Drive.Outside.{Cache, IsLawful}
use terab.Drive.FolderRepository
use terab.Drive.FolderService.{create, rename, move, remove}
use terab.Drive.FolderService.Forest.{
  IsUnused, create-IsForest, rename-IsForest, move-IsForest, remove-IsForest,
}
use terab.Drive.FolderService.Coherence.{IsCoherent, create-IsCoherent, rename-IsCoherent}
use terab.Drive.FolderService.Coherence.Moving.{move-IsCoherent}
use terab.Drive.Tree.{IsForest}

pub data FolderCall : Type 0 where
  creates : (id now user : ℕ) → Text → Option ℕ → FolderCall
  renames : (now user id : ℕ) → Text → FolderCall
  moves : (now user id : ℕ) → Option ℕ → FolderCall
  removes : (now user id : ℕ) → FolderCall

-- Nobody has the id that the call draws.
abbrev pub IsFresh : FolderCall → List Folder → Type 0
IsFresh (creates id now user name parent) t = IsUnused id t × (parent ≢ some id)
IsFresh (renames now user id name) t = Unit
IsFresh (moves now user id parent) t = Unit
IsFresh (removes now user id) t = Unit

abbrev pub IsRemoval : FolderCall → Type 0
IsRemoval (creates id now user name parent) = ⊥
IsRemoval (renames now user id name) = ⊥
IsRemoval (moves now user id parent) = ⊥
IsRemoval (removes now user id) = Unit

module _ {X : Type 0} (cache : Cache X) where
  abbrev pub perform : FolderCall → World DriveDb X → World DriveDb X
  perform (creates id now user name parent) w = (create cache id now user name parent w).1
  perform (renames now user id name) w = (rename cache now user id name w).1
  perform (moves now user id parent) w = (move cache now user id parent w).1
  perform (removes now user id) w = (remove cache now user id w).1

  -- The call waits for ever for its recursive query.
  abbrev pub IsHung : FolderCall → World DriveDb X → Type 0
  IsHung (creates id now user name parent) w = (create cache id now user name parent w).0 ≡ err hang
  IsHung (renames now user id name) w = (rename cache now user id name w).0 ≡ err hang
  IsHung (moves now user id parent) w = (move cache now user id parent w).0 ≡ err hang
  IsHung (removes now user id) w = (remove cache now user id w).0 ≡ err hang

  rename-ends :
      (now user id : ℕ) (name : Text) (w : World DriveDb X)
      → ¬ ((rename cache now user id name w).0 ≡ err hang)
  unfolding rename
  rename-ends now user id name w =
      elim (Option-cases (FolderRepository.rename id user name now w.db.folders).0) [
        | inl gone ↦ rw gone (λ p. cc)
        | inr (row, e) ↦ rw e (λ p. cc)
      ]

  perform-IsForest :
      (call : FolderCall) (w : World DriveDb X)
      → IsFresh call w.db.folders
      → IsForest w.db.folders
      → IsForest (perform call w).db.folders × (¬ IsHung call w)
  perform-IsForest (creates id now user name parent) w (unused, other) f =
      create-IsForest cache id now user name parent w f unused other
  perform-IsForest (renames now user id name) w fresh f =
      (rename-IsForest cache now user id name w f, rename-ends now user id name w)
  perform-IsForest (moves now user id parent) w fresh f = move-IsForest cache now user id parent w f
  perform-IsForest (removes now user id) w fresh f = remove-IsForest cache now user id w f

  -- The calls in turn.
  abbrev pub perform_all : List FolderCall → World DriveDb X → World DriveDb X
  perform_all [] w = w
  perform_all (call ∷ calls) w = perform_all calls (perform call w)

  -- Each call draws an id that nobody has when it is made.
  abbrev pub AreFresh : List FolderCall → World DriveDb X → Type 0
  AreFresh [] w = Unit
  AreFresh (call ∷ calls) w = IsFresh call w.db.folders × AreFresh calls (perform call w)

  abbrev pub AnyHung : List FolderCall → World DriveDb X → Type 0
  AnyHung [] w = ⊥
  AnyHung (call ∷ calls) w = IsHung call w ⊎ AnyHung calls (perform call w)

  -- Whatever sequence of `create`, `rename`, `move` and `remove` the folder service performs on a
  -- forest, whether each succeeds or throws, a forest is left and no call waits for ever for its
  -- recursive query, as long as each `create` draws an id that nobody uses.
  pub perform_all-IsForest :
      (calls : List FolderCall) (w : World DriveDb X)
      → AreFresh calls w
      → IsForest w.db.folders
      → IsForest (perform_all calls w).db.folders × (¬ AnyHung calls w)
  perform_all-IsForest [] w fresh f = (f, λ h. h)
  perform_all-IsForest (call ∷ calls) w (fresh, later) f =
      let (kept, ends) = perform-IsForest call w fresh f in
      let (all, rest) = perform_all-IsForest calls (perform call w) later kept in
      (all, λ h. elim h [ inl now ↦ ends now | inr then_ ↦ rest then_ ])

  -- With a lawful cache and unique folder ids, each of `create`, `rename` and `move` of the folder
  -- service keeps every cached listing of a folder outside the trash equal to what the tables say,
  -- whether it succeeds or throws.
  pub perform-IsCoherent :
      IsLawful cache
      → (call : FolderCall) (w : World DriveDb X) → ¬ IsRemoval call
      → UniqueIds (λ (r : Folder). r.id) w.db.folders
      → IsCoherent cache w.db w.ext
      → let w' = perform call w in IsCoherent cache w'.db w'.ext
  perform-IsCoherent lawful (creates id now user name parent) w kept unique c =
      create-IsCoherent cache lawful id now user name parent w c
  perform-IsCoherent lawful (renames now user id name) w kept unique c =
      rename-IsCoherent cache lawful now user id name w unique c
  perform-IsCoherent lawful (moves now user id parent) w kept unique c =
      move-IsCoherent cache lawful now user id parent w unique c
  perform-IsCoherent lawful (removes now user id) w kept unique c = absurd (kept tt)
