-- ===== src/Drive/Samples.antt =====
-- The concrete drive, cache and object store of the tests.
use terab.Base.{
  ℕ, ◌≡◌, refl, Bool, true, false, Option, none, some, [], ◌∷◌, ◌==◌, ◌&&◌, arith, inl, inr, All,
  All-Has, Bool-cases, ==-refl, if◌then◌else◌,
}
use terab.Action.{World, ok}
use terab.Table.{UniqueIds}
use terab.Drive.Schema.{Folder, File, UploadSession, single, DriveDb, FolderChildren}
use terab.Drive.Outside.{CacheKey, Cache, IsLawful, ObjectStore}
use terab.Drive.FileRepository
use terab.Drive.FolderRepository.{find_by_id_and_user}
use terab.Drive.FolderService.{cache_key, listing}
use terab.Drive.FolderService.Coherence.{IsCoherent}
use terab.Drive.FolderService.Coherence.Moving.{kept-IsCoherent}
use terab.Drive.Trash.RoundTrip.{IsClean}
use terab.Drive.Tree.Subtree.{IsUnder-Has}
use terab.Drive.Tree.{IsForest}

-- A cache that keeps everything until it is deleted.
abbrev pub Entries : Type 0
Entries = CacheKey → Option FolderChildren

abbrev pub option_eq : Option ℕ → Option ℕ → Bool
option_eq none none = true
option_eq none (some b) = false
option_eq (some a) none = false
option_eq (some a) (some b) = a == b

abbrev pub key_eq : CacheKey → CacheKey → Bool
key_eq k j = k.user == j.user && option_eq k.folder j.folder

abbrev pub entries : Cache Entries
entries = record {
  get = λ k x. x k;
  set = λ k v x j. if key_eq k j then some v else x j;
  del = λ k x j. if key_eq k j then none else x j;
}

option_eq_refl : (a : Option ℕ) → option_eq a a ≡ true
option_eq_refl none = refl
option_eq_refl (some a) = ==-refl a

key_eq_refl : (k : CacheKey) → key_eq k k ≡ true
key_eq_refl k = rw (==-refl k.user, option_eq_refl k.folder) refl

option_of_eq : (a b : Option ℕ) → option_eq a b ≡ true → b ≡ a
option_of_eq none none e = refl
option_of_eq none (some b) e = cc
option_of_eq (some a) none e = cc
option_of_eq (some a) (some b) e = ground arith

key_of_eq : (k j : CacheKey) → key_eq k j ≡ true → j ≡ k
key_of_eq k j e =
    let u : j.user ≡ k.user = ground arith in
    let f = option_of_eq k.folder j.folder (ground arith) in
    λ i. record { user = u i; folder = f i }

pub entries-IsLawful : IsLawful entries
entries-IsLawful = record {
  get-del_self = λ k x. rw (key_eq_refl k) refl;
  get-del = λ k j v x e. elim (Bool-cases (key_eq k j)) [
    | inl same ↦ (let e' : none ≡ some v = rw same at e in cc)
    | inr other ↦ rw other at e
  ];
  get-set = λ k j v u x e. elim (Bool-cases (key_eq k j)) [
    | inl same ↦ inl (key_of_eq k j same, (let e' : some v ≡ some u = rw same at e in cc))
    | inr other ↦ inr (rw other at e)
  ];
}

-- An object store that has an object of 7 bytes under every key, and does everything it is asked.
abbrev pub store : {X : Type 0} → ObjectStore X
store = record {
  stat_object = λ key x. (ok 7, x);
  get_object = λ key x. (ok 3, x);
  copy_object = λ from to x. (ok tt, x);
  remove_object = λ key x. (ok tt, x);
  remove_objects = λ keys x. (ok tt, x);
  presigned_put_object = λ key expiry x. (ok (0 ∷ []), x);
  presigned_put_part = λ key upload number expiry x. (ok (number ∷ []), x);
  create_multipart_upload = λ key type x. (ok 5, x);
  complete_multipart_upload = λ key upload parts x. (ok tt, x);
  abort_multipart_upload = λ key upload x. (ok tt, x);
}

abbrev pub folder_row : ℕ → Option ℕ → Folder
folder_row id parent = record {
  id = id;
  user_id = 1;
  parent_id = parent;
  name = id ∷ [];
  soft_deleted_at = none;
  created_at = 0;
  updated_at = 0;
}

abbrev pub file_row : ℕ → Option ℕ → File
file_row id parent = record {
  id = id;
  user_id = 1;
  folder_id = parent;
  name = id ∷ [];
  minio_key = record { owner = 1; uuid = id };
  size = 7;
  mime_type = [];
  soft_deleted_at = none;
  created_at = 0;
  updated_at = 0;
}

abbrev pub session_row : ℕ → ℕ → UploadSession
session_row id expires = record {
  id = id;
  user_id = 1;
  folder_id = none;
  name = id ∷ [];
  size = 7;
  mime_type = [];
  minio_key = record { owner = 1; uuid = id };
  upload_kind = single;
  multipart_upload_id = none;
  expires_at = expires;
  created_at = 0;
}

-- Folder 11 lies in folder 10, beside folder 12, and holds file 20.
abbrev pub drive : DriveDb
drive = record {
  folders = folder_row 10 none ∷ folder_row 11 (some 10) ∷ folder_row 12 none ∷ [];
  files = file_row 20 (some 11) ∷ [];
  upload_sessions = session_row 30 1000 ∷ session_row 31 50000 ∷ [];
}

abbrev pub world : World DriveDb Entries
world = record { db = drive; ext = λ k. none; in_tx = false }

pub drive_IsForest : IsForest drive.folders
drive_IsForest = record {
  rank = λ n. n;
  above = (λ p e. cc, (λ p e. ground arith, (λ p e. cc, tt)));
}

pub drive_UniqueIds : UniqueIds (λ (r : Folder). r.id) drive.folders
drive_UniqueIds = ((λ e. omega arith, (λ e. omega arith, tt)), ((λ e. omega arith, tt), (tt, tt)))

pub files_UniqueIds : UniqueIds (λ (r : File). r.id) drive.files
files_UniqueIds = (tt, tt)

pub sessions_UniqueIds : UniqueIds (λ (s : UploadSession). s.id) drive.upload_sessions
sessions_UniqueIds = ((λ e. omega arith, tt), (tt, tt))

unmarked : All (λ (r : Folder). r.soft_deleted_at ≡ none) drive.folders
unmarked = (refl, (refl, (refl, tt)))

unmarked_files : All (λ (r : File). r.soft_deleted_at ≡ none) drive.files
unmarked_files = (refl, tt)

-- Nothing of the drive is in the trash.
pub drive-IsClean : IsClean 10 1 (folder_row 10 none) drive
unfolding find_by_id_and_user
drive-IsClean = record {
  forest = drive_IsForest;
  unique = drive_UniqueIds;
  live = refl;
  parent = refl;
  folders = λ r under.
      All-Has (λ (r : Folder). r.soft_deleted_at ≡ none) drive.folders unmarked (IsUnder-Has under);
  files = λ r s h under e.
      All-Has (λ (r : File). r.soft_deleted_at ≡ none) drive.files unmarked_files h;
}

pub live_11 : find_by_id_and_user 11 1 drive.folders ≡ some (folder_row 11 (some 10))
unfolding find_by_id_and_user
live_11 = refl

pub live_20 : FileRepository.find_by_id_and_user 20 1 drive.files ≡ some (file_row 20 (some 11))
unfolding FileRepository.find_by_id_and_user
live_20 = refl

-- The listing of the root is cached.
abbrev pub warm : World DriveDb Entries
warm = record world { ext = entries.set (cache_key 1 none) (listing 1 none drive) world.ext }

pub warm_IsCoherent : IsCoherent entries drive warm.ext
warm_IsCoherent =
    kept-IsCoherent entries entries-IsLawful 1 none drive world.ext (λ u f v e shown. cc)
