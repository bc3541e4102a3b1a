-- ===== src/Drive/UploadSession/Entered.antt =====
-- `complete` that succeeds: what it entered, and that it does so once.
use terab.Base.{
  ℕ, ◌≡◌, refl, sym, ap, ◌∙◌, Bool, true, false, Bool-cases, Option, Option-cases, none, some, List,
  [], ◌∷◌, arith, inl, inr, ◌==◌,
}
use terab.ErrorCode.{
  Error, ErrorCode, no_such_key, api, unique_violation, failure, hang, upload_session_expired,
  upload_session_not_found, upload_size_mismatch, upload_object_missing,
}
use terab.Action.{World, Result, ok, err, or_throw}
use terab.Action.Laws.{run_in_tx_committed, run_in_tx_ext, run_in_tx_answer, Result-cases, bind-ok}
use terab.Table.Laws.{find_where-Has}
use terab.Table.{insert, delete_where}
use terab.Drive.Schema.{
  DriveDb, File, FileItem, UploadSession, UploadKind, single, multipart, MinioKey,
}
use terab.Drive.Outside.{Cache, ObjectStore, Part}
use terab.Drive.UploadSession.{
  complete, complete_body, complete_session, find_session, file_of, delete_session, is_overdue,
  check_expiry, finish_parts, missing_if_no_key, stat_or_none, check_size,
}

-- What a transaction's statements say of the file they entered.
pub record IsEntered (s : UploadSession) (user : ℕ) (before after : DriveDb) : Type 0 where
  pub file : File
  pub entered : after.files ≡ insert file before.files
  pub owner : file.user_id ≡ user
  pub folder : file.folder_id ≡ s.folder_id
  pub name : file.name ≡ s.name
  pub size : file.size ≡ s.size
  pub mime_type : file.mime_type ≡ s.mime_type
  pub key : file.minio_key ≡ s.minio_key
  pub live : file.soft_deleted_at ≡ none
  pub gone : find_session s.id after.upload_sessions ≡ none
  pub folders : after.folders ≡ before.folders

find-delete_where :
    (id : ℕ) (t : List UploadSession)
    → find_session id (delete_where (λ (s : UploadSession). s.id == id) t) ≡ none
find-delete_where id [] = refl
find-delete_where id (s ∷ t) = elim (Bool-cases (s.id == id)) [
  | inl same ↦ rw same (find-delete_where id t)
  | inr other ↦ rw (other, other) (find-delete_where id t)
]

or_throw-ok :
    {W A : Type 0} (found : Option A) (code : ErrorCode) (w : W) {a : A}
    → (or_throw found code w).0 ≡ ok a
    → (found ≡ some a) × ((or_throw found code w).1 ≡ w)
or_throw-ok none code w done = cc
or_throw-ok (some b) code w {a} done = let e : b ≡ a = cc in (ap some e, refl)

-- The tables after the entry.
abbrev entered_db : (id now user : ℕ) → UploadSession → DriveDb → DriveDb
entered_db id now user s d =
    delete_session s.id (record d { files = insert (file_of id now user s) d.files })

IsEntered-of_eq :
    (id now user : ℕ) (s : UploadSession) (before after : DriveDb)
    → after ≡ entered_db id now user s before
    → IsEntered s user before after
IsEntered-of_eq id now user s before after e = rw e (record {
  file = file_of id now user s;
  entered = refl;
  owner = refl;
  folder = refl;
  name = refl;
  size = refl;
  mime_type = refl;
  key = refl;
  live = refl;
  gone = find-delete_where s.id before.upload_sessions;
  folders = refl;
})

module _ {X : Type 0} (cache : Cache X) (minio : ObjectStore X) where
  check_expiry-kept :
      (late : Bool) (s : UploadSession) (w : World DriveDb X) {u : Unit {0}}
      → (check_expiry cache minio late s w).0 ≡ ok u
      → (check_expiry cache minio late s w).1.db ≡ w.db
  check_expiry-kept false s w done = refl
  check_expiry-kept true s w {u} done =
      elim (Result-cases (minio.stat_object s.minio_key w.ext).0) [
        | inl (e, lost) ↦ let f : err (api upload_session_expired) ≡ ok u = rw lost at done in cc
        | inr (size, found) ↦ rw found refl
      ]

  finish_parts-kept :
      (s : UploadSession) (kind : UploadKind) (parts : List Part) (w : World DriveDb X)
      → (finish_parts cache minio s kind parts w).1.db ≡ w.db
  finish_parts-kept s single parts w = refl
  finish_parts-kept s multipart parts w = elim (Option-cases s.multipart_upload_id) [
    | inl missing ↦ rw missing refl
    | inr (upload, known) ↦ rw known refl
  ]

  stat_or_none-some :
      (key : MinioKey) (w : World DriveDb X) {size : ℕ}
      → (stat_or_none cache minio key w).0 ≡ ok (some size)
      → ((minio.stat_object key w.ext).0 ≡ ok size)
        × ((stat_or_none cache minio key w).1 ≡ record w { ext = (minio.stat_object key w.ext).1 })
  stat_or_none-some key w {size} done = elim (Result-cases (minio.stat_object key w.ext).0) [
    | inl (e, lost) ↦ absurd (missing e _ (rw lost at done))
    | inr (n, found) ↦
        let e : ok (some n) ≡ ok (some size) = rw found at done in
        let e' : n ≡ size = cc in (found ∙ ap ok e', rw found refl)
  ]
    where
      missing :
          (e : Error) (v : World DriveDb X)
          → ¬ ((missing_if_no_key cache minio e v).0 ≡ ok (some size))
      missing no_such_key v h = cc
      missing (api c) v h = cc
      missing (unique_violation n) v h = cc
      missing (failure n) v h = cc
      missing hang v h = cc

  check_size-ok :
      (s : UploadSession) (size : ℕ) (w : World DriveDb X) {u : Unit {0}}
      → (check_size cache minio s size w).0 ≡ ok u
      → (size ≡ s.size) × ((check_size cache minio s size w).1 ≡ w)
  check_size-ok s size w {u} done = elim (Bool-cases (size == s.size)) [
    | inl same ↦ (ground arith, rw same refl)
    | inr differs ↦ elim (Result-cases (minio.remove_object s.minio_key w.ext).0) [
      | inl (e, broken) ↦
          let f : err (api upload_size_mismatch) ≡ ok u = rw (differs, broken) at done in cc
      | inr (v, gone) ↦
          let f : err (api upload_size_mismatch) ≡ ok u = rw (differs, gone) at done in cc
    ]
  ]

  -- The last that the store was asked is the size of the session's object, and it is the announced
  -- one.
  abbrev pub IsSized : UploadSession → X → Type 0
  IsSized s after =
      (x : X) × ((minio.stat_object s.minio_key x).0 ≡ ok s.size)
      × (after ≡ (minio.stat_object s.minio_key x).1)

  complete_session-IsEntered :
      (id now user : ℕ) (s : UploadSession) (parts : List Part) (w : World DriveDb X)
      {item : FileItem}
      → (complete_session cache minio id now user s parts w).0 ≡ ok item
      → IsEntered s user w.db (complete_session cache minio id now user s parts w).1.db
        × IsSized s (complete_session cache minio id now user s parts w).1.ext
  complete_session-IsEntered id now user s parts w {item} done =
      let checks = check_expiry cache minio (is_overdue now s) s in
      let finishes = finish_parts cache minio s s.upload_kind parts in
      let stats = stat_or_none cache minio s.minio_key in
      let (u, timely, done1, same1) = bind-ok checks _ w done in
      let w1 = (checks w).1 in
      let (v, joined, done2, same2) = bind-ok finishes _ w1 done1 in
      let w2 = (finishes w1).1 in
      let (found, asked, done3, same3) = bind-ok stats _ w2 done2 in
      let w3 = (stats w2).1 in
      let (size, there, done4, same4) = bind-ok (or_throw found upload_object_missing) _ w3 done3 in
      let (some_size, still) = or_throw-ok found upload_object_missing w3 there in
      let w4 = (or_throw found upload_object_missing w3).1 in
      let (z, right, done5, same5) = bind-ok (check_size cache minio s size) _ w4 done4 in
      let w5 = (check_size cache minio s size w4).1 in
      let (announced, kept5) = check_size-ok s size w4 right in
      let (answer, kept3) = stat_or_none-some s.minio_key w2 (asked ∙ ap ok some_size) in
      let asked_last : w5 ≡ record w2 { ext = (minio.stat_object s.minio_key w2.ext).1 } =
        kept5 ∙ still ∙ kept3 in
      let kept : w5.db ≡ w.db =
        ap (λ (v : World DriveDb X). v.db) asked_last
        ∙ finish_parts-kept s s.upload_kind parts w1
        ∙ check_expiry-kept (is_overdue now s) s w timely in
      let whole = same1 ∙ same2 ∙ same3 ∙ same4 ∙ same5 in
      let after : (complete_session cache minio id now user s parts w).1.db
          ≡ entered_db id now user s w.db =
        ap (λ (r : Result FileItem × World DriveDb X). r.1.db) whole
        ∙ ap (entered_db id now user s) kept in
      (
        IsEntered-of_eq id now user s w.db _ after,
        (
          w2.ext,
          answer ∙ ap ok announced,
          ap (λ (r : Result FileItem × World DriveDb X). r.1.ext) whole
              ∙ ap (λ (v : World DriveDb X). v.ext) asked_last,
        ),
      )

  -- A `complete` that succeeds found a session of the user, the last answer of the store was that
  -- its object has the announced size, and, together, the file is entered with the session's
  -- folder, name, type, size and object, and the session is gone.
  pub complete-IsEntered :
      (id now user session : ℕ) (parts : List Part) (w : World DriveDb X) {item : FileItem}
      → (complete cache minio id now user session parts w).0 ≡ ok item
      → (s : UploadSession) × (find_session session w.db.upload_sessions ≡ some s)
        × (s.user_id ≡ user)
        × IsSized s (complete cache minio id now user session parts w).1.ext
        × IsEntered s user w.db (complete cache minio id now user session parts w).1.db
  unfolding complete
  complete-IsEntered id now user session parts w {item} done =
      let v = record w { in_tx = true } in
      let body = complete_body cache minio id now user session parts in
      let passed : (body v).0 ≡ ok item = sym (run_in_tx_answer body w) ∙ done in
      elim (Option-cases (find_session session w.db.upload_sessions)) [
        | inl missing ↦
            let f : err (api upload_session_not_found) ≡ ok item = rw missing at passed in cc
        | inr (s, found) ↦ elim (Bool-cases (s.user_id == user)) [
          | inr other ↦
              let f : err (api upload_session_not_found) ≡ ok item = rw (found, other) at passed in
              cc
          | inl mine ↦
              let goes : body v ≡ complete_session cache minio id now user s parts v =
                rw (found, mine) refl in
              let (entered, answer) =
                complete_session-IsEntered id now user s parts v (rw goes at passed) in
              (
                s,
                found,
                ground arith,
                rw (run_in_tx_ext body w, goes) answer,
                rw (run_in_tx_committed body w passed, goes) entered,
              )
        ]
      ]

  -- After a `complete` that succeeds, a second one of the same session, by whichever user and at
  -- whatever time, on tables that still have the upload sessions that the first left, fails with
  -- UPLOAD_SESSION_NOT_FOUND and changes no table.
  pub complete-twice :
      (id now user session : ℕ) (parts : List Part) (w : World DriveDb X) {item : FileItem}
      (id' now' user' : ℕ) (parts' : List Part) (w' : World DriveDb X)
      → (complete cache minio id now user session parts w).0 ≡ ok item
      → w'.db.upload_sessions
        ≡ (complete cache minio id now user session parts w).1.db.upload_sessions
      → let (r, after) = complete cache minio id' now' user' session parts' w' in
        (r ≡ err (api upload_session_not_found)) × (after.db ≡ w'.db)
  unfolding complete
  complete-twice id now user session parts w id' now' user' parts' w' done same =
      let (s, found, mine, answer, after) = complete-IsEntered id now user session parts w done in
      let fits : (s.id == session) ≡ true =
        (find_where-Has (λ (r : UploadSession). r.id == session) w.db.upload_sessions s found).1 in
      let number : s.id ≡ session = ground arith in
      let gone : find_session session w'.db.upload_sessions ≡ none =
        ap (find_session session) same
        ∙ ap
            (λ i.
              find_session i
                (complete cache minio id now user session parts w).1.db.upload_sessions)
            (sym number)
        ∙ after.gone in
      elim (Bool-cases w'.in_tx) [
        | inl nested ↦ rw (nested, gone) (refl, refl)
        | inr outer ↦ rw (outer, gone) (refl, refl)
      ]
