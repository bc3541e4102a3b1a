-- ===== src/Storage/SecretStore.antt =====
-- services/api/src/mount-credential/secret-store.ts: the secrets as files of one directory.
use terab.Base.{Bool, false, ◌&&◌, ◌||◌, not, [], ◌∷◌, ◌==◌, Text, if◌then◌else◌}
use terab.ErrorCode.{api, mount_credential_secret_write_failed}
use terab.Action.{ok, pure, throw, external, ◌>>=◌}
use terab.Storage.Schema.{StorageOutside, StorageAction}

-- `name.includes('..')`
abbrev pub has_dots : Text → Bool
has_dots [] = false
has_dots (a ∷ []) = false
has_dots (a ∷ b ∷ s) = (a == b'.' && b == b'.') || has_dots (b ∷ s)

abbrev pub has_slash : Text → Bool
has_slash [] = false
has_slash (a ∷ s) = (a == b'/' || a == 92) || has_slash s

-- `resolvePath` accepts the name.
abbrev pub is_plain : Text → Bool
is_plain name = not (has_slash name || has_dots name)

module _ {X : Type 0} (out : StorageOutside X) where
  unfoldable pub write : Text → Text → StorageAction X (Unit {0})
  write name secret =
      if is_plain name
      then (do
        written ←
            external (λ x. (ok (out.write_file name secret x).0, (out.write_file name secret x).1))
        if written then pure tt else throw (api mount_credential_secret_write_failed))
      else throw (api mount_credential_secret_write_failed)

  unfoldable pub remove : Text → StorageAction X (Unit {0})
  remove name =
      if is_plain name
      then external (λ x. (ok tt, out.remove_file name x))
      else throw (api mount_credential_secret_write_failed)
