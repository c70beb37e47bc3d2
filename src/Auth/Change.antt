-- ===== src/Auth/Change.antt =====
-- internal/web/users.go: `changeCurrentAccount`.
use emby_migrator.Prelude.{
  ℕ, suc, ◌+◌, Bool, not, ◌&&◌, ◌||◌, Option, none, some, List, [], ◌∷◌, Text, codes, get_elem?,
  set, if◌then◌else◌,
}
use emby_migrator.Prelude.Strings.{trim_space, is_empty}
use emby_migrator.Auth.Roles.{role_text, admin}
use emby_migrator.Auth.Accounts.{
  User, Crypto, normalized_session_version, same_login_name, constant_time_string_equal,
  verify_password, validate_username,
}

module _ (c : Crypto) where
  -- The search of `changeCurrentAccount`: `none` where another user has the new name, else the place of
  -- the last user of the old one.
  unfoldable pub find_current : Text → Text → List User → Option (Option ℕ)
  find_current username new_username [] = some none
  find_current username new_username (u ∷ us) =
      let rest = find_current username new_username us in
      let here = same_login_name username u.username in
      if not here && same_login_name new_username u.username then none else elim rest [
        | none ↦ none
        | some found ↦ elim found [
          | none ↦ some (if here then some 0 else none)
          | some i ↦ some (some (suc i))
        ]
      ]

  pub data Change : Type 0 where
    changed : Text → List User → Change
    bad_username no_changes users_unreadable invalid_password hash_failed save_failed : Change
    username_taken user_not_found : Change

  -- The file is written whole or not at all: `save` says whether it could be.
  abbrev pub saved : Bool → Text → List User → Change
  saved save name us = if save then changed name us else save_failed

  unfoldable pub change_first : Text → Bool → Text → Text → Text → Text → Change
  unfolding constant_time_string_equal
  change_first admin_password save username current new_name new_password =
      if not (same_login_name username (codes "admin"))
        || not (constant_time_string_equal c current admin_password)
      then invalid_password
      else elim (c.bcrypt_hash (if is_empty new_password then current else new_password)) [
        | none ↦ hash_failed
        | some hash ↦ saved save new_name (
            record {
              username = new_name;
              password = [];
              password_hash = hash;
              role = role_text admin;
              session_version = 2;
            }
            ∷ [])
      ]

  unfoldable pub change_user : Bool → List User → ℕ → User → Text → Text → Text → Change
  change_user save us i u current new_name new_password =
      if verify_password c u current
      then (let renamed = record u {
        username = new_name;
        session_version = normalized_session_version u.session_version + 1;
      } in
          if is_empty new_password
          then saved save new_name (set us i renamed)
          else elim (c.bcrypt_hash new_password) [
            | none ↦ hash_failed
            | some hash ↦
                saved save new_name
                  (set us i (record renamed { password = []; password_hash = hash }))
          ])
      else invalid_password

  unfoldable pub change_among : Bool → List User → Text → Text → Text → Text → Change
  unfolding change_user
  change_among save us username current new_name new_password =
      elim (find_current username new_name us) [
        | none ↦ username_taken
        | some found ↦ elim found [
          | none ↦ user_not_found
          | some i ↦ elim (get_elem? us i) [
            | none ↦ user_not_found
            | some u ↦ change_user save us i u current new_name new_password
          ]
        ]
      ]

  -- `changeCurrentAccount`; `loaded` is what `loadUsersConfig` answers.
  unfoldable pub change_current_account :
      Text → Bool → Option (List User) → Text → Text → Text → Text → Change
  unfolding change_first change_among
  change_current_account admin_password save loaded username current new_username new_password =
      let new_name = trim_space new_username in
      if not (validate_username c new_name)
      then bad_username
      else if same_login_name username new_name && is_empty new_password
      then no_changes
      else elim loaded [
        | none ↦ users_unreadable
        | some us ↦ elim us [
          | [] ↦ change_first admin_password save username current new_name new_password
          | u ∷ rest ↦ change_among save (u ∷ rest) username current new_name new_password
        ]
      ]
