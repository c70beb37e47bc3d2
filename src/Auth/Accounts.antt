-- ===== src/Auth/Accounts.antt =====
-- internal/web/users.go: the file of users, passwords, and who is logged in.
-- bcrypt, SHA-256, base64, hexadecimal and Unicode's classes are parameters. A session version that is
-- not positive counts as 0, which the code treats alike.
use Prim.Native.Nat.{bit_or, bit_xor}
use emby_migrator.Prelude.{
  ℕ, Bool, true, false, not, ◌&&◌, ◌||◌, Option, none, some, List, [], ◌∷◌, ◌++◌, Text, codes,
  text_eq, length, ltb, ◌==◌, if◌then◌else◌,
}
use emby_migrator.Prelude.Strings.{trim_space, equal_fold, has_prefix, is_empty, split}
use emby_migrator.Auth.Roles.{role_text, normalize_role, Principal, default_principal, admin}

-- `configUser`
pub record User : Type 0 where
  pub username : Text
  pub password : Text
  pub password_hash : Text
  pub role : Text
  pub session_version : ℕ

pub record Crypto : Type 0 where
  pub bcrypt_hash : Text → Option Text
  pub bcrypt_compare : Text → Text → Bool
  pub sha256 : Text → Text
  pub base64_decode : Text → Option Text
  pub hex_decode : Text → Option Text
  pub is_letter : ℕ → Bool
  pub is_digit : ℕ → Bool

abbrev pub normalized_session_version : ℕ → ℕ
normalized_session_version version = if version == 0 then 1 else version

-- A blank name that is asked for stands for "admin".
abbrev pub or_admin : Text → Text
or_admin t = if is_empty t then codes "admin" else t

unfoldable pub same_login_name : Text → Text → Bool
same_login_name requested configured =
    equal_fold (or_admin (trim_space requested)) (trim_space configured)

-- The loop of `subtleHashEqual`.
abbrev pub diff_from : ℕ → Text → Text → ℕ
diff_from d [] t = d
diff_from d (a ∷ s) [] = d
diff_from d (a ∷ s) (b ∷ t) = diff_from (bit_or d (bit_xor a b)) s t

unfoldable pub subtle_hash_equal : Text → Text → Bool
subtle_hash_equal a b = if length a == length b then diff_from 0 a b == 0 else false

module _ (c : Crypto) where
  -- The digests are compared by their hexadecimal texts, which differ where the digests do.
  unfoldable pub constant_time_string_equal : Text → Text → Bool
  constant_time_string_equal a b = text_eq (c.sha256 a) (c.sha256 b)

  -- The hashes of the old form, `sha256:v1:salt:sum`, by their parts.
  unfoldable pub legacy_parts : Text → List Text → Bool
  unfolding subtle_hash_equal
  legacy_parts password (scheme ∷ version ∷ salt ∷ sum ∷ []) =
      if text_eq scheme (codes "sha256") && text_eq version (codes "v1")
      then elim (c.base64_decode salt) [
        | none ↦ false
        | some s ↦ elim (c.hex_decode sum) [
          | none ↦ false
          | some want ↦ subtle_hash_equal (c.sha256 (s ++ password)) want
        ]
      ]
      else false
  legacy_parts password _ = false

  unfoldable pub verify_password_hash : Text → Text → Bool
  unfolding legacy_parts
  verify_password_hash password encoded =
      let e = trim_space encoded in
      if has_prefix e (codes "$2")
      then c.bcrypt_compare e password
      else legacy_parts password (split b':' e)

  unfoldable pub verify_password : User → Text → Bool
  unfolding verify_password_hash constant_time_string_equal
  verify_password u password =
      if not (is_empty (trim_space u.password_hash))
      then verify_password_hash password u.password_hash
      else if not (is_empty u.password)
      then constant_time_string_equal password u.password
      else false

  -- The characters behind the first may also be a dot, a dash or an underscore.
  unfoldable pub valid_rest : Text → Bool
  valid_rest [] = true
  valid_rest (r ∷ s) =
      (c.is_letter r || c.is_digit r || r == b'.' || r == b'-' || r == b'_') && valid_rest s

  abbrev valid_characters : Text → Bool
  valid_characters [] = true
  valid_characters (r ∷ s) = (c.is_letter r || c.is_digit r) && valid_rest s

  unfoldable pub validate_username : Text → Bool
  unfolding valid_rest
  validate_username name =
      let n = trim_space name in not (ltb (length n) 3 || ltb 32 (length n)) && valid_characters n

  -- `principalActive` over the users of the file, in their order; `[]` also where there is no file.
  unfoldable pub active_among : List User → Principal → Bool
  active_among [] p = false
  active_among (u ∷ us) p =
      let rest = active_among us p in
      if same_login_name p.username u.username
      then elim (normalize_role u.role) [
        | none ↦ false
        | some role ↦
            text_eq p.role (role_text role)
            && p.session_version == normalized_session_version u.session_version
      ]
      else rest

  unfoldable pub principal_active : Option (List User) → Principal → Bool
  unfolding active_among
  principal_active none p = false
  principal_active (some []) p =
      same_login_name p.username (codes "admin")
      && text_eq p.role (role_text admin)
      && p.session_version == 1
  principal_active (some (u ∷ us)) p = active_among (u ∷ us) p

  -- `authenticateConfiguredUser`, without the upgrade of an old hash: the first user of the name decides.
  unfoldable pub authenticate_user : List User → Text → Text → Option Principal
  authenticate_user [] username password = none
  authenticate_user (u ∷ us) username password =
      let rest = authenticate_user us username password in
      if same_login_name (trim_space username) u.username
      then elim (normalize_role u.role) [
        | none ↦ none
        | some role ↦
            if verify_password u password
            then some (record {
              username = trim_space u.username;
              role = role_text role;
              session_version = normalized_session_version u.session_version;
            })
            else none
      ]
      else rest

  unfoldable pub authenticate_login : Text → List User → Text → Text → Option Principal
  unfolding authenticate_user constant_time_string_equal
  authenticate_login admin_password [] username password =
      if is_empty password || not (same_login_name username (codes "admin"))
      then none
      else if constant_time_string_equal password admin_password
      then some default_principal
      else none
  authenticate_login admin_password (u ∷ us) username password =
      if is_empty password then none else authenticate_user (u ∷ us) username password
