-- ===== src/Auth/Right.antt =====
-- internal/web/users.go: what it means that a name and a password are right.
use emby_migrator.Prelude.{
  ◌≡◌, ◌⊎◌, inl, inr, refl, sym, ap, ◌∙◌, true, false, not, ◌&&◌, ◌||◌, some, List, [], ◌∷◌, ◌++◌,
  Text, codes, text_eq, text_eq→eq, Bool-cases, if_cases, option_cases, arith,
}
use emby_migrator.Prelude.Result.{some_injective}
use emby_migrator.Prelude.Strings.{trim_space, has_prefix, is_empty, split}
use emby_migrator.Auth.Roles.{Role, role_text, normalize_role, Principal, default_principal}
use emby_migrator.Prelude.Bits.{bit_or-zero, bit_xor-zero}
use Prim.Native.Nat.{bit_or, bit_xor}
use emby_migrator.Prelude.{ℕ, length, ◌==◌}
use emby_migrator.Auth.Accounts.{
  diff_from, User, Crypto, normalized_session_version, same_login_name, subtle_hash_equal,
  constant_time_string_equal, legacy_parts, verify_password_hash, verify_password,
  authenticate_user, authenticate_login,
}

diff_from-zero :
    (s t : Text) (d : ℕ) → length s ≡ length t → diff_from d s t ≡ 0 → (d ≡ 0) × (s ≡ t)
diff_from-zero [] [] d l e = (e, refl)
diff_from-zero [] (b ∷ t) d l e = absurd (omega arith)
diff_from-zero (a ∷ s) [] d l e = absurd (omega arith)
diff_from-zero (a ∷ s) (b ∷ t) d l e =
    let (both, rest) = diff_from-zero s t (bit_or d (bit_xor a b)) (omega arith) e in
    let (old, same) = bit_or-zero d (bit_xor a b) both in
    let heads = bit_xor-zero a b same in (old, cc)

-- The comparison in constant time accepts only two hashes that are the same.
subtle_hash_equal-eq : (s t : Text) → subtle_hash_equal s t ≡ true → s ≡ t
unfolding subtle_hash_equal
subtle_hash_equal-eq s t =
    if_cases (λ b. b ≡ true → s ≡ t) (length s == length t) _ _
      (λ l e. (diff_from-zero s t 0 (ground (arith, l)) (ground (arith, e))).1)
      (λ _ (e : false ≡ true). absurd (cc))

module _ (c : Crypto) where
  -- The hash is bcrypt's, which accepts the password; or it is of the old form, and its sum is that of the
  -- salt with the password.
  abbrev pub IsHashOf : Text → Text → Type 0
  IsHashOf password hash =
      ((has_prefix hash (codes "$2") ≡ true) × (c.bcrypt_compare hash password ≡ true))
      ⊎ ((salt : Text) × (sum : Text) × (bytes : Text) × (want : Text) × (split b':' hash
            ≡ codes "sha256" ∷ codes "v1" ∷ salt ∷ sum ∷ [])
          × (c.base64_decode salt ≡ some bytes)
          × (c.hex_decode sum ≡ some want)
          × (c.sha256 (bytes ++ password) ≡ want))

  abbrev pub IsPasswordOf : User → Text → Type 0
  IsPasswordOf u password =
      ((is_empty (trim_space u.password_hash) ≡ false)
        × IsHashOf password (trim_space u.password_hash))
      ⊎ ((is_empty (trim_space u.password_hash) ≡ true)
          × (is_empty u.password ≡ false)
          × (c.sha256 password ≡ c.sha256 u.password))

  -- The first user of the name.
  abbrev pub IsFirst : List User → Text → User → Type 0
  IsFirst [] username u = ⊥
  IsFirst (v ∷ vs) username u =
      ((same_login_name (trim_space username) v.username ≡ true) × (v ≡ u))
      ⊎ ((same_login_name (trim_space username) v.username ≡ false) × IsFirst vs username u)

  abbrev IsUser : List User → Text → Text → Principal → Type 0
  IsUser us username password p =
      (u : User) × (role : Role) × IsFirst us username u
      × (normalize_role u.role ≡ some role)
      × IsPasswordOf u password
      × (p ≡ record {
        username = trim_space u.username;
        role = role_text role;
        session_version = normalized_session_version u.session_version;
      })

  abbrev IsAdmin : Text → Text → Text → Principal → Type 0
  IsAdmin admin_password username password p =
      (same_login_name username (codes "admin") ≡ true)
      × (c.sha256 password ≡ c.sha256 admin_password)
      × (p ≡ default_principal)

  abbrev pub IsRight : Text → List User → Text → Text → Principal → Type 0
  IsRight admin_password [] username password p =
      (is_empty password ≡ false) × IsAdmin admin_password username password p
  IsRight admin_password (u ∷ us) username password p =
      (is_empty password ≡ false) × IsUser (u ∷ us) username password p

  legacy_parts-IsHashOf :
      (password hash : Text) (parts : List Text)
      → split b':' hash ≡ parts
      → legacy_parts c password parts ≡ true
      → IsHashOf password hash
  unfolding legacy_parts
  legacy_parts-IsHashOf password hash (scheme ∷ version ∷ salt ∷ sum ∷ []) are h0 =
      let Goal : Type 0 = IsHashOf password hash in
      if_cases (λ b. b ≡ true → Goal)
        (text_eq scheme (codes "sha256") && text_eq version (codes "v1")) _ _
        (λ form.
          option_cases (λ b. b ≡ true → Goal) (c.base64_decode salt) _ _ (λ _ h. absurd (cc))
            (λ bytes e.
              option_cases (λ b. b ≡ true → Goal) (c.hex_decode sum) _ _ (λ _ h. absurd (cc))
                (λ want f h.
                  let is_scheme = text_eq→eq scheme (codes "sha256") (ground (arith, form)) in
                  let is_version = text_eq→eq version (codes "v1") (ground (arith, form)) in
                  inr (
                    salt,
                    sum,
                    bytes,
                    want,
                    are
                        ∙ ap (λ t. t ∷ version ∷ salt ∷ sum ∷ []) is_scheme
                        ∙ ap (λ t. codes "sha256" ∷ t ∷ salt ∷ sum ∷ []) is_version,
                    e,
                    f,
                    subtle_hash_equal-eq (c.sha256 (bytes ++ password)) want h,
                  ))))
        (λ _ h. absurd (cc)) h0
  legacy_parts-IsHashOf password hash _ are h = absurd (cc)

  verify_password_hash-IsHashOf :
      (password encoded : Text)
      → verify_password_hash c password encoded ≡ true
      → IsHashOf password (trim_space encoded)
  unfolding verify_password_hash
  verify_password_hash-IsHashOf password encoded =
      if_cases (λ b. b ≡ true → IsHashOf password (trim_space encoded))
        (has_prefix (trim_space encoded) (codes "$2")) _ _ (λ e h. inl (e, h))
        (λ _ h. legacy_parts-IsHashOf password (trim_space encoded) _ refl h)

  verify_password-IsPasswordOf :
      (u : User) (password : Text) → verify_password c u password ≡ true → IsPasswordOf u password
  unfolding verify_password constant_time_string_equal
  verify_password-IsPasswordOf u password h =
      elim (Bool-cases (is_empty (trim_space u.password_hash))) [
        | inr e ↦
            inl (e, verify_password_hash-IsHashOf password u.password_hash (ground (arith, h, e)))
        | inl e ↦ inr (
          e,
          ground (arith, h, e),
          text_eq→eq (c.sha256 password) (c.sha256 u.password) (ground (arith, h, e)),
        )
      ]

  authenticate_user-IsUser :
      (us : List User) (username password : Text) (p : Principal)
      → authenticate_user c us username password ≡ some p
      → IsUser us username password p
  unfolding authenticate_user
  authenticate_user-IsUser [] username password p h = absurd (cc)
  authenticate_user-IsUser (u ∷ us) username password p h0 =
      let Goal : Type 0 = IsUser (u ∷ us) username password p in
      if_cases (λ o. o ≡ some p → Goal) (same_login_name (trim_space username) u.username) _ _
        (λ named.
          option_cases (λ o. o ≡ some p → Goal) (normalize_role u.role) _ _ (λ _ h. absurd (cc))
            (λ role e.
              if_cases (λ o. o ≡ some p → Goal) (verify_password c u password) _ _
                (λ v h. (
                  u,
                  role,
                  inl (named, refl),
                  e,
                  verify_password-IsPasswordOf u password v,
                  sym (some_injective h),
                ))
                (λ _ h. absurd (cc))))
        (λ other h.
          let (v, role, first, e, right, same) =
            authenticate_user-IsUser us username password p h in
          (v, role, inr (other, first), e, right, same))
        h0

  pub authenticate_login-IsRight :
      (admin_password : Text) (us : List User) (username password : Text) (p : Principal)
      → authenticate_login c admin_password us username password ≡ some p
      → IsRight admin_password us username password p
  unfolding authenticate_login constant_time_string_equal
  authenticate_login-IsRight admin_password [] username password p h0 =
      if_cases (λ o. o ≡ some p → IsRight admin_password [] username password p)
        (is_empty password || not (same_login_name username (codes "admin"))) _ _
        (λ _ h. absurd (cc))
        (λ b.
          if_cases (λ o. o ≡ some p → IsRight admin_password [] username password p)
            (text_eq (c.sha256 password) (c.sha256 admin_password)) _ _
            (λ e h. (
              ground (arith, b),
              (
                ground (arith, b),
                text_eq→eq (c.sha256 password) (c.sha256 admin_password) e,
                sym (some_injective h),
              ),
            ))
            (λ _ h. absurd (cc)))
        h0
  authenticate_login-IsRight admin_password (u ∷ us) username password p h0 =
      if_cases (λ o. o ≡ some p → IsRight admin_password (u ∷ us) username password p)
        (is_empty password) _ _ (λ _ h. absurd (cc))
        (λ b h. (b, authenticate_user-IsUser (u ∷ us) username password p h)) h0
