-- ===== src/Auth/Login.antt =====
-- internal/web/auth.go: `handleAuthLogin`, the limiter and the check of the password put together.
use emby_migrator.Prelude.{
  ℕ, ◌≡◌, ap, ◌∙◌, Bool, Option, none, some, List, Text, text_eq_refl, if◌then◌else◌, Option-cases,
  option_cases, if_cases, inl, inr, arith,
}
use emby_migrator.Auth.LoginRate.{
  Limiter, login_blocked, record_login_failure, clear_login_failures, retry_after_seconds,
}
use emby_migrator.Auth.Roles.{Principal, default_principal}
use emby_migrator.Auth.Session.{Codec, new_session_token}
use emby_migrator.Auth.Accounts.{User, Crypto, authenticate_login}
use emby_migrator.Auth.Right.{IsRight, authenticate_login-IsRight}

-- What the handler answers: the response's status, with what it carries.
pub data LoginAnswer : Type 0 where
  open_to_all : Principal → LoginAnswer
  bad_request invalid internal_error : LoginAnswer
  rate_limited : ℕ → LoginAnswer
  logged_in : Principal → Text → LoginAnswer

-- What the handler reads: the configuration, the users that `loadUsersConfig` answers, the request's
-- name and password where its body is well-formed, its key, three readings of the clock, and the random
-- text of the token.
pub record LoginInput : Type 0 where
  pub auth_enabled : Bool
  pub admin_password : Text
  pub secret : Text
  pub users : Option (List User)
  pub request : Option (Text × Text)
  pub rate_key : Text
  pub now : ℕ
  pub failed_at : ℕ
  pub issued_at : ℕ
  pub nonce : Option Text

module _ (c : Codec) (k : Crypto) where
  -- After the password has been found wrong.
  unfoldable pub reject : LoginInput → Limiter → LoginAnswer × Limiter
  reject i s =
      let (left, s') = record_login_failure i.rate_key i.failed_at s in
      (elim left [ none ↦ invalid | some l ↦ rate_limited (retry_after_seconds l) ], s')

  -- After it has been found right.
  unfoldable pub admit : LoginInput → Principal → Limiter → LoginAnswer × Limiter
  admit i p s = (
    elim i.nonce [
      | none ↦ internal_error
      | some n ↦ logged_in p (new_session_token c i.secret i.issued_at n p)
    ],
    clear_login_failures i.rate_key s,
  )

  -- A request whose key is not blocked.
  unfoldable pub try_password : LoginInput → Text → Text → Limiter → LoginAnswer × Limiter
  unfolding reject admit
  try_password i username password s = elim i.users [
    | none ↦ (internal_error, s)
    | some us ↦ elim (authenticate_login k i.admin_password us username password) [
      | none ↦ reject i s
      | some p ↦ admit i p s
    ]
  ]

  unfoldable pub handle_auth_login : LoginInput → Limiter → LoginAnswer × Limiter
  unfolding try_password
  handle_auth_login i s =
      if i.auth_enabled
      then elim i.request [
        | none ↦ (bad_request, s)
        | some (username, password) ↦
            (let (left, s') = login_blocked i.rate_key i.now s in
              elim left [
                | none ↦ try_password i username password s'
                | some l ↦ (rate_limited (retry_after_seconds l), s')
              ])
      ]
      else (open_to_all default_principal, s)

  -- Why a login was granted: the key was not blocked, and the name and password are those of the
  -- principal.
  pub record IsGranted (i : LoginInput) (s : Limiter) (p : Principal) : Type 0 where
    pub free : (login_blocked i.rate_key i.now s).0 ≡ none
    pub right :
        (us : List User) × (username : Text) × (password : Text) × (i.users ≡ some us)
        × (i.request ≡ some (username, password))
        × IsRight k i.admin_password us username password p

  admit_clears :
      (i : LoginInput) (p : Principal) (s : Limiter) → (admit i p s).1.attempts i.rate_key ≡ none
  unfolding admit clear_login_failures
  admit_clears i p s = ground (arith, text_eq_refl i.rate_key)

  reject-logged_in :
      (i : LoginInput) (s : Limiter) (p : Principal) (token : Text)
      → (reject i s).0 ≡ logged_in p token
      → ⊥
  unfolding reject
  reject-logged_in i s p token h =
      elim (Option-cases (record_login_failure i.rate_key i.failed_at s).0) [
        | inl e ↦ absurd (ground arith)
        | inr (l, e) ↦ absurd (ground arith)
      ]

  admit-logged_in :
      (i : LoginInput) (q p : Principal) (s : Limiter) (token : Text)
      → (admit i q s).0 ≡ logged_in p token
      → q ≡ p
  unfolding admit
  admit-logged_in i q p s token h = elim (Option-cases i.nonce) [
    | inl e ↦ absurd (ground arith)
    | inr (n, e) ↦ ground arith
  ]

  abbrev IsSound : LoginInput → Limiter → Principal → Text → LoginAnswer × Limiter → Type 0
  IsSound i s p token r =
      r.0 ≡ logged_in p token → IsGranted i s p × (r.1.attempts i.rate_key ≡ none)

  try_password-IsSound :
      (i : LoginInput) (s s' : Limiter) (p : Principal) (token username password : Text)
      → (login_blocked i.rate_key i.now s).0 ≡ none
      → i.request ≡ some (username, password)
      → IsSound i s p token (try_password i username password s')
  unfolding try_password
  try_password-IsSound i s s' p token username password free sent =
      option_cases (IsSound i s p token) i.users (internal_error, s') _ (λ _ h. cc)
        (λ us e.
          option_cases (IsSound i s p token)
            (authenticate_login k i.admin_password us username password) _ _
            (λ _ h. absurd (reject-logged_in i s' p token h))
            (λ q f h. (
              record {
                free = free;
                right = (
                  us,
                  username,
                  password,
                  e,
                  sent,
                  authenticate_login-IsRight k i.admin_password us username password p
                      (f ∙ ap some (admit-logged_in i q p s' token h)),
                );
              },
              admit_clears i q s',
            )))

  -- A login hands out a token only if the key was not blocked, and the password that was sent is not empty
  -- and is right. With users, that is the first one of the name, who has a role, is the principal, and whose
  -- hash, or password where there is no hash, agrees with what was sent. Without any, the name is that of
  -- the admin, and the password has the digest of the server's. And then the key's failures are forgotten.
  pub login_sound :
      (i : LoginInput) (s : Limiter) (p : Principal) (token : Text)
      → (handle_auth_login i s).0 ≡ logged_in p token
      → IsGranted i s p × ((handle_auth_login i s).1.attempts i.rate_key ≡ none)
  unfolding handle_auth_login
  login_sound i s p token =
      let Sound : LoginAnswer × Limiter → Type 0 = IsSound i s p token in
      if_cases Sound i.auth_enabled _ (open_to_all default_principal, s)
        (λ _.
          option_cases Sound i.request (bad_request, s) _ (λ _ h. cc)
            (λ (username, password) e.
              option_cases Sound (login_blocked i.rate_key i.now s).0 _ _
                (λ free.
                  try_password-IsSound i s (login_blocked i.rate_key i.now s).1 p token username
                    password free e)
                (λ l f h. cc)))
        (λ _ h. cc)
