-- ===== src/Auth/Session.antt =====
-- internal/web/auth.go: the session token: `newSessionToken`, `sessionPrincipal` and their helpers.
-- A time is in seconds since 1970, as in the token. What the standard library does with bytes is a
-- parameter: HMAC-SHA256, base64, the JSON of the payload, and the parse of the old token's text.
use emby_migrator.Prelude.{
  ℕ, ◌+◌, ◌≡◌, Bool, ◌||◌, Option, none, some, List, [], ◌∷◌, ◌++◌, Text, text_eq, leb, ◌==◌,
  if◌then◌else◌,
}
use emby_migrator.Prelude.Strings.{trim_space, is_empty, split}
use emby_migrator.Prelude.SplitLemmas.{Lacks}
use emby_migrator.Auth.Roles.{role_text, normalize_role, Principal, default_principal}

-- `sessionPayload`; an expiry or a session version that is negative counts as 0, which the code treats
-- alike.
pub record Payload : Type 0 where
  pub expires : ℕ
  pub nonce : Text
  pub username : Text
  pub role : Text
  pub session_version : ℕ

pub record Codec : Type 0 where
  pub hmac : Text → Text → Text
  pub encode : Text → Text
  pub decode : Text → Option Text
  pub marshal : Payload → Text
  pub unmarshal : Text → Option Payload
  -- The expiry of a token of the old form, `expires ":" nonce`.
  pub legacy_expires : Text → Option ℕ

-- What they are documented to do: the text of a payload, which begins with a brace, is no old token;
-- decoding undoes encoding, whose text has no dot.
pub record IsLawful (c : Codec) : Type 0 where
  pub decode_encode : (t : Text) → c.decode (c.encode t) ≡ some t
  pub dotless : (t : Text) → Lacks b'.' (c.encode t)
  pub unmarshal_marshal : (p : Payload) → c.unmarshal (c.marshal p) ≡ some p
  pub legacy_marshal : (p : Payload) → c.legacy_expires (c.marshal p) ≡ none

-- 12 hours
abbrev pub session_seconds : ℕ
session_seconds = 43200

module _ (c : Codec) where
  -- `nonce` is the hexadecimal text of the random bytes.
  unfoldable pub new_session_token : Text → ℕ → Text → Principal → Text
  new_session_token secret now nonce principal =
      let blank =
        is_empty (trim_space principal.username) || is_empty (trim_space principal.role) in
      let p = if blank then default_principal else principal in
      let payload = c.marshal (record {
        expires = now + session_seconds;
        nonce = nonce;
        username = p.username;
        role = p.role;
        session_version = if p.session_version == 0 then 1 else p.session_version;
      }) in
      c.encode payload ++ b'.' ∷ c.encode (c.hmac secret payload)

  unfoldable pub session_payload_principal : ℕ → Text → Option Principal
  session_payload_principal now bytes = elim (c.unmarshal bytes) [
    | none ↦ none
    | some p ↦ if p.expires == 0 || leb p.expires now then none else elim (normalize_role p.role) [
      | none ↦ none
      | some role ↦
          if is_empty (trim_space p.username)
          then none
          else some (record {
            username = trim_space p.username;
            role = role_text role;
            session_version = if p.session_version == 0 then 1 else p.session_version;
          })
    ]
  ]

  unfoldable pub legacy_session_principal : Bool → ℕ → Text → Option Principal
  legacy_session_principal users_config_exists now bytes =
      if users_config_exists then none else elim (c.legacy_expires bytes) [
        | none ↦ none
        | some expires ↦ if leb expires now then none else some default_principal
      ]

  -- The part of `sessionPrincipal` after the signature has been found right; `active` is
  -- `principalActive`.
  unfoldable pub signed_principal : (Principal → Bool) → Bool → ℕ → Text → Option Principal
  unfolding session_payload_principal legacy_session_principal
  signed_principal active users_config_exists now bytes =
      elim (session_payload_principal now bytes) [
        | none ↦ legacy_session_principal users_config_exists now bytes
        | some p ↦ if active p then some p else none
      ]

  unfoldable pub check_parts : Text → (Principal → Bool) → Bool → ℕ → List Text → Option Principal
  unfolding signed_principal
  check_parts secret active users_config_exists now (a ∷ b ∷ []) = elim (c.decode a) [
    | none ↦ none
    | some bytes ↦ elim (c.decode b) [
      | none ↦ none
      | some signature ↦
          if text_eq signature (c.hmac secret bytes)
          then signed_principal active users_config_exists now bytes
          else none
    ]
  ]
  check_parts secret active users_config_exists now _ = none

  -- `sessionPrincipal` for the cookie's value; an absent cookie is the empty text.
  unfoldable pub session_principal : Text → (Principal → Bool) → Bool → ℕ → Text → Option Principal
  unfolding check_parts
  session_principal secret active users_config_exists now cookie =
      if is_empty cookie
      then none
      else check_parts secret active users_config_exists now (split b'.' cookie)
