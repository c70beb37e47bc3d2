-- ===== src/Auth/Access.antt =====
-- internal/web/auth.go: which requests get through: tokens that were issued, for as long as they
-- last, and no role below the one that a route wants.
use emby_migrator.Prelude.{
  ℕ, ◌+◌, ◌≤◌, ◌<◌, ◌≡◌, ◌⊎◌, inl, inr, refl, sym, ap, Option-cases, ◌∙◌, Bool, true, false, Option,
  none, some, List, [], ◌∷◌, ◌++◌, Text, text_eq→eq, text_eq_refl, ltb, ◌==◌, if◌then◌else◌, arith,
}
use emby_migrator.Prelude.Strings.{trim_space, is_empty, split}
use emby_migrator.Prelude.SplitLemmas.{split_two}
use emby_migrator.Auth.Roles.{
  Role, role_text, rank, normalize_role, Principal, default_principal, pass, require_role,
}
use emby_migrator.Auth.Session.{
  Payload, Codec, IsLawful, session_seconds, new_session_token, session_payload_principal,
  legacy_session_principal, signed_principal, check_parts, session_principal,
}

-- A request gets through a guarded route only with a session whose role has at least the rank that the
-- route wants, or where no password protects the server.
pub require_role_sound :
    (auth_enabled : Bool) (session : Option Principal) (min_role : Role) (p : Principal)
    → require_role auth_enabled session min_role ≡ pass p
    → (auth_enabled ≡ false)
      ⊎ ((session ≡ some p)
          × ((r : Role) × (normalize_role p.role ≡ some r) × (rank min_role ≤ rank r)))
unfolding require_role
require_role_sound false session min_role p h = inl refl
require_role_sound true none min_role p h = cc
require_role_sound true (some q) min_role p h = elim (Option-cases (normalize_role q.role)) [
  | inl e ↦ absurd (ground arith)
  | inr (r, e) ↦
      (let same : q ≡ p = ground arith in
        inr (
          ap some same,
          (r, ap (λ (x : Principal). normalize_role x.role) (sym same) ∙ e, ground arith),
        ))
]

-- A principal as `authenticateLogin` makes them.
pub record IsPlain (p : Principal) : Type 0 where
  pub named : is_empty p.username ≡ false
  pub trimmed : trim_space p.username ≡ p.username
  pub known :
      (r : Role) × (normalize_role p.role ≡ some r)
      × (role_text r ≡ p.role)
      × (is_empty (trim_space p.role) ≡ false)
  pub versioned : 0 < p.session_version

is_empty-append : (s t : Text) (d : ℕ) → is_empty (s ++ d ∷ t) ≡ false
is_empty-append [] t d = refl
is_empty-append (c ∷ s) t d = refl

module _ (c : Codec) (lawful : IsLawful c) where
  abbrev payload_of : ℕ → Text → Principal → Payload
  payload_of now nonce p = record {
    expires = now + session_seconds;
    nonce = nonce;
    username = p.username;
    role = p.role;
    session_version = p.session_version;
  }

  token_of_plain :
      (secret : Text) (now : ℕ) (nonce : Text) (p : Principal)
      → IsPlain p
      → new_session_token c secret now nonce p
        ≡ c.encode (c.marshal (payload_of now nonce p))
          ++ b'.' ∷ c.encode (c.hmac secret (c.marshal (payload_of now nonce p)))
  unfolding new_session_token
  token_of_plain secret now nonce p h =
      let n : is_empty (trim_space p.username) ≡ false = ap is_empty h.trimmed ∙ h.named in
      let v : (p.session_version == 0) ≡ false = ground arith in simp (n, h.known.3, v)

  signed_cookie :
      (secret : Text) (active : Principal → Bool) (users : Bool) (t : ℕ) (bytes : Text)
      → session_principal c secret active users t
          (c.encode bytes ++ b'.' ∷ c.encode (c.hmac secret bytes))
        ≡ signed_principal c active users t bytes
  unfolding session_principal
  signed_cookie secret active users t bytes =
      let mac = c.hmac secret bytes in
      rw
        (
          is_empty-append (c.encode bytes) (c.encode mac) b'.',
          split_two b'.' (c.encode bytes) (c.encode mac) (lawful.dotless bytes)
              (lawful.dotless mac),
        )
        (rw (lawful.decode_encode bytes, check_parts)
          (rw (lawful.decode_encode mac, text_eq_refl mac)))

  issued_payload :
      (now t : ℕ) (nonce : Text) (p : Principal)
      → IsPlain p
      → session_payload_principal c t (c.marshal (payload_of now nonce p))
        ≡ (if ltb t (now + session_seconds) then some p else none)
  unfolding session_payload_principal
  issued_payload now t nonce p h =
      let n : is_empty (trim_space p.username) ≡ false = ap is_empty h.trimmed ∙ h.named in
      rw (lawful.unmarshal_marshal (payload_of now nonce p), session_payload_principal)
        (ground (arith, h.known, n))

  signed_payload :
      (active : Principal → Bool) (users : Bool) (now t : ℕ) (nonce : Text) (p : Principal)
      → IsPlain p
      → active p ≡ true
      → signed_principal c active users t (c.marshal (payload_of now nonce p))
        ≡ (if ltb t (now + session_seconds) then some p else none)
  unfolding signed_principal legacy_session_principal
  signed_payload active users now t nonce p h a =
      ground
        (arith, issued_payload now t nonce p h, lawful.legacy_marshal (payload_of now nonce p), a)

  -- A token that was issued to a principal as the login makes them is accepted, for that principal and
  -- under the same secret, as long as the principal is active, exactly until 12 hours have passed.
  pub session_roundtrip :
      (secret : Text) (active : Principal → Bool) (users : Bool) (now t : ℕ) (nonce : Text)
      (p : Principal)
      → IsPlain p
      → active p ≡ true
      → session_principal c secret active users t (new_session_token c secret now nonce p)
        ≡ (if ltb t (now + session_seconds) then some p else none)
  session_roundtrip secret active users now t nonce p h a =
      rw (token_of_plain secret now nonce p h) (
        signed_cookie secret active users t (c.marshal (payload_of now nonce p))
        ∙ signed_payload active users now t nonce p h a)

module _ (c : Codec) where
  -- The two texts are base64, and the second is the code of the first under the secret.
  abbrev pub IsSigned : Text → Text → Text → Type 0
  IsSigned secret a b =
      (bytes : Text) × (c.decode a ≡ some bytes) × (c.decode b ≡ some (c.hmac secret bytes))

  abbrev pub IsAccepted : (Principal → Bool) → Bool → Principal → Type 0
  IsAccepted active users p = (active p ≡ true) ⊎ ((users ≡ false) × (p ≡ default_principal))

  signed-IsAccepted :
      (active : Principal → Bool) (users : Bool) (t : ℕ) (bytes : Text) (p : Principal)
      → signed_principal c active users t bytes ≡ some p
      → IsAccepted active users p
  unfolding signed_principal legacy_session_principal
  signed-IsAccepted active users t bytes p h =
      elim (Option-cases (session_payload_principal c t bytes)) [
        | inl e ↦ inr (ground arith, ground arith)
        | inr (q, e) ↦
            (let same : q ≡ p = ground arith in inl (ap active (sym same) ∙ ground arith))
      ]

  parts-IsSigned :
      (secret : Text) (active : Principal → Bool) (users : Bool) (t : ℕ) (parts : List Text)
      (p : Principal)
      → check_parts c secret active users t parts ≡ some p
      → (a b : Text) × (parts ≡ a ∷ b ∷ []) × IsSigned secret a b × IsAccepted active users p
  unfolding check_parts
  parts-IsSigned secret active users t [] p h = cc
  parts-IsSigned secret active users t (a ∷ []) p h = cc
  parts-IsSigned secret active users t (a ∷ b ∷ d ∷ ds) p h = cc
  parts-IsSigned secret active users t (a ∷ b ∷ []) p h = elim (Option-cases (c.decode a)) [
    | inl e ↦ absurd (ground arith)
    | inr (bytes, e) ↦ elim (Option-cases (c.decode b)) [
      | inl f ↦ absurd (ground arith)
      | inr (sig, f) ↦
          (let same : sig ≡ c.hmac secret bytes =
              text_eq→eq sig (c.hmac secret bytes) (ground arith) in
            (
              a,
              b,
              refl,
              (bytes, e, f ∙ ap some same),
              signed-IsAccepted active users t bytes p (ground arith),
            ))
    ]
  ]

  -- A cookie is accepted only if it has two parts, the second of which is the code, under the server's
  -- secret, of what the first holds; and only for an active principal, or, while there is no file of
  -- users, for the default administrator.
  pub cookie-IsSigned :
      (secret : Text) (active : Principal → Bool) (users : Bool) (t : ℕ) (cookie : Text)
      (p : Principal)
      → session_principal c secret active users t cookie ≡ some p
      → (a b : Text) × (split b'.' cookie ≡ a ∷ b ∷ [])
        × IsSigned secret a b
        × IsAccepted active users p
  unfolding session_principal
  cookie-IsSigned secret active users t cookie p h =
      parts-IsSigned secret active users t (split b'.' cookie) p (ground arith)
