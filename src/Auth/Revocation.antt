-- ===== src/Auth/Revocation.antt =====
-- internal/web/users.go: a change of an account ends the sessions that were issued before it.
use emby_migrator.Prelude.{
  ℕ, zero, suc, ◌+◌, ◌≡◌, refl, ◌∙◌, ap, inl, inr, Bool, true, false, some, List, [], ◌∷◌, Text,
  All, get_elem?, set, if◌then◌else◌, arith, Bool-cases, Option-cases,
}
use emby_migrator.Prelude.Strings.{trim_space, is_empty}
use emby_migrator.Auth.Roles.{role_text, admin, Principal}
use emby_migrator.Auth.Accounts.{
  User, Crypto, normalized_session_version, same_login_name, active_among, principal_active,
}
use emby_migrator.Auth.Change.{
  changed, find_current, change_first, change_user, change_among, change_current_account,
}

-- No two users of the list have the name.
abbrev pub OneMatch : Text → List User → Type 0
OneMatch n [] = Unit
OneMatch n (u ∷ us) =
    (same_login_name n u.username ≡ true → All (λ v. same_login_name n v.username ≡ false) us)
    × OneMatch n us

-- The user that the first change writes.
abbrev first_user : Text → Text → User
first_user name hash = record {
  username = name;
  password = [];
  password_hash = hash;
  role = role_text admin;
  session_version = 2;
}

module _ (c : Crypto) where
  active_among_none :
      (us : List User) (p : Principal)
      → All (λ v. same_login_name p.username v.username ≡ false) us
      → active_among c us p ≡ false
  unfolding active_among
  active_among_none [] p h = refl
  active_among_none (u ∷ us) p h = ground (arith, active_among_none us p h.1)

  find_current_none :
      (n new : Text) (us : List User) (i : ℕ)
      → All (λ v. same_login_name n v.username ≡ false) us
      → find_current c n new us ≡ some (some i)
      → ⊥
  unfolding find_current
  find_current_none n new [] i h e = cc
  find_current_none n new (u ∷ us) i h e = elim (Option-cases (find_current c n new us)) [
    | inl k ↦ ground arith
    | inr (o, k) ↦ elim (Option-cases o) [
      | inl l ↦ ground arith
      | inr (j, l) ↦ find_current_none n new us j h.1 (k ∙ ap some l)
    ]
  ]

  -- The new entry is not the old one's session.
  active_among_changed :
      (us : List User) (p : Principal) (new : Text) (i : ℕ) (u v : User)
      → OneMatch p.username us
      → find_current c p.username new us ≡ some (some i)
      → get_elem? us i ≡ some u
      → v.session_version ≡ normalized_session_version u.session_version + 1
      → active_among c us p ≡ true
      → active_among c (set us i v) p ≡ false
  unfolding active_among find_current
  active_among_changed [] p new i u v one found at next act = cc
  active_among_changed (x ∷ xs) p new zero u v one found at next act =
      let here : same_login_name p.username x.username ≡ true = ground (arith) in
      let same : x ≡ u = ground arith in
      ground (arith, active_among_none xs p (one.0 here), ap (λ (w : User). w.session_version) same)
  active_among_changed (x ∷ xs) p new (suc i) u v one found at next act =
      let rest : find_current c p.username new xs ≡ some (some i) = ground arith in
      elim (Bool-cases (same_login_name p.username x.username)) [
        | inl here ↦ absurd (find_current_none p.username new xs i (one.0 here) rest)
        | inr other ↦
            ground (arith, active_among_changed xs p new i u v one.1 rest at next (ground arith))
      ]

  change_user-eq_changed :
      (save : Bool) (us : List User) (i : ℕ) (u : User) (current new_name new_password name : Text)
      (us' : List User)
      → change_user c save us i u current new_name new_password ≡ changed name us'
      → (v : User) × (us' ≡ set us i v)
        × (v.session_version ≡ normalized_session_version u.session_version + 1)
  unfolding change_user
  change_user-eq_changed save us i u current new_name new_password name us' h =
      elim (Bool-cases (is_empty new_password)) [
        | inl e ↦ (
          record u {
            username = new_name;
            session_version = normalized_session_version u.session_version + 1;
          },
          ground arith,
          refl,
        )
        | inr e ↦ elim (Option-cases (c.bcrypt_hash new_password)) [
          | inl k ↦ absurd (ground arith)
          | inr (hash, k) ↦ (
            record u {
              username = new_name;
              password = [];
              password_hash = hash;
              session_version = normalized_session_version u.session_version + 1;
            },
            ground arith,
            refl,
          )
        ]
      ]

  principal_active-set :
      (x : User) (xs : List User) (i : ℕ) (v : User) (p : Principal)
      → principal_active c (some (set (x ∷ xs) i v)) p ≡ active_among c (set (x ∷ xs) i v) p
  unfolding principal_active
  principal_active-set x xs zero v p = refl
  principal_active-set x xs (suc i) v p = refl

  change_among-active :
      (save : Bool) (x : User) (xs : List User) (p : Principal)
      (current new_name new_password name : Text) (us' : List User)
      → OneMatch p.username (x ∷ xs)
      → active_among c (x ∷ xs) p ≡ true
      → change_among c save (x ∷ xs) p.username current new_name new_password ≡ changed name us'
      → principal_active c (some us') p ≡ false
  unfolding change_among
  change_among-active save x xs p current new_name new_password name us' one act h =
      elim (Option-cases (find_current c p.username new_name (x ∷ xs))) [
        | inl e ↦ absurd (ground arith)
        | inr (o, e) ↦ elim (Option-cases o) [
          | inl f ↦ absurd (ground arith)
          | inr (i, f) ↦ elim (Option-cases (get_elem? (x ∷ xs) i)) [
            | inl g ↦ absurd (ground arith)
            | inr (u, g) ↦
                (let (v, same, next) =
                    change_user-eq_changed save (x ∷ xs) i u current new_name new_password name us'
                      (ground arith) in
                  ap (λ ws. principal_active c (some ws) p) same
                  ∙ principal_active-set x xs i v p
                  ∙ active_among_changed (x ∷ xs) p new_name i u v one (e ∙ ap some f) g next act)
          ]
        ]
      ]

  change_first-active :
      (admin_password : Text) (save : Bool) (p : Principal)
      (current new_name new_password name : Text) (us' : List User)
      → p.session_version ≡ 1
      → change_first c admin_password save p.username current new_name new_password
        ≡ changed name us'
      → principal_active c (some us') p ≡ false
  unfolding change_first principal_active active_among
  change_first-active admin_password save p current new_name new_password name us' v h =
      elim (Option-cases
        (c.bcrypt_hash (if is_empty new_password then current else new_password))) [
          | inl e ↦ absurd (ground arith)
          | inr (hash, e) ↦
              (let same : us' ≡ first_user new_name hash ∷ [] = ground arith in
                ap (λ ws. principal_active c (some ws) p) same ∙ ground arith)
        ]

  -- When the owner of a session changes the account's name or password, that session is over: a
  -- principal that was active, whom the file names at most once, is not active by the new file. So too
  -- for the administrator of a server that had no file of users.
  pub change_revokes :
      (admin_password : Text) (save : Bool) (us us' : List User) (p : Principal)
      (current new_username new_password name : Text)
      → OneMatch p.username us
      → principal_active c (some us) p ≡ true
      → change_current_account c admin_password save
          (some us)
          p.username
          current
          new_username
          new_password
        ≡ changed name us'
      → principal_active c (some us') p ≡ false
  unfolding change_current_account principal_active
  change_revokes admin_password save [] us' p current new_username new_password name one act h =
      change_first-active admin_password save p current (trim_space new_username) new_password name
        us' (ground arith) (ground arith)
  change_revokes admin_password save (u ∷ us) us' p current new_username new_password name one act
        h =
      change_among-active save u us p current (trim_space new_username) new_password name us' one
        act (ground arith)
