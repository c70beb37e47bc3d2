-- ===== src/Examples/Auths.antt =====
-- The limiter, sessions and accounts (internal/web/auth.go and users.go) at concrete inputs.
use emby_migrator.Prelude.{
  ℕ, zero, suc, ◌+◌, ◌-◌, ◌≤◌, ◌≡◌, refl, ap, true, false, ◌&&◌, Option, none, some, List, [], ◌∷◌,
  ◌++◌, map, Text, codes, text_eq, is_some, arith, if◌then◌else◌, ltb, leb,
}
use emby_migrator.Prelude.Strings.{
  trim_space, trim_func, trim_left, to_lower, equal_fold, has_prefix, split,
}
use emby_migrator.Prelude.SplitLemmas.{Lacks}
use emby_migrator.Auth.LoginRate.{
  Call, ask, failed, succeeded, step, run, login_blocked, record_login_failure,
  cleanup_login_attempts, count_failure, is_stale, clear_login_failures, no_attempts,
}
use emby_migrator.Auth.Lockout.{five_failures_block, failures_of}
use emby_migrator.Auth.Roles.{operator, normalize_role, role_allows, Principal, pass, require_role}
use emby_migrator.Auth.Session.{
  Payload, Codec, IsLawful, session_seconds, new_session_token, session_principal,
}
use emby_migrator.Auth.Access.{IsPlain, IsSigned, IsAccepted, session_roundtrip, cookie-IsSigned}
use emby_migrator.Auth.Accounts.{
  User, Crypto, principal_active, active_among, validate_username, valid_rest, verify_password,
  verify_password_hash, same_login_name, authenticate_login, authenticate_user,
}
use emby_migrator.Auth.Change.{
  changed, change_current_account, change_among, change_user, find_current,
}
use emby_migrator.Auth.Login.{
  LoginInput, logged_in, admit, handle_auth_login, IsGranted, login_sound,
}
use emby_migrator.Auth.Revocation.{change_revokes}

abbrev key : Text
key = codes "10.0.0.7|ann"

abbrev start : ℕ
start = 1000000000000

abbrev bad_guesses : List Call
bad_guesses =
    failed key (start + 1)
    ∷ failed key (start + 2)
    ∷ ask key (start + 3)
    ∷ succeeded (codes "10.0.0.7|bob")
    ∷ failed key (start + 4)
    ∷ failed key (start + 5)
    ∷ []

blocked_now :
    (login_blocked key (start + 9) (run (failed key start ∷ bad_guesses) no_attempts)).0
    ≡ some 299999999996
unfolding login_blocked run step record_login_failure cleanup_login_attempts count_failure is_stale
    text_eq clear_login_failures
blocked_now = refl

four_of_key : 4 ≤ failures_of key bad_guesses
unfolding text_eq
four_of_key = omega arith

other_key : text_eq key (codes "10.0.0.7|bob") ≡ false
unfolding text_eq
other_key = refl

five_failures_block_example :
    is_some (login_blocked key (start + 9) (run (failed key start ∷ bad_guesses) no_attempts)).0
    ≡ true
five_failures_block_example =
    five_failures_block key start (start + 9) bad_guesses no_attempts (omega arith) refl
      (
        (omega arith, omega arith),
        (
          (omega arith, omega arith),
          (
            (omega arith, omega arith),
            (other_key, ((omega arith, omega arith), ((omega arith, omega arith), tt))),
          ),
        ),
      )
      four_of_key (omega arith) (omega arith)

abbrev ann : Principal
ann = record { username = codes "ann"; role = codes "operator"; session_version = 3 }

ann_passes : require_role true (some ann) operator ≡ pass ann
unfolding require_role normalize_role trim_space trim_func trim_left to_lower text_eq role_allows
ann_passes = refl

-- Texts one after the other, each ended by a zero.
abbrev ended : Text → Text → Text
ended s t = map suc s ++ 0 ∷ t

abbrev read : Text → Text × Text
read [] = ([], [])
read (zero ∷ s) = ([], s)
read (suc c ∷ s) = (c ∷ (read s).0, (read s).1)

read-ended : (s t : Text) → read (ended s t) ≡ (s, t)
read-ended [] t = refl
read-ended (c ∷ s) t = ap (λ (p : Text × Text). (c ∷ p.0, p.1)) (read-ended s t)

abbrev written : Payload → Text
written p = 123 ∷ p.expires ∷ p.session_version ∷ ended p.username (ended p.role p.nonce)

abbrev parsed : Text → Option Payload
parsed (brace ∷ expires ∷ version ∷ s) = some (record {
  expires = expires;
  nonce = (read (read s).1).1;
  username = (read s).0;
  role = (read (read s).1).0;
  session_version = version;
})
parsed _ = none

parsed-written : (p : Payload) → parsed (written p) ≡ some p
parsed-written p =
    rw (read-ended p.username (ended p.role p.nonce)) (rw (read-ended p.role p.nonce) refl)

abbrev up : Text → Text
up = map (λ c. c + 47)

abbrev down : Text → Text
down = map (λ c. c - 47)

down-up : (s : Text) → down (up s) ≡ s
down-up [] = refl
down-up (c ∷ s) = let e : c + 47 - 47 ≡ c = omega arith in rw (e, down-up s) refl

up-Lacks : (s : Text) → Lacks b'.' (up s)
up-Lacks [] = tt
up-Lacks (c ∷ s) = (ground arith, up-Lacks s)

abbrev codec : Codec
codec = record {
  hmac = λ secret t. secret ++ t;
  encode = up;
  decode = λ t. some (down t);
  marshal = written;
  unmarshal = parsed;
  legacy_expires = λ t. none;
}

codec-IsLawful : IsLawful codec
codec-IsLawful = record {
  decode_encode = λ t. ap some (down-up t);
  dotless = up-Lacks;
  unmarshal_marshal = parsed-written;
  legacy_marshal = λ p. refl;
}

ann-IsPlain : IsPlain ann
unfolding trim_space trim_func trim_left normalize_role to_lower text_eq
ann-IsPlain = record {
  named = refl;
  trimmed = refl;
  known = (operator, refl, refl, refl);
  versioned = omega arith;
}

session_roundtrip_example :
    session_principal codec
      (codes "key")
      (λ p. true)
      true
      2000
      (new_session_token codec (codes "key") 1000 (codes "ab") ann)
    ≡ (if ltb 2000 (1000 + session_seconds) then some ann else none)
session_roundtrip_example =
    session_roundtrip codec codec-IsLawful (codes "key") (λ p. true) true 1000 2000 (codes "ab") ann
      ann-IsPlain refl

cookie-IsSigned_example :
    (a b : Text) × (split b'.' (new_session_token codec (codes "key") 1000 (codes "ab") ann)
      ≡ a ∷ b ∷ [])
    × IsSigned codec (codes "key") a b
    × IsAccepted codec (λ p. true) true ann
cookie-IsSigned_example =
    cookie-IsSigned codec (codes "key") (λ p. true) true 2000
      (new_session_token codec (codes "key") 1000 (codes "ab") ann) ann session_roundtrip_example

abbrev crypto : Crypto
crypto = record {
  bcrypt_hash = λ t. some (codes "$2a$" ++ t);
  bcrypt_compare = λ e t. text_eq e (codes "$2a$" ++ t);
  sha256 = λ t. t;
  base64_decode = some;
  hex_decode = some;
  is_letter = λ c. leb b'a' c && leb c b'z';
  is_digit = λ c. leb b'0' c && leb c b'9';
}

abbrev entry : Text → Text → ℕ → User
entry name password version = record {
  username = name;
  password = [];
  password_hash = codes "$2a$" ++ password;
  role = codes "operator";
  session_version = version;
}

abbrev before : List User
before = entry (codes "ann") (codes "old-pass") 3 ∷ entry (codes "bob") (codes "secret-b") 1 ∷ []

abbrev after : List User
after = entry (codes "ann") (codes "new-pass") 4 ∷ entry (codes "bob") (codes "secret-b") 1 ∷ []

ann_active : principal_active crypto (some before) ann ≡ true
unfolding principal_active active_among same_login_name equal_fold normalize_role trim_space
    trim_func trim_left to_lower text_eq
ann_active = refl

ann_changes :
    change_current_account crypto [] true
      (some before)
      ann.username
      (codes "old-pass")
      (codes "ann")
      (codes "new-pass")
    ≡ changed (codes "ann") after
unfolding change_current_account change_among change_user find_current validate_username valid_rest
    verify_password verify_password_hash same_login_name equal_fold has_prefix trim_space trim_func
    trim_left to_lower text_eq
ann_changes = refl

bob_differs : same_login_name (codes "ann") (codes "bob") ≡ false
unfolding same_login_name equal_fold trim_space trim_func trim_left to_lower text_eq
bob_differs = refl

change_revokes_example : principal_active crypto (some after) ann ≡ false
change_revokes_example =
    change_revokes crypto [] true before after ann (codes "old-pass") (codes "ann")
      (codes "new-pass") (codes "ann") (λ e. (bob_differs, tt), (λ e. tt, tt)) ann_active
      ann_changes

abbrev ann_logs_in : LoginInput
ann_logs_in = record {
  auth_enabled = true;
  admin_password = codes "admin-pw";
  secret = codes "key";
  users = some before;
  request = some (codes "ann", codes "old-pass");
  rate_key = key;
  now = start;
  failed_at = start;
  issued_at = 1000;
  nonce = some (codes "ab");
}

ann_gets_in :
    (handle_auth_login codec crypto ann_logs_in no_attempts).0
    ≡ logged_in ann (new_session_token codec (codes "key") 1000 (codes "ab") ann)
unfolding handle_auth_login admit authenticate_login authenticate_user verify_password
    verify_password_hash same_login_name equal_fold has_prefix normalize_role login_blocked
    cleanup_login_attempts is_stale trim_space trim_func trim_left to_lower text_eq
ann_gets_in = refl

login_sound_example :
    IsGranted codec crypto ann_logs_in no_attempts ann
    × ((handle_auth_login codec crypto ann_logs_in no_attempts).1.attempts key ≡ none)
login_sound_example =
    login_sound codec crypto ann_logs_in no_attempts ann
      (new_session_token codec (codes "key") 1000 (codes "ab") ann) ann_gets_in
