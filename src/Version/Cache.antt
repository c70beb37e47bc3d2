-- ===== src/Version/Cache.antt =====
-- internal/web/version_check.go: `fetchLatestVersion` and the cache in `checkLatestVersion`.
-- Times are nanoseconds since Go's zero time. What GitHub answers is an argument.
use emby_migrator.Prelude.{
  ℕ, ◌+◌, ◌<◌, ◌≡◌, ◌⊎◌, inl, inr, refl, subst, ◌∙◌, Bool, true, false, not, ◌||◌, Option, none,
  some, List, [], ◌∷◌, Text, ltb, ◌==◌, if◌then◌else◌, arith, Bool-cases,
}
use emby_migrator.Prelude.Int.{is_nonpos}
use emby_migrator.Prelude.Strings.{trim_space, is_empty}
use emby_migrator.Version.Numbers.{normalize_version_label, compare_version_numbers}

-- One hour, and a quarter of one.
abbrev pub version_check_success_ttl : ℕ
version_check_success_ttl = 3600000000000

abbrev pub version_check_failure_ttl : ℕ
version_check_failure_ttl = 900000000000

-- `githubLatestRelease`
pub record Release : Type 0 where
  pub tag_name : Text
  pub html_url : Text
  pub draft : Bool
  pub prerelease : Bool

-- `versionCheckResponse`; a time that is left out is 0.
pub record Response : Type 0 where
  pub checked : Bool
  pub current_version : Text
  pub latest_version : Text
  pub update_available : Bool
  pub release_url : Text
  pub checked_at : ℕ

-- What the API answers: a status with the body's release, if it is one; `none`: no answer.
unfoldable pub fetch_latest_release_api : Option (ℕ × Option Release) → Option Release
fetch_latest_release_api none = none
fetch_latest_release_api (some (status, none)) = none
fetch_latest_release_api (some (status, some r)) =
    if not (status == 200)
    then none
    else if r.draft || r.prerelease || is_empty (trim_space r.tag_name)
    then none
    else some r

-- The response and whether there was no error; `redirect` is what `fetchLatestReleaseRedirect` answers.
unfoldable pub fetch_latest_version :
    Text → ℕ → Option (ℕ × Option Release) → Option Release → Response × Bool
unfolding fetch_latest_release_api
fetch_latest_version current now api redirect =
    let result : Response = record {
      checked = false;
      current_version = trim_space current;
      latest_version = [];
      update_available = false;
      release_url = [];
      checked_at = now;
    } in
    let release : Option Release = elim (fetch_latest_release_api api) [
      | none ↦ redirect
      | some r ↦ some r
    ] in
    elim release [
      | none ↦ (record result { checked_at = 0 }, false)
      | some r ↦ (
        record result {
          checked = true;
          latest_version = normalize_version_label r.tag_name;
          release_url = trim_space r.html_url;
          update_available = not (
              is_nonpos (
                compare_version_numbers (normalize_version_label r.tag_name) (trim_space current)));
        },
        true,
      )
    ]

-- `versionCheckCache`
pub record Cache : Type 0 where
  pub expires_at : ℕ
  pub result : Response

-- The first look of `checkLatestVersion`, at the time `now`.
unfoldable pub look : ℕ → Cache → Option Response
look now c = if ltb now c.expires_at then some c.result else none

-- Its end after a fetch: `now` is still the time of the look.
unfoldable pub store : ℕ → Response → Bool → Cache → Response × Cache
store now result ok c = if ltb now c.expires_at then (c.result, c) else (
  result,
  record {
    expires_at = if ok then now + version_check_success_ttl else now + version_check_failure_ttl;
    result = result;
  },
)

-- A request that looked at a time, found nothing, and fetched.
pub record Fetch : Type 0 where
  pub looked_at : ℕ
  pub response : Response
  pub ok : Bool

-- The ends of requests, in the order in which they take the lock.
unfoldable pub stored : List Fetch → Cache → Cache
unfolding store
stored [] c = c
stored (f ∷ fs) c = stored fs (store f.looked_at f.response f.ok c).1

-- One of the fetches gave the response, to a request that looked less than its time to live ago.
abbrev pub IsRecent : ℕ → Response → Fetch → Type 0
IsRecent now r f =
    (r ≡ f.response)
    × (now < f.looked_at + (if f.ok then version_check_success_ttl else version_check_failure_ttl))

abbrev pub Some : (Fetch → Type 0) → List Fetch → Type 0
Some P [] = ⊥
Some P (f ∷ fs) = P f ⊎ Some P fs

store-IsRecent :
    (f : Fetch) (c : Cache) (now : ℕ)
    → now < (store f.looked_at f.response f.ok c).1.expires_at
    → ((now < c.expires_at) × ((store f.looked_at f.response f.ok c).1.result ≡ c.result))
      ⊎ IsRecent now (store f.looked_at f.response f.ok c).1.result f
unfolding store
store-IsRecent f c now h = elim (Bool-cases (ltb f.looked_at c.expires_at)) [
  | inl b ↦ inl (ground arith, ground arith)
  | inr b ↦ inr (ground arith, ground arith)
]

stored-IsRecent :
    (fs : List Fetch) (c : Cache) (now : ℕ)
    → now < (stored fs c).expires_at
    → ((now < c.expires_at) × ((stored fs c).result ≡ c.result))
      ⊎ Some (IsRecent now (stored fs c).result) fs
unfolding stored
stored-IsRecent [] c now h = inl (h, refl)
stored-IsRecent (f ∷ fs) c now h =
    elim (stored-IsRecent fs (store f.looked_at f.response f.ok c).1 now h) [
      | inr k ↦ inr (inr k)
      | inl (k, e) ↦ elim (store-IsRecent f c now k) [
        | inl (a, d) ↦ inl (a, e ∙ d)
        | inr (d, a) ↦ inr (inl (e ∙ d, a))
      ]
    ]

abbrev pub empty_cache : Response → Cache
empty_cache r = record { expires_at = 0; result = r }

-- However the requests overtake each other: an answer that is taken from the cache is one that a
-- request has fetched after a look less than an hour before (a quarter of one where that fetch failed).
pub look-IsRecent :
    (fs : List Fetch) (zero_value : Response) (now : ℕ) (r : Response)
    → look now (stored fs (empty_cache zero_value)) ≡ some r
    → Some (IsRecent now r) fs
unfolding look
look-IsRecent fs zero_value now r h =
    elim (stored-IsRecent fs (empty_cache zero_value) now (ground arith)) [
      | inl (a, e) ↦ absurd (omega (arith, a))
      | inr k ↦
          (let same : (stored fs (empty_cache zero_value)).result ≡ r = ground arith in
            subst (λ q. Some (IsRecent now q) fs) same k)
    ]
