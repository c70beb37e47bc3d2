-- ===== src/Settings/Connection.antt =====
-- internal/web/settings.go: `resolveEmbyConnection`, and the looking up of saved keys. The settings are
-- those that are loaded, `none` where that fails.
use emby_migrator.Prelude.{
  Bool, not, ◌&&◌, ◌||◌, Option, none, some, List, [], ◌∷◌, Text, text_eq, if◌then◌else◌,
}
use emby_migrator.Prelude.Strings.{trim_space, is_empty}
use emby_migrator.Settings.Types.{Profile, Connection, Settings, Urls, normalize_base_url}

abbrev pub first_with : (Profile → Bool) → List Profile → Option Profile
first_with test [] = none
first_with test (p ∷ ps) = let rest = first_with test ps in if test p then some p else rest

unfoldable pub find_profile_by_id : List Profile → Text → Option Profile
find_profile_by_id profiles id = first_with (λ p. text_eq p.id (trim_space id)) profiles

unfoldable pub find_profile_by_base_url : List Profile → Text → Option Profile
find_profile_by_base_url profiles base_url =
    first_with (λ p. text_eq p.base_url (trim_space base_url)) profiles

-- Blank where no key is saved.
unfoldable pub saved_api_key_for_base_url : Settings → Text → Text
unfolding find_profile_by_base_url
saved_api_key_for_base_url settings normalized =
    let wanted = trim_space normalized in
    if is_empty wanted
    then []
    else if text_eq (trim_space settings.connection.base_url) wanted
    then trim_space settings.connection.api_key
    else elim (find_profile_by_base_url settings.profiles wanted) [
      | none ↦ []
      | some p ↦ trim_space p.api_key
    ]

module _ (urls : Urls) where
  -- What the request is compared with the saved connection by: blank where there is no URL, or none
  -- that can be normalized.
  abbrev pub normalized_request : Text → Text
  normalized_request base_url =
      if is_empty base_url
      then []
      else elim (normalize_base_url urls base_url) [ none ↦ [] | some n ↦ n ]

  -- The key for a request that has none, and no profile.
  unfoldable pub saved_key : Settings → Text → Text
  unfolding saved_api_key_for_base_url
  saved_key saved base_url =
      let request = normalized_request base_url in
      let key =
        if is_empty request || text_eq request saved.connection.base_url
        then saved.connection.api_key
        else [] in
      if is_empty key && not (is_empty request)
      then saved_api_key_for_base_url saved request
      else key

  -- The checks at the end.
  unfoldable pub connect : Text → Text → Option Connection
  unfolding normalize_base_url
  connect base_url api_key =
      if is_empty (trim_space base_url) || is_empty (trim_space api_key)
      then none
      else elim (normalize_base_url urls base_url) [
        | none ↦ none
        | some n ↦ some (record { base_url = n; api_key = api_key })
      ]

  -- With no profile: what is missing is taken from the saved connection, or is that of a saved server.
  unfoldable pub connect_saved : Settings → Text → Text → Option Connection
  unfolding connect saved_key
  connect_saved saved base_url api_key =
      let base = if is_empty base_url then saved.connection.base_url else base_url in
      connect base (if is_empty api_key then saved_key saved base else api_key)

  unfoldable pub resolve_emby_connection : Option Settings → Text → Text → Text → Option Connection
  unfolding connect_saved find_profile_by_id
  resolve_emby_connection loaded raw_url raw_key raw_id =
      let base_url = trim_space raw_url in
      let api_key = trim_space raw_key in
      let profile_id = trim_space raw_id in
      if not (is_empty profile_id) || is_empty api_key || is_empty base_url
      then elim loaded [
        | none ↦ none
        | some saved ↦
            if is_empty profile_id
            then connect_saved saved base_url api_key
            else elim (find_profile_by_id saved.profiles profile_id) [
              | none ↦ none
              | some p ↦ connect p.base_url p.api_key
            ]
      ]
      else connect base_url api_key
