-- ===== src/Settings/Types.antt =====
-- internal/web/settings.go: the settings, as far as connections go, and `NormalizeBaseURL` of
-- internal/emby/client.go, over the package net/url, which is a parameter.
use emby_migrator.Prelude.{
  not, ◌&&◌, Option, none, some, List, ◌++◌, Text, codes, text_eq, if◌then◌else◌, ◌==◌,
}
use emby_migrator.Prelude.Strings.{trim_space, is_empty, trim_left}
use emby_migrator.Import.Retry.{has_part}
use mathlib.Core.List.{reverse}

-- `appServerProfileSettings`, as far as it is read here.
pub record Profile : Type 0 where
  pub id : Text
  pub base_url : Text
  pub api_key : Text

-- `appConnectionSettings`, and `emby.Connection`.
pub record Connection : Type 0 where
  pub base_url : Text
  pub api_key : Text

pub record Settings : Type 0 where
  pub connection : Connection
  pub profiles : List Profile

-- `url.URL`, without its query and fragment: the scheme, the path, and what stands between them.
pub record Url : Type 0 where
  pub scheme : Text
  pub host : Text
  pub path : Text

-- `url.Parse`, and `String` of a URL without query and fragment.
pub record Urls : Type 0 where
  pub parse : Text → Option Url
  pub print : Url → Text

-- `strings.TrimRight(path, "/")`
abbrev pub trim_slashes : Text → Text
trim_slashes path = reverse (trim_left (λ c. c == b'/') (reverse path))

unfoldable pub normalize_base_url : Urls → Text → Option Text
unfolding trim_left has_part
normalize_base_url urls raw =
    let t = trim_space raw in
    let full = if has_part t (codes "://") then t else codes "http://" ++ t in
    if is_empty t then none else elim (urls.parse full) [
      | none ↦ none
      | some u ↦
          if not (text_eq u.scheme (codes "http")) && not (text_eq u.scheme (codes "https"))
          then none
          else some (urls.print (record u { path = trim_slashes u.path }))
    ]
