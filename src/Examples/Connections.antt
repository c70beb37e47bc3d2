-- ===== src/Examples/Connections.antt =====
-- A request without a key, to a server that is saved as a profile.
use emby_migrator.Prelude.{
  ◌≡◌, refl, Bool, true, false, Option, none, some, List, [], ◌∷◌, ◌++◌, Text, codes, text_eq,
  if◌then◌else◌,
}
use emby_migrator.Settings.Types.{Connection, Settings, Urls}
use emby_migrator.Settings.Connection.{resolve_emby_connection}
use emby_migrator.Settings.Keys.{IsHome, resolve_emby_connection-IsHome}

-- URLs without a path, all of the scheme http.
abbrev plain : Urls
plain = record {
  parse = λ t. some (record { scheme = codes "http"; host = t; path = [] });
  print = λ u. u.host ++ u.path;
}

abbrev settings : Settings
settings = record {
  connection = record { base_url = codes "http://a"; api_key = codes "k1" };
  profiles = record { id = codes "b"; base_url = codes "http://b"; api_key = codes "k2" } ∷ [];
}

abbrev to_b : Connection
to_b = record { base_url = codes "http://b"; api_key = codes "k2" }

b_with_its_key : resolve_emby_connection plain (some settings) (codes " b ") [] [] ≡ some to_b
unfolding resolve_emby_connection emby_migrator.Prelude.Strings.trim_space text_eq
b_with_its_key = refl

c_without_a_key : resolve_emby_connection plain (some settings) (codes "c") [] [] ≡ none
unfolding resolve_emby_connection emby_migrator.Prelude.Strings.trim_space text_eq
c_without_a_key = refl

resolve_emby_connection-IsHome_example : IsHome plain (some settings) (codes "b") [] [] to_b
unfolding emby_migrator.Prelude.Strings.trim_space
resolve_emby_connection-IsHome_example =
    resolve_emby_connection-IsHome plain (some settings) (codes " b ") [] [] to_b refl
      b_with_its_key
