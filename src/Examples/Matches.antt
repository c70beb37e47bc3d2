-- ===== src/Examples/Matches.antt =====
-- A match by the name of the file, at a concrete server.
use emby_migrator.Prelude.{
  ℕ, ◌≡◌, refl, Bool, true, false, Option, none, some, List, [], ◌∷◌, Text, codes, text_eq,
  if◌then◌else◌, leb,
}
use emby_migrator.Prelude.Strings.{lower}
use emby_migrator.Match.Types.{Item, Sought, Patterns, Client}
use emby_migrator.Match.Find.{matched, media_file, find_match}
use emby_migrator.Match.Justified.{Justified}
use emby_migrator.Match.Sound.{match_sound}

-- No pattern matches anything.
abbrev patterns : Patterns
patterns = record {
  letters = record { lower = lower; is_letter = λ c. leb b'a' c; is_digit = λ c. leb c b'9' };
  episode = λ _. none;
  season = λ _. [];
  cut_series_brace = λ t. t;
  cut_series_meta = λ t. t;
  cut_series_year = λ t. t;
  cut_short_dash = λ t. t;
  cut_short_meta = λ t. t;
}

abbrev item_at : Text → Text → Item
item_at id path = record {
  id = id;
  name = codes "Film";
  kind = codes "Movie";
  path = path;
  original_title = [];
  production_year = 1999;
  series_name = [];
  index_number = 0;
  parent_index_number = 0;
}

abbrev wanted : Item
wanted = item_at (codes "7") (codes "/mnt/b/Film.mp4")

-- The server answers a search with two items, whose files have other names.
abbrev server : Client
server = record {
  search_items =
      λ term kind limit. some (item_at (codes "8") (codes "/mnt/b/Other.mkv") ∷ wanted ∷ []);
  items_by_provider_id = λ value. none;
}

abbrev film : Sought
film = record {
  name = codes "Film";
  kind = codes "Movie";
  path = codes "C:\\films\\film.mkv";
  original_title = [];
  production_year = 1999;
  series_name = [];
  index_number = 0;
  parent_index_number = 0;
  provider_ids = [];
}

film-found : find_match patterns server film ≡ matched wanted media_file
unfolding find_match emby_migrator.Match.Names.media_path_stem
    emby_migrator.Prelude.Strings.trim_space text_eq emby_migrator.Match.Names.media_stem_matches
    emby_migrator.Prelude.Strings.equal_fold
film-found = refl

match_sound_example : Justified patterns server film media_file wanted
match_sound_example = match_sound patterns server film wanted media_file film-found
