-- ===== src/Examples/Packages.antt =====
-- Names of files, versions and plans at concrete inputs.
use emby_migrator.Prelude.{
  ℕ, ◌<◌, ◌≡◌, ◌↔◌, refl, Bool, true, false, ◌&&◌, some, List, [], ◌∷◌, ◌++◌, Text, codes, text_eq,
  contains, length, arith, if◌then◌else◌, leb,
}
use emby_migrator.Prelude.Int.{pos, negsuc}
use emby_migrator.Prelude.Strings.{lower, trim_space, trim_func, trim_left, has_prefix, is_empty}
use emby_migrator.Prelude.Decimal.{itoa, last_digits}
use emby_migrator.Storage.Slug.{
  Letters, dashed, slug, safe_name, is_windows_reserved_name, numbered, unique_slug_counted,
}
use emby_migrator.Storage.Safe.{IsUnicode, IsFileName, slug-IsFileName}
use emby_migrator.Storage.Unique.{counted_collision}
use emby_migrator.Version.Numbers.{compare_parts, digits_from, atoi}
use emby_migrator.Version.Order.{IsNewer, compare_first_difference}
use emby_migrator.Version.Cache.{
  Response, Fetch, IsRecent, Some, look, store, stored, empty_cache, look-IsRecent,
}
use emby_migrator.Plan.Merge.{PlanItem, merge_media_database_plan_items}
use emby_migrator.Plan.Lookup.{last_of, or_else, merge_lookup}
use emby_migrator.Plan.Binding.{
  Tables, Plan, positive_id, seen_before, portable_target_name, canonical, sorted, text_leb, joined,
  build_target_binding_digest, anchors_of, binding_of, build_media_database_binding,
  validate_media_database_plan_binding, media_schema_identity,
}
use emby_migrator.Plan.Bound.{HaveIds, AreNew, binding_roundtrip, validated_plan_sound}

abbrev latin : ℕ → Bool
latin c = leb b'a' c && leb c b'z'

abbrev decimal : ℕ → Bool
decimal c = leb b'0' c && leb c b'9'

abbrev ascii : Letters
ascii = record { lower = lower; is_letter = latin; is_digit = decimal }

ascii-IsUnicode : IsUnicode ascii
ascii-IsUnicode = record { latin = λ c h. h; dash_is_none = refl }

slug_of_path : slug ascii (codes " ../Movie:  The Final Cut/ ") ≡ codes "movie-the-final-cut"
unfolding slug dashed trim_space trim_func trim_left
slug_of_path = refl

slug-IsFileName_example : IsFileName ascii 120 (slug ascii (codes " ../Movie:  The Final Cut/ "))
slug-IsFileName_example =
    slug-IsFileName ascii ascii-IsUnicode (codes " ../Movie:  The Final Cut/ ")

abbrev movie : Text
movie = codes "Movie"

abbrev taken : List Text
taken = codes "movie" ∷ codes "movie-2" ∷ []

abbrev twice : Text → ℕ
twice k = if text_eq k (codes "movie") then 2 else 0

movie_name : safe_name ascii movie ≡ codes "movie"
unfolding safe_name slug dashed is_windows_reserved_name trim_space trim_func trim_left contains
    text_eq
movie_name = refl

sequel_name : safe_name ascii (codes "Movie 2") ≡ numbered ascii (safe_name ascii movie) 2
unfolding safe_name slug dashed is_windows_reserved_name trim_space trim_func trim_left contains
    text_eq itoa last_digits
sequel_name = refl

twice_later : 0 < twice (safe_name ascii movie)
unfolding safe_name slug dashed is_windows_reserved_name trim_space trim_func trim_left contains
    text_eq
twice_later = omega arith

counted_collision_example :
    (unique_slug_counted ascii movie (unique_slug_counted ascii movie (λ k. 0)).1).0
    ≡ (unique_slug_counted ascii
        (codes "Movie 2")
        (unique_slug_counted ascii movie (unique_slug_counted ascii movie (λ k. 0)).1).1).0
counted_collision_example = counted_collision ascii movie (codes "Movie 2") sequel_name

abbrev new_version : List ℕ
new_version = 1 ∷ 10 ∷ []

abbrev old_version : List ℕ
old_version = 1 ∷ 9 ∷ 3 ∷ []

compare_first_difference_example :
    ((compare_parts new_version old_version ≡ pos 1) ↔ IsNewer new_version old_version)
    × ((compare_parts new_version old_version ≡ negsuc 0) ↔ IsNewer old_version new_version)
compare_first_difference_example = compare_first_difference new_version old_version

new_is_newer : compare_parts new_version old_version ≡ pos 1
unfolding compare_parts
new_is_newer = refl

old_is_newer : compare_parts old_version (1 ∷ []) ≡ pos 1
unfolding compare_parts
old_is_newer = refl

abbrev nothing : Response
nothing = record {
  checked = false;
  current_version = [];
  latest_version = [];
  update_available = false;
  release_url = [];
  checked_at = 0;
}

abbrev fetched : Fetch
fetched = record {
  looked_at = 1000;
  response = record nothing { checked = true; checked_at = 1200 };
  ok = true;
}

look-fetched : look 2000 (stored (fetched ∷ []) (empty_cache nothing)) ≡ some fetched.response
unfolding look stored store
look-fetched = refl

look-IsRecent_example : Some (IsRecent 2000 fetched.response) (fetched ∷ [])
look-IsRecent_example = look-IsRecent (fetched ∷ []) nothing 2000 fetched.response look-fetched

abbrev item : Text → Text → Text → PlanItem ℕ
item key id name = record {
  stable_key = key;
  source_name = name;
  target_item_id = id;
  target_name = name;
  media_source = some 7;
  media_sources = 7 ∷ [];
  media_streams = 8 ∷ 9 ∷ [];
  chapters = [];
}

abbrev earlier : List (PlanItem ℕ)
earlier =
    item (codes "a") (codes "11") (codes "Alien")
    ∷ item (codes "b") (codes "12") (codes "Brazil")
    ∷ []

abbrev latest : List (PlanItem ℕ)
latest =
    item (codes "b") (codes "22") (codes "Brazil")
    ∷ item (codes "c") (codes "23") (codes "Cube")
    ∷ []

merge_lookup_example :
    last_of (codes "b") (merge_media_database_plan_items earlier latest)
    ≡ or_else (last_of (codes "b") latest) (last_of (codes "b") earlier)
merge_lookup_example = merge_lookup earlier latest (codes "b")

-- The digest is the text itself.
abbrev tables : Tables
tables = record { sha256_hex = λ t. t; lower = lower; is_letter = latin; is_digit = decimal }

abbrev plan : Plan ℕ
plan = record {
  schema_version = 2;
  source_emby_version = codes "4.8.11";
  target_emby_version = codes "4.8.11";
  target = record {
    server_name = codes "home";
    server_id = codes "s1";
    version = codes "4.8.11";
    base_url = [];
  };
  database_binding = record {
    target_server_id = codes "s1";
    schema_identity = media_schema_identity;
    anchor_count = 2;
    anchor_digest =
        codes "s1"
        ++ 10 ∷ (codes "11" ++ 0 ∷ codes "alien")
        ++ 10 ∷ (codes "12" ++ 0 ∷ codes "brazil");
  };
  created_at = 0;
  items = earlier;
}

plan_built :
    build_media_database_binding tables plan.target.server_id plan.items
    ≡ some plan.database_binding
unfolding build_media_database_binding binding_of anchors_of positive_id atoi digits_from
    build_target_binding_digest canonical seen_before portable_target_name sorted text_leb joined
    itoa last_digits has_prefix trim_space trim_func trim_left
plan_built = refl

plan_passes : validate_media_database_plan_binding tables plan ≡ some plan.database_binding
plan_passes = binding_roundtrip tables plan refl plan_built

validated_plan_sound_example :
    (is_empty (trim_space plan.target.server_id) ≡ false)
    × (plan.database_binding.target_server_id ≡ trim_space plan.target.server_id)
    × (plan.database_binding.anchor_count ≡ length plan.items)
    × (0 < plan.database_binding.anchor_count)
    × ((ids : List ℕ) × HaveIds plan.items ids × AreNew [] ids)
validated_plan_sound_example =
    validated_plan_sound tables plan plan.database_binding refl plan_passes
