-- ===== src/Examples/Readbacks.antt =====
-- The comparison of media sources (internal/exporter/media_database_plan.go) at concrete inputs.
use emby_migrator.Prelude.{
  ℕ, ◌≡◌, refl, Bool, true, List, [], ◌∷◌, Text, codes, text_eq, contains, ◌==◌,
}
use emby_migrator.Prelude.Strings.{trim_space, trim_func, trim_left, to_lower}
use emby_migrator.Plan.Readback.{
  Deep, number, text, Fields, fold_media_readback_map, field, media_readback_values_equal,
  verify_media_readback_maps, verify_media_database_sources,
}
use emby_migrator.Plan.Matching.{AreMatched, verified_sources_match}

abbrev deep : Deep
deep = record { Float = ℕ; Nested = Bool; float_eq = λ x y. x == y; deep_equal = λ x y. true }

abbrev source : ℕ → Text → Fields deep
source size container =
    (codes "Size", number size)
    ∷ (codes "Container", text container)
    ∷ (codes "Path", text (codes "/a"))
    ∷ []

abbrev planned : List (Fields deep)
planned = source 700 (codes "mkv") ∷ source 900 (codes "mp4") ∷ []

-- The server shows them in another order, and one more.
abbrev shown : List (Fields deep)
shown = source 900 (codes "mp4") ∷ source 100 (codes "avi") ∷ source 700 (codes "mkv") ∷ []

shown_pass : verify_media_database_sources deep planned shown ≡ true
unfolding verify_media_database_sources verify_media_readback_maps media_readback_values_equal field
    fold_media_readback_map contains text_eq to_lower trim_space trim_func trim_left
shown_pass = refl

verified_sources_match_example : AreMatched deep planned shown []
verified_sources_match_example = verified_sources_match deep planned shown shown_pass
