-- ===== src/Prelude/Strings.antt =====
-- Go's `strings` package over texts: trimming, prefixes, splitting, case folding.
-- White space and case are those of ASCII, which is what ids, names of containers, versions and roles
-- are made of; titles are compared so too.
use Prim.Native.Nat.{ℕ, ◌+◌}
use mathlib.Core.Bool.{Bool, true, false, ◌&&◌, ◌||◌}
use mathlib.Core.List.{List, [], ◌∷◌, map, reverse}
use emby_migrator.Prelude.Tests.{leb, ◌==◌, if◌then◌else◌}
use emby_migrator.Prelude.Lists.{Text, text_eq}

abbrev pub is_space : ℕ → Bool
is_space c = c == 32 || (leb 9 c && leb c 13)

unfoldable pub trim_left : (ℕ → Bool) → Text → Text
trim_left p [] = []
trim_left p (c ∷ s) = elim (p c) [ true ↦ trim_left p s | false ↦ c ∷ s ]

-- `strings.TrimFunc`
unfoldable pub trim_func : (ℕ → Bool) → Text → Text
unfolding trim_left
trim_func p s = reverse (trim_left p (reverse (trim_left p s)))

-- `strings.TrimSpace`
unfoldable pub trim_space : Text → Text
unfolding trim_func
trim_space s = trim_func is_space s

abbrev pub lower : ℕ → ℕ
lower c = if leb b'A' c && leb c b'Z' then c + 32 else c

-- `strings.ToLower`
unfoldable pub to_lower : Text → Text
to_lower s = map lower s

-- `strings.EqualFold`
unfoldable pub equal_fold : Text → Text → Bool
unfolding to_lower text_eq
equal_fold s t = text_eq (to_lower s) (to_lower t)

-- `strings.HasPrefix`
unfoldable pub has_prefix : Text → Text → Bool
has_prefix s [] = true
has_prefix [] (p ∷ ps) = false
has_prefix (c ∷ s) (p ∷ ps) = c == p && has_prefix s ps

-- `strings.TrimPrefix` of a single byte.
unfoldable pub trim_prefix_char : ℕ → Text → Text
trim_prefix_char p [] = []
trim_prefix_char p (c ∷ s) = if c == p then s else c ∷ s

abbrev pub is_empty : Text → Bool
is_empty [] = true
is_empty (c ∷ s) = false

-- `strings.Split` by one byte; `acc` is the part being read, reversed.
unfoldable pub split_from : ℕ → Text → Text → List Text
split_from sep acc [] = reverse acc ∷ []
split_from sep acc (c ∷ s) = elim (c == sep) [
  | true ↦ reverse acc ∷ split_from sep [] s
  | false ↦ split_from sep (c ∷ acc) s
]

unfoldable pub split : ℕ → Text → List Text
unfolding split_from
split sep s = split_from sep [] s
