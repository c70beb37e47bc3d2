-- ===== src/Prelude/SplitLemmas.antt =====
-- Splitting a text at a separator.
use Prim.Native.Nat.{ℕ}
use mathlib.Core.Path.{◌≡◌, ◌∙◌, ap}
use mathlib.Core.Bool.{true, false}
use mathlib.Core.List.{[], ◌∷◌, ◌++◌, reverse, append_assoc, append-nil, reverse-cons}
use native.Mathlib.Omega.{arith}
use emby_migrator.Prelude.Tests.{◌==◌}
use emby_migrator.Prelude.Lists.{Text, All}
use emby_migrator.Prelude.Strings.{split, split_from}

-- No character of the text is the separator.
abbrev pub Lacks : ℕ → Text → Type 0
Lacks sep s = All (λ c. (c == sep) ≡ false) s

grow : (acc s : Text) (c : ℕ) → reverse (c ∷ acc) ++ s ≡ reverse acc ++ c ∷ s
grow acc s c = rw reverse-cons (append_assoc (reverse acc) (c ∷ []) s)

split_from_last :
    (sep : ℕ) (acc s : Text) → Lacks sep s → split_from sep acc s ≡ (reverse acc ++ s) ∷ []
unfolding split_from
split_from_last sep acc [] h = rw append-nil
split_from_last sep acc (c ∷ s) h =
    rw (h.0, split_from) (split_from_last sep (c ∷ acc) s h.1 ∙ ap (λ t. t ∷ []) (grow acc s c))

split_from_cut :
    (sep : ℕ) (acc s t : Text)
    → Lacks sep s
    → split_from sep acc (s ++ sep ∷ t) ≡ (reverse acc ++ s) ∷ split_from sep [] t
unfolding split_from
split_from_cut sep acc [] t h =
    let e : (sep == sep) ≡ true = ground arith in rw (e, append-nil, split_from)
split_from_cut sep acc (c ∷ s) t h =
    rw (h.0, split_from)
      (split_from_cut sep (c ∷ acc) s t h.1 ∙ ap (λ u. u ∷ split_from sep [] t) (grow acc s c))

-- Two texts that lack the separator, joined by it, are split into the two.
pub split_two :
    (sep : ℕ) (s t : Text) → Lacks sep s → Lacks sep t → split sep (s ++ sep ∷ t) ≡ s ∷ t ∷ []
unfolding split
split_two sep s t h k = split_from_cut sep [] s t h ∙ ap (λ u. s ∷ u) (split_from_last sep [] t k)
