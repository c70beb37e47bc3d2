-- ===== src/Package/Relative.antt =====
-- internal/exporter/service.go: what the tests of `filepath.Rel` say about two paths.
use emby_migrator.Prelude.{
  ◌≡◌, inl, inr, refl, sym, ap, ◌∙◌, Bool, true, false, ◌&&◌, ◌||◌, none, some, List, [], ◌∷◌, ◌++◌,
  map, Text, text_eq, text_eq→eq, if◌then◌else◌, Bool-cases, arith,
}
use emby_migrator.Prelude.Strings.{has_prefix}
use emby_migrator.Prelude.Paths.{is_abs, elements, joined_by_slash, or_dot, dot, dot_dot}
use emby_migrator.Package.Paths.{strip_common, rel, goes_up}

-- The path is the directory, or something in it.
abbrev pub Within : Text → Text → Type 0
Within root path = (rest : List Text) × (elements path ≡ elements root ++ rest)

-- The path is in the directory, and not the directory itself.
abbrev pub Inside : Text → Text → Type 0
Inside root path = (e : Text) × (rest : List Text) × (elements path ≡ elements root ++ e ∷ rest)

-- What is stripped stands before what is left, if nothing of the first list is left.
strip_common-prefix : (bs ts down : List Text) → strip_common bs ts ≡ ([], down) → ts ≡ bs ++ down
unfolding strip_common
strip_common-prefix [] ts down h = ap (λ q. q.1) h
strip_common-prefix (b ∷ bs) [] down h = absurd (ground arith)
strip_common-prefix (b ∷ bs) (t ∷ ts) down h = elim (Bool-cases (text_eq b t)) [
  | inl e ↦ ground (arith, text_eq→eq b t, strip_common-prefix bs ts down)
  | inr e ↦ absurd (ground arith)
]

-- A relative path that does not go up starts where its root ends.
stays :
    (up down : List Text)
    → goes_up (or_dot (joined_by_slash (map (λ _. dot_dot) up ++ down))) ≡ false
    → up ≡ []
unfolding goes_up joined_by_slash text_eq has_prefix
stays [] down h = refl
stays (u ∷ []) [] h = absurd (cc)
stays (u ∷ []) (d ∷ down) h = absurd (cc)
stays (u ∷ v ∷ up) down h = absurd (cc)

if-some : (b : Bool) (t r : Text) → (if b then some t else none) ≡ some r → t ≡ r
if-some true t r h = ground (arith, h)
if-some false t r h = absurd (cc)

rel-text :
    (root target r : Text)
    → rel root target ≡ some r
    → let (up, down) = strip_common (elements root) (elements target) in
      or_dot (joined_by_slash (map (λ _. dot_dot) up ++ down)) ≡ r
unfolding rel
rel-text root target r h = if-some (is_abs root && is_abs target) _ r h

pub rel-Within :
    (root target r : Text) → rel root target ≡ some r → goes_up r ≡ false → Within root target
rel-Within root target r h k =
    let q = strip_common (elements root) (elements target) in
    let e : q.0 ≡ [] = stays q.0 q.1 (ap goes_up (rel-text root target r h) ∙ k) in
    (q.1, strip_common-prefix (elements root) (elements target) q.1 (ap (λ u. (u, q.1)) e))

-- A path that is not `.` names something.
names_something :
    (down : List Text)
    → text_eq (or_dot (joined_by_slash down)) dot ≡ false
    → (d : Text) × (rest : List Text) × (down ≡ d ∷ rest)
unfolding joined_by_slash text_eq
names_something [] h = absurd (cc)
names_something (d ∷ rest) h = (d, rest, refl)

neither-left : (a b : Bool) → (a || b) ≡ false → a ≡ false
neither-left true b h = absurd (cc)
neither-left false b h = refl

neither-right : (a b : Bool) → (a || b) ≡ false → b ≡ false
neither-right true b h = absurd (cc)
neither-right false b h = h

pub rel-Inside :
    (root target r : Text)
    → rel root target ≡ some r
    → (text_eq r dot || goes_up r) ≡ false
    → Inside root target
unfolding rel-Within strip_common
rel-Inside root target r h k =
    let q = strip_common (elements root) (elements target) in
    let text = rel-text root target r h in
    let still = neither-right (text_eq r dot) (goes_up r) k in
    let (rest, e) = rel-Within root target r h still in
    let none_up : q.0 ≡ [] = stays q.0 q.1 (ap goes_up text ∙ still) in
    let alone : or_dot (joined_by_slash q.1) ≡ r =
      ap (λ up. or_dot (joined_by_slash (map (λ _. dot_dot) up ++ q.1))) (sym none_up) ∙ text in
    let (d, more, f) =
      names_something q.1
        (ap (λ t. text_eq t dot) alone ∙ neither-left (text_eq r dot) (goes_up r) k) in
    (d, more, e ∙ ap (λ down. elements root ++ down) f)
