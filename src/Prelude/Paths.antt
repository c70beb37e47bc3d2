-- ===== src/Prelude/Paths.antt =====
-- Go's package `path` over texts (and `path/filepath` on Unix): Clean, Dir, Base, Ext, Join, IsAbs.
use Prim.Native.Nat.{ℕ}
use mathlib.Core.Bool.{Bool, true, false, not, ◌||◌}
use mathlib.Core.List.{List, [], ◌∷◌, ◌++◌, reverse}
use emby_migrator.Prelude.Tests.{◌==◌, if◌then◌else◌}
use emby_migrator.Prelude.Lists.{Text, text_eq}
use emby_migrator.Prelude.Strings.{is_empty, split, trim_left}

abbrev pub slash : ℕ
slash = b'/'

abbrev pub dot : Text
dot = b'.' ∷ []

abbrev pub dot_dot : Text
dot_dot = b'.' ∷ b'.' ∷ []

unfoldable pub is_abs : Text → Bool
is_abs [] = false
is_abs (c ∷ s) = c == slash

-- One element of a path on the stack of those before it, the last one on top.
unfoldable pub push_element : Bool → Text → List Text → List Text
unfolding text_eq
push_element rooted e stack =
    if is_empty e || text_eq e dot
    then stack
    else if text_eq e dot_dot
    then elim stack [
      | [] ↦ if rooted then [] else dot_dot ∷ []
      | top ∷ rest ↦ if text_eq top dot_dot then dot_dot ∷ top ∷ rest else rest
    ]
    else e ∷ stack

unfoldable pub push_all : Bool → List Text → List Text → List Text
unfolding push_element
push_all rooted [] stack = stack
push_all rooted (e ∷ es) stack = push_all rooted es (push_element rooted e stack)

-- The elements of the cleaned path.
unfoldable pub elements : Text → List Text
unfolding push_all
elements p = reverse (push_all (is_abs p) (split slash p) [])

unfoldable pub joined_by_slash : List Text → Text
joined_by_slash [] = []
joined_by_slash (e ∷ []) = e
joined_by_slash (e ∷ f ∷ es) = e ++ slash ∷ joined_by_slash (f ∷ es)

abbrev pub or_dot : Text → Text
or_dot t = if is_empty t then dot else t

unfoldable pub clean : Text → Text
unfolding elements joined_by_slash is_abs
clean p = let body = joined_by_slash (elements p) in if is_abs p then slash ∷ body else or_dot body

abbrev until_slash : Text → Text
until_slash [] = []
until_slash (c ∷ t) = let rest = until_slash t in if c == slash then [] else c ∷ rest

-- What stands behind the last slash, and what stands before it, with it.
unfoldable pub behind_slash : Text → Text
behind_slash s = reverse (until_slash (reverse s))

unfoldable pub up_to_slash : Text → Text
unfolding trim_left
up_to_slash s = reverse (trim_left (λ c. not (c == slash)) (reverse s))

unfoldable pub dir : Text → Text
unfolding clean up_to_slash
dir p = clean (up_to_slash p)

abbrev strip_slashes : Text → Text
strip_slashes s = reverse (trim_left (λ c. c == slash) (reverse s))

unfoldable pub base : Text → Text
unfolding behind_slash trim_left
base [] = dot
base (c ∷ s) = let t = strip_slashes (c ∷ s) in if is_empty t then slash ∷ [] else behind_slash t

-- On a reversed path: whether its last element has a dot, and what stands before the last one.
abbrev has_ext : Text → Bool
has_ext [] = false
has_ext (c ∷ t) =
    let rest = has_ext t in if c == slash then false else if c == b'.' then true else rest

abbrev past_dot : Text → Text
past_dot [] = []
past_dot (c ∷ t) = let rest = past_dot t in if c == b'.' then t else rest

-- `strings.TrimSuffix(p, path.Ext(p))`
unfoldable pub without_ext : Text → Text
without_ext s = let r = reverse s in if has_ext r then reverse (past_dot r) else s
