-- ===== src/Path.antt =====
-- The functions of the package path/filepath that cmd/git-sync/main.go uses, on the paths of
-- Unix: `Clean` (inside the others), `Join` of two elements and `Rel`.
pub mod Clean
pub mod Rel
use mathlib.Core.List.{reverse, foldl}
use git_sync.Common.{
  ℕ, Bool, true, false, not, ◌&&◌, ◌||◌, Option, none, some, List, [], ◌∷◌, ◌++◌, ◌==◌,
  if◌then◌else◌, Text, codes, equal, is_empty, split, join,
}

-- A cleaned path: `/a/b` is rooted with two parts. With no parts it is `/` or `.`.
pub record CleanPath : Type 0 where
  pub rooted : Bool
  pub parts : List Text

abbrev pub up : Text
up = codes ".."

abbrev pub slash : Text
slash = codes "/"

-- The parts so far are held last first. Behind `..` in front of a path that is not rooted, and at
-- the start of one, `..` stays.
unfoldable pub go_up : Bool → List Text → List Text
go_up rooted [] = if rooted then [] else up ∷ []
go_up rooted (p ∷ ps) = if equal p up then up ∷ p ∷ ps else ps

unfoldable pub push_part : Bool → List Text → Text → List Text
unfolding go_up
push_part rooted ps p =
    if is_empty p || equal p (codes ".") then ps else if equal p up then go_up rooted ps else p ∷ ps

abbrev pub is_rooted : Text → Bool
is_rooted [] = false
is_rooted (c ∷ _) = c == b'/'

unfoldable pub clean_path : Text → CleanPath
unfolding push_part
clean_path path = record {
  rooted = is_rooted path;
  parts = reverse (foldl (push_part (is_rooted path)) [] (split b'/' path));
}

abbrev render_parts : List Text → Text
render_parts [] = codes "."
render_parts (p ∷ ps) = join slash (p ∷ ps)

unfoldable pub render : CleanPath → Text
render p = if p.rooted then b'/' ∷ join slash p.parts else render_parts p.parts

-- `filepath.Clean`
unfoldable pub clean : Text → Text
unfolding clean_path render
clean path = render (clean_path path)

-- `filepath.Join(a, b)`: empty elements are left out.
unfoldable pub join_path : Text → Text → Text
unfolding clean
join_path [] [] = []
join_path [] (c ∷ b) = clean (c ∷ b)
join_path (c ∷ a) b = clean ((c ∷ a) ++ (b'/' ∷ b))

unfoldable pub equal_parts : List Text → List Text → Bool
equal_parts [] [] = true
equal_parts [] (_ ∷ _) = false
equal_parts (_ ∷ _) [] = false
equal_parts (p ∷ ps) (q ∷ qs) = equal p q && equal_parts ps qs

-- The target `.` counts as a part, unless the base is `.` too.
abbrev pub target_parts : CleanPath → List Text
target_parts p = if not p.rooted && equal_parts p.parts [] then codes "." ∷ [] else p.parts

abbrev pub ups : List Text → List Text → List Text
ups [] targ = targ
ups (_ ∷ ps) targ = up ∷ ups ps targ

-- What is left of the two behind their common parts; `none` is the error "can't make relative".
unfoldable pub rel_parts : List Text → List Text → Option Text
rel_parts [] targ = some (join slash targ)
rel_parts (p ∷ ps) [] = if equal p up then none else some (join slash (ups (p ∷ ps) []))
rel_parts (p ∷ ps) (q ∷ qs) =
    let deeper = rel_parts ps qs in
    if equal p q
    then deeper
    else if equal p up
    then none
    else some (join slash (ups (p ∷ ps) (q ∷ qs)))

abbrev pub same_rooted : Bool → Bool → Bool
same_rooted true b = b
same_rooted false b = not b

unfoldable pub rel_clean : CleanPath → CleanPath → Option Text
unfolding rel_parts equal_parts
rel_clean b t =
    if not (same_rooted b.rooted t.rooted)
    then none
    else if equal_parts b.parts t.parts
    then some (codes ".")
    else rel_parts b.parts (target_parts t)

-- `filepath.Rel(base, targ)`
unfoldable pub rel : Text → Text → Option Text
unfolding clean_path rel_clean
rel base targ = rel_clean (clean_path base) (clean_path targ)
