-- ===== src/NodePath.antt =====
-- The functions of Node's `path.posix` that the source calls, as its documentation and its
-- implementation define them: `dirname`, `basename`, `join`, `isAbsolute`.
pub mod Shrinks
use convira_sandbox.Base.{
  ℕ, ◌≡◌, refl, Bool, true, false, not, ◌&&◌, ◌||◌, List, [], ◌∷◌, ◌++◌, ==_iff, ◌==◌,
  if◌then◌else◌, filter, length,
}
use mathlib.Core.List.{reverse}
use convira_sandbox.Base.Text.{Text, codes, ◌===◌, split, join, starts_with, ends_with}

-- Both walk a reversed path.
skip_slashes : Text → Text
skip_slashes [] = []
skip_slashes (c ∷ s) = if c == b'/' then skip_slashes s else c ∷ s

drop_name : Text → Text
drop_name [] = []
drop_name (c ∷ s) = if c == b'/' then c ∷ s else drop_name s

take_name : Text → Text
take_name [] = []
take_name (c ∷ s) = if c == b'/' then [] else c ∷ take_name s

-- The character at index 0 is not examined: it counts as the root alone.
dirname_from : Bool → Text → Text
dirname_from has_root [] = if has_root then codes "/" else codes "."
dirname_from has_root (d ∷ []) = if has_root then codes "/" else codes "."
dirname_from has_root (d ∷ e ∷ r) =
    if has_root && length (e ∷ r) == 1 then codes "//" else reverse (e ∷ r)

unfoldable pub dirname : Text → Text
unfolding skip_slashes drop_name dirname_from
dirname [] = codes "."
dirname (c ∷ s) = dirname_from (c == b'/') (drop_name (skip_slashes (reverse (c ∷ s))))

unfoldable pub basename : Text → Text
unfolding skip_slashes take_name
basename s = reverse (take_name (skip_slashes (reverse s)))

unfoldable pub is_absolute : Text → Bool
is_absolute [] = false
is_absolute (c ∷ s) = c == b'/'

-- One part of a path against the parts kept so far, the last one first.
resolve : Bool → List Text → Text → List Text
resolve above_root [] part =
    if part === [] || part === codes "."
    then []
    else if part === codes ".." && not above_root
    then []
    else part ∷ []
resolve above_root (q ∷ kept) part =
    if part === [] || part === codes "."
    then q ∷ kept
    else if part === codes ".."
    then (if q === codes ".." then part ∷ q ∷ kept else kept)
    else part ∷ q ∷ kept

resolve_all : Bool → List Text → List Text → List Text
resolve_all above_root kept [] = reverse kept
resolve_all above_root kept (part ∷ parts) =
    resolve_all above_root (resolve above_root kept part) parts

with_ends : Bool → Bool → Text → Text
with_ends true trailing [] = codes "/"
with_ends false true [] = codes "./"
with_ends false false [] = codes "."
with_ends absolute trailing (c ∷ s) =
    (if absolute then codes "/" else []) ++ (c ∷ s) ++ (if trailing then codes "/" else [])

unfoldable pub normalize : Text → Text
unfolding resolve resolve_all with_ends
normalize [] = codes "."
normalize (c ∷ s) =
    with_ends (c == b'/') (ends_with (c ∷ s) (codes "/"))
      (join (codes "/") (resolve_all (not (c == b'/')) [] (split b'/' (c ∷ s))))

-- `path.join(a, b)`.
unfoldable pub path_join : Text → Text → Text
path_join a b = normalize (join (codes "/") (filter (λ part. not (part === [])) (a ∷ b ∷ [])))

dirname_tests :
    (dirname (codes "/a/b") ≡ codes "/a")
    × (dirname (codes "/a") ≡ codes "/")
    × (dirname (codes "/a/b/") ≡ codes "/a")
    × (dirname (codes "a") ≡ codes ".")
    × (basename (codes "/a/b.txt") ≡ codes "b.txt")
unfolding dirname basename
dirname_tests = (refl, refl, refl, refl, refl)

path_join_tests :
    (path_join (codes "/home/u") (codes ".ssh") ≡ codes "/home/u/.ssh")
    × (path_join (codes "/") (codes "tmp") ≡ codes "/tmp")
    × (path_join (codes "/a/./b") (codes "../c") ≡ codes "/a/c")
unfolding path_join normalize join split ends_with starts_with ◌===◌
path_join_tests = (refl, refl, refl)
