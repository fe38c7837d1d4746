-- ===== src/DenyLeafKind.antt =====
-- packages/sandbox-runtime/src/deny-leaf-kind.ts: the kind of a deny path that does not exist yet.
use convira_sandbox.Base.{
  ℕ, ◌≡◌, refl, Bool, ◌||◌, Option, none, some, List, [], ◌∷◌, ◌==◌, if◌then◌else◌,
}
use mathlib.Core.List.{reverse}
use convira_sandbox.Base.Text.{Text, codes, ◌===◌, to_lower}
use convira_sandbox.Types.{LeafKind, file, dir}

-- `record[key]` on an association list.
unfoldable pub lookup {ℓ} : {V : Type ℓ} → Text → List (Text × V) → Option V
lookup k [] = none
lookup k ((j, v) ∷ m) = let rest = lookup k m in if j === k then some v else rest

abbrev pub well_known_deny_leaf_kinds : List (Text × LeafKind)
well_known_deny_leaf_kinds =
    (codes ".ssh", dir)
    ∷ (codes ".gnupg", dir)
    ∷ (codes ".aws", dir)
    ∷ (codes ".azure", dir)
    ∷ (codes ".kube", dir)
    ∷ (codes ".docker", dir)
    ∷ (codes ".convira", dir)
    ∷ (codes ".config", dir)
    ∷ (codes "keychains", dir)
    ∷ (codes "launchagents", dir)
    ∷ (codes "launchdaemons", dir)
    ∷ (codes ".npmrc", file)
    ∷ (codes ".pypirc", file)
    ∷ (codes ".netrc", file)
    ∷ (codes ".zshrc", file)
    ∷ (codes ".zprofile", file)
    ∷ (codes ".zshenv", file)
    ∷ (codes ".bashrc", file)
    ∷ (codes ".bash_profile", file)
    ∷ (codes ".profile", file)
    ∷ (codes ".gitconfig", file)
    ∷ []

abbrev pub is_separator : ℕ → Bool
is_separator c = c == b'/' || c == b'\\'

-- `replace(/[\\/]+$/u, "")`, on the reversed path.
drop_separators : Text → Text
drop_separators [] = []
drop_separators (c ∷ s) = if is_separator c then drop_separators s else c ∷ s

-- `split(/[\\/]/u).pop()`, on the reversed path.
take_leaf : Text → Text
take_leaf [] = []
take_leaf (c ∷ s) = if is_separator c then [] else c ∷ take_leaf s

unfoldable pub strip_trailing_separators : Text → Text
unfolding drop_separators
strip_trailing_separators p = reverse (drop_separators (reverse p))

unfoldable pub leaf_name : Text → Text
unfolding drop_separators take_leaf
leaf_name p = reverse (take_leaf (drop_separators (reverse p)))

-- The table, for a leaf that is not empty.
known_kind : Text → Option LeafKind
known_kind [] = none
known_kind (c ∷ leaf) = lookup (to_lower (c ∷ leaf)) well_known_deny_leaf_kinds

explicit_kind : Text → Option (List (Text × LeafKind)) → Option LeafKind
explicit_kind p none = none
explicit_kind p (some kinds) = lookup p kinds

unfoldable pub resolve_deny_leaf_kind : Text → Option (List (Text × LeafKind)) → Option LeafKind
unfolding known_kind explicit_kind
resolve_deny_leaf_kind deny_path kinds = elim (explicit_kind deny_path kinds) [
  | some kind ↦ some kind
  | none ↦ known_kind (leaf_name deny_path)
]

resolve_tests :
    (resolve_deny_leaf_kind (codes "/home/u/.ssh/") none ≡ some dir)
    × (resolve_deny_leaf_kind (codes "C:\\Users\\u\\.GitConfig") none ≡ some file)
    × (resolve_deny_leaf_kind (codes "/home/u/.unknown") none ≡ none)
    × (resolve_deny_leaf_kind (codes "///") none ≡ none)
unfolding resolve_deny_leaf_kind leaf_name lookup to_lower ◌===◌
resolve_tests = (refl, refl, refl, refl)
