-- ===== src/AppContainer/Grants.antt =====
-- win-appcontainer.ts: the grants of a spawn, their text, and the filter to existing paths.
use convira_sandbox.Base.{
  Bool, not, ◌||◌, Option, none, some, List, [], ◌∷◌, ◌++◌, map, filter, find, if◌then◌else◌,
}
use convira_sandbox.Base.Text.{Text, codes, ◌===◌, starts_with, to_lower}
use convira_sandbox.Base.Result.{Result, ok, throw, ◌>>=◌}
use convira_sandbox.Types.{LeafKind}
use convira_sandbox.DenyLeafKind.{resolve_deny_leaf_kind, strip_trailing_separators}

pub record WinAppContainerGrants : Type 0 where
  pub read_paths : List Text
  pub write_paths : List Text
  pub deny_paths : Option (List Text)
  pub deny_path_kinds : Option (List (Text × LeafKind))

abbrev pub or_empty : Option (List Text) → List Text
or_empty none = []
or_empty (some ps) = ps

abbrev pub line : Text → Text → Text
line verb p = verb ++ b'\t' ∷ p

-- The lines, each ended by a newline.
unfoldable pub ended_lines : List Text → Text
ended_lines [] = []
ended_lines (l ∷ ls) = l ++ b'\n' ∷ ended_lines ls

unfoldable pub format_app_container_grants : WinAppContainerGrants → Text
format_app_container_grants grants = ended_lines (
    map (line (codes "deny")) (or_empty grants.deny_paths)
    ++ (map (line (codes "read")) grants.read_paths
        ++ map (line (codes "write")) grants.write_paths))

abbrev normal : Text → Text
normal p = to_lower (strip_trailing_separators p)

unfoldable pub is_path_within : Text → Text → Bool
is_path_within candidate parent =
    normal candidate === normal parent
    || starts_with (normal candidate) (normal parent ++ codes "\\")
    || starts_with (normal candidate) (normal parent ++ codes "/")

pub record Materialized : Type 0 where
  pub path : Text
  pub kind : LeafKind

pub record Filtered : Type 0 where
  pub grants : WinAppContainerGrants
  pub dropped : List Text
  pub materialize : List Materialized

-- What the filter of the deny paths has kept, dropped and planned to create.
pub record DenyFilter : Type 0 where
  pub kept : List Text
  pub dropped : List Text
  pub materialize : List Materialized

abbrev pub no_denies : DenyFilter
no_denies = record { kept = []; dropped = []; materialize = [] }

unfoldable pub unknown_kind : Text → Text → Text
unknown_kind p granted =
    codes "[sandbox-runtime] deny path "
    ++ p
    ++ codes " does not exist, lies inside granted "
    ++ granted
    ++ codes ", and its leaf kind is unknown (supply filesystem.denyPathKinds); "
    ++ codes "refusing to spawn rather than let it inherit that grant if created"

unfoldable pub join_denies : DenyFilter → DenyFilter → DenyFilter
join_denies first rest = record {
  kept = first.kept ++ rest.kept;
  dropped = first.dropped ++ rest.dropped;
  materialize = first.materialize ++ rest.materialize;
}

module _ (exists : Text → Bool) (granted : List Text)
    (kinds : Option (List (Text × LeafKind))) where
  -- A missing deny inside the grant `within`.
  unfoldable pub materialize_deny : Text → Text → Option LeafKind → Result DenyFilter
  materialize_deny p within none = throw (unknown_kind p within)
  materialize_deny p within (some kind) =
      ok (record {
        kept = p ∷ [];
        dropped = [];
        materialize = record { path = p; kind = kind } ∷ [];
      })

  unfoldable pub missing_deny : Text → Option Text → Result DenyFilter
  missing_deny p none = ok (record { kept = []; dropped = p ∷ []; materialize = [] })
  missing_deny p (some within) = materialize_deny p within (resolve_deny_leaf_kind p kinds)

  -- The callback of the filter: what it keeps, drops and plans for one path.
  unfoldable pub filter_deny : Text → Result DenyFilter
  filter_deny p =
      if exists p
      then ok (record { kept = p ∷ []; dropped = []; materialize = [] })
      else missing_deny p (find (is_path_within p) granted)

  unfoldable pub filter_denies : List Text → Result DenyFilter
  filter_denies [] = ok no_denies
  filter_denies (p ∷ ps) = do
    first ← filter_deny p
    rest ← filter_denies ps
    ok (join_denies first rest)

abbrev pub option_denies : Option (List Text) → List Text → Option (List Text)
option_denies none kept = none
option_denies (some ps) kept = some kept

unfoldable pub surviving : (Text → Bool) → WinAppContainerGrants → List Text
surviving exists grants = filter exists grants.read_paths ++ filter exists grants.write_paths

-- The result, from the filtered deny paths.
unfoldable pub assembled : WinAppContainerGrants → (Text → Bool) → DenyFilter → Filtered
assembled grants exists denies = record {
  grants = record {
    read_paths = filter exists grants.read_paths;
    write_paths = filter exists grants.write_paths;
    deny_paths = option_denies grants.deny_paths denies.kept;
    deny_path_kinds = grants.deny_path_kinds;
  };
  dropped =
      filter (λ p. not (exists p)) (grants.read_paths ++ grants.write_paths) ++ denies.dropped;
  materialize = denies.materialize;
}

unfoldable pub filter_grants_to_existing_paths :
    WinAppContainerGrants → (Text → Bool) → Result Filtered
filter_grants_to_existing_paths grants exists = do
  denies ←
      filter_denies exists (surviving exists grants) grants.deny_path_kinds
        (or_empty grants.deny_paths)
  ok (assembled grants exists denies)
