-- ===== src/AppContainer/Filtering.antt =====
-- win-appcontainer.ts: what the filter to existing paths keeps of the grants.
use convira_sandbox.Base.{Bool, true, false, Option, List, ◌++◌, ◌≡◌, ◌⊎◌, all, any, All}
use convira_sandbox.Base.Text.{Text, ◌===◌, includes}
use convira_sandbox.Types.{LeafKind}
use convira_sandbox.AppContainer.Containing.{IsOutside}
use convira_sandbox.AppContainer.Grants.{
  WinAppContainerGrants, Filtered, Materialized, surviving, or_empty,
}

module _ (exists : Text → Bool) (granted : List Text)
    (kinds : Option (List (Text × LeafKind))) where
  -- A deny is kept, or it is missing and lies outside every surviving grant.
  abbrev pub IsDenied : List Text → Text → Type 0
  IsDenied kept p = (includes kept p ≡ true) ⊎ ((exists p ≡ false) × IsOutside granted p)

  -- A kept deny has an object on the host, or one that is to be created.
  abbrev pub HasObject : List Materialized → Text → Type 0
  HasObject planned p = (exists p ≡ true) ⊎ (any (λ m. m.path === p) planned ≡ true)

abbrev pub IsFiltered : WinAppContainerGrants → (Text → Bool) → Filtered → Type 0
IsFiltered grants exists f =
    (all exists (f.grants.read_paths ++ f.grants.write_paths) ≡ true)
    × All
        (IsDenied exists (surviving exists grants) grants.deny_path_kinds
          (or_empty f.grants.deny_paths))
        (or_empty grants.deny_paths)
    × All (HasObject exists (surviving exists grants) grants.deny_path_kinds f.materialize)
        (or_empty f.grants.deny_paths)
