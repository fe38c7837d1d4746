-- ===== src/AppContainer/Loading.antt =====
-- win-appcontainer.ts: loading the bindings and finding the launcher.
use convira_sandbox.Base.{
  ℕ, Bool, false, not, ◌&&◌, ◌||◌, Option, none, some, [], ◌∷◌, ◌++◌, ltb, ◌==◌, if◌then◌else◌,
}
use convira_sandbox.Base.Text.{Text, codes, ◌===◌}

-- What the base addon offers: its four AppContainer functions, and its ABI version (nothing when
-- `getInfo` throws).
pub record Addon : Type 0 where
  pub has_create_profile : Bool
  pub has_derive_sid : Bool
  pub has_delete_profile : Bool
  pub has_remove_ace : Bool
  pub abi_version : Option ℕ

recent : Option ℕ → Bool
recent none = false
recent (some version) = not (ltb version 2)

usable : Option Addon → Bool
unfolding recent
usable none = false
usable (some addon) =
    if not addon.has_create_profile
      || not addon.has_derive_sid
      || not addon.has_delete_profile
      || not addon.has_remove_ace
    then false
    else recent addon.abi_version

-- Whether `loadWinAppContainerBindings` returns bindings. The override (`none` is `undefined`)
-- answers first.
unfoldable pub load_win_app_container_bindings : Option Bool → Bool → Option Addon → Bool
unfolding usable
load_win_app_container_bindings override is_win32 base = elim override [
  | some pinned ↦ pinned
  | none ↦ if is_win32 then usable base else false
]

-- What stands behind the marker in a text that begins with it.
unfoldable pub behind : Text → Text → Option Text
behind [] s = some s
behind (d ∷ marker) [] = none
behind (d ∷ marker) (c ∷ s) = if c == d then behind marker s else none

-- `target.indexOf(marker)`, as what stands before the marker and behind it.
unfoldable pub cut_at : Text → Text → Option (Text × Text)
cut_at marker [] = none
cut_at marker (c ∷ s) =
    let rest = cut_at marker s in
    elim (behind marker (c ∷ s)) [
      | some after ↦ some ([], after)
      | none ↦ elim rest [ none ↦ none | some (before, after) ↦ some (c ∷ before, after) ]
    ]

asar : Text → Text
asar separator = codes "app.asar" ++ separator

unpacked : Text → Text
unpacked separator = codes "app.asar.unpacked" ++ separator

-- The path with the first archive marker replaced, for each separator in turn.
unfoldable pub unpacked_twin_path : Text → Text
unfolding asar unpacked
unpacked_twin_path target = elim (cut_at (asar (codes "\\")) target) [
  | some (before, after) ↦ before ++ (unpacked (codes "\\") ++ after)
  | none ↦ elim (cut_at (asar (codes "/")) target) [
    | some (before, after) ↦ before ++ (unpacked (codes "/") ++ after)
    | none ↦ target
  ]
]

-- `launcherCandidatePath` with no path remembered: `raw` is the path beside the module, or nothing
-- when the module's URL is no file.
unfoldable pub launcher_candidate_path : (Text → Bool) → Option Text → Option Text
launcher_candidate_path exists none = none
launcher_candidate_path exists (some raw) =
    let twin = unpacked_twin_path raw in
    some (if not (twin === raw) && exists twin then twin else raw)

present : (Text → Bool) → Option Text → Option Text
present exists none = none
present exists (some candidate) = if exists candidate then some candidate else none

unfoldable pub resolve_win_app_container_launcher :
    Option (Option Text) → Bool → (Text → Bool) → Option Text → Option Text
unfolding present
resolve_win_app_container_launcher override is_win32 exists raw = elim override [
  | some pinned ↦ pinned
  | none ↦ if is_win32 then present exists (launcher_candidate_path exists raw) else none
]
