-- ===== src/AppContainer/Sweep.antt =====
-- win-appcontainer.ts: the boot janitor over the ledger of orphaned profiles.
use convira_sandbox.Base.{
  ℕ, zero, suc, Bool, false, ◌&&◌, Option, none, some, List, [], ◌∷◌, ◌++◌, length, if◌then◌else◌,
}
use mathlib.Core.List.{reverse}
use convira_sandbox.Base.Text.{Text, codes, starts_with, ends_with, split, split_at}
use convira_sandbox.AppContainer.Prepare.{profile_prefix}

-- The calls of the janitor. An ACE is removed for a target and a profile.
pub data SweepCall : Type 0 where
  remove_ace : Text → Text → SweepCall
  delete_profile : Text → SweepCall
  remove_entry : Text → SweepCall

-- What the janitor meets: the ledger's entries or nothing if the directory cannot be read, the text
-- of an entry, and whether the deletion of a profile and the removal of an entry return.
pub record Ledger : Type 0 where
  pub entries : Option (List Text)
  pub read : Text → Option Text
  pub deletes : Text → Bool
  pub removes : Text → Bool

-- The target of one line: what stands behind the first tab, if that is not at the start.
target_of : Option (Text × Text) → List Text
target_of none = []
target_of (some ([], target)) = []
target_of (some (c ∷ verb, target)) = target ∷ []

unfoldable pub targets : List Text → List Text
unfolding target_of
targets [] = []
targets (l ∷ ls) = target_of (split_at b'\t' l) ++ targets ls

unfoldable pub ace_calls : Text → List Text → List SweepCall
ace_calls name [] = []
ace_calls name (target ∷ ts) = remove_ace target name ∷ ace_calls name ts

-- `entry.slice(0, -".grants".length)`.
drop_front : ℕ → Text → Text
drop_front zero s = s
drop_front (suc n) [] = []
drop_front (suc n) (c ∷ s) = drop_front n s

unfoldable pub profile_of : Text → Text
unfolding drop_front
profile_of entry = reverse (drop_front (length (codes ".grants")) (reverse entry))

unfoldable pub is_ledger_entry : Text → Bool
is_ledger_entry entry = starts_with entry profile_prefix && ends_with entry (codes ".grants")

-- One entry with its text: the calls made, and whether it counts as swept.
unfoldable pub sweep_text : Ledger → Text → Text → List SweepCall × Bool
sweep_text ledger entry raw =
    let name = profile_of entry in
    let aces = ace_calls name (targets (split b'\n' raw)) in
    if ledger.deletes name
    then (aces ++ delete_profile name ∷ remove_entry entry ∷ [], ledger.removes entry)
    else (aces ++ delete_profile name ∷ [], false)

unfoldable pub sweep_entry : Ledger → Text → List SweepCall × Bool
sweep_entry ledger entry =
    if is_ledger_entry entry
    then elim (ledger.read entry) [ none ↦ ([], false) | some raw ↦ sweep_text ledger entry raw ]
    else ([], false)

unfoldable pub sweep_entries : Ledger → List Text → List SweepCall × ℕ
sweep_entries ledger [] = ([], 0)
sweep_entries ledger (entry ∷ entries) =
    let (calls, swept) = sweep_entry ledger entry in
    let (more, count) = sweep_entries ledger entries in
    (calls ++ more, if swept then suc count else count)

-- `bound` says whether the native bindings are there, on this platform.
unfoldable pub sweep_orphaned_app_container_profiles : Bool → Ledger → List SweepCall × ℕ
sweep_orphaned_app_container_profiles bound ledger =
    if bound
    then elim ledger.entries [ none ↦ ([], 0) | some entries ↦ sweep_entries ledger entries ]
    else ([], 0)
