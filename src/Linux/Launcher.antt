-- ===== src/Linux/Launcher.antt =====
-- native-linux.ts: the trusted bwrap binary, and whether the adapter is available.
use convira_sandbox.Base.{
  ℕ, Bool, true, false, not, ◌&&◌, ◌||◌, Option, none, some, List, [], ◌∷◌, ◌==◌, if◌then◌else◌,
}
use Prim.Native.Nat.{bit_and}
use convira_sandbox.Base.Text.{Text, codes, ◌===◌, split, trim, to_lower, starts_with}
use convira_sandbox.Host.{Host, exists_sync}
use convira_sandbox.NodePath.{path_join, is_absolute}

-- What the process knows besides the file system: `process.getuid` (absent on some platforms),
-- Electron's `process.resourcesPath`, the output of `which bwrap`, the kernel's switch for
-- unprivileged user namespaces, whether an environment variable of a package format is set, and the
-- text of /proc/1/cgroup.
pub record Environment : Type 0 where
  pub getuid : Option ℕ
  pub resources_path : Option Text
  pub which_bwrap : Option Text
  pub userns_clone : Option Text
  pub appimage : Bool
  pub snap : Bool
  pub flatpak_id : Bool
  pub cgroup : Option Text

-- `uid === undefined || st.uid !== uid`, negated.
owned_by : Option ℕ → ℕ → Bool
owned_by none owner = false
owned_by (some uid) owner = owner == uid

unfoldable pub stat_trusted : Host → Option ℕ → Text → Bool
unfolding owned_by
stat_trusted host getuid abs_path = elim (host.stat_sync abs_path) [
  | none ↦ false
  | some st ↦
      if not st.is_file
      then false
      else if not (bit_and st.mode 0o022 == 0)
      then false
      else if not (st.uid == 0) && not (owned_by getuid st.uid)
      then false
      else true
]

first_line : List Text → Text
first_line [] = []
first_line (line ∷ lines) = trim line

bundled_path : Option Text → Option Text
bundled_path none = none
bundled_path (some []) = none
bundled_path (some (c ∷ s)) = some (path_join (c ∷ s) (codes "bwrap"))

if_trusted_bundle : Host → Environment → Option Text → Option Text
if_trusted_bundle host env none = none
if_trusted_bundle host env (some bundled) =
    if exists_sync host bundled && stat_trusted host env.getuid bundled then some bundled else none

system_bwrap : Host → Environment → Option Text → Option Text
unfolding first_line
system_bwrap host env none = none
system_bwrap host env (some out) =
    let resolved = first_line (split b'\n' out) in
    if not (resolved === []) && is_absolute resolved && stat_trusted host env.getuid resolved
    then some resolved
    else none

-- A run of `findBwrap` with no path remembered.
unfoldable pub locate_bwrap : Host → Environment → Option Text
unfolding bundled_path if_trusted_bundle system_bwrap
locate_bwrap host env = elim (if_trusted_bundle host env (bundled_path env.resources_path)) [
  | some bundled ↦ some bundled
  | none ↦ system_bwrap host env env.which_bwrap
]

-- The module's `_bwrapPath` (`none` is `undefined`) and `_available` (`none` is `null`).
pub record LauncherState : Type 0 where
  pub bwrap_path : Option (Option Text)
  pub available : Option Bool

unfoldable pub find_bwrap : Host → Environment → LauncherState → Option Text × LauncherState
find_bwrap host env s = elim s.bwrap_path [
  | some known ↦ (known, s)
  | none ↦ (locate_bwrap host env, record s { bwrap_path = some (locate_bwrap host env) })
]

unfoldable pub can_create_user_namespace : Environment → Bool
can_create_user_namespace env = elim env.userns_clone [
  | none ↦ true
  | some val ↦ trim val === codes "1"
]

-- `/flatpak|snap/i.test(cgroup)`.
contains : Text → Text → Bool
contains [] q = starts_with [] q
contains (c ∷ s) q = starts_with (c ∷ s) q || contains s q

names_confinement : Option Text → Bool
names_confinement none = false
names_confinement (some cgroup) =
    contains (to_lower cgroup) (codes "flatpak") || contains (to_lower cgroup) (codes "snap")

unfoldable pub is_confined : Environment → Bool
unfolding names_confinement contains
is_confined env =
    if env.appimage || env.snap || env.flatpak_id then true else names_confinement env.cgroup

check_found : Environment → Option Text → Bool
check_found env none = false
check_found env (some []) = false
check_found env (some (c ∷ path)) =
    if not (can_create_user_namespace env) then false else not (is_confined env)

unfoldable pub check_available : Host → Environment → LauncherState → Bool × LauncherState
unfolding check_found
check_available host env s = let (bwrap, s') = find_bwrap host env s in (check_found env bwrap, s')

remember : Bool × LauncherState → Bool × LauncherState
remember (available, s) = (available, record s { available = some available })

unfoldable pub is_linux_sandbox_available :
    Host → Environment → LauncherState → Bool × LauncherState
unfolding remember
is_linux_sandbox_available host env s = elim s.available [
  | some known ↦ (known, s)
  | none ↦ remember (check_available host env s)
]

unfoldable pub reset_linux_adapter_cache : LauncherState → LauncherState
reset_linux_adapter_cache s = record { bwrap_path = none; available = none }
