-- ===== src/Linux/Mounts.antt =====
-- native-linux.ts: the arguments of bubblewrap, the mounts already emitted, and the mount that
-- governs a path. Each `args.push` call of the source is one value of `BwrapArg`.
use convira_sandbox.Base.{
  ℕ, zero, suc, Bool, true, false, ◌||◌, Option, none, some, List, [], ◌∷◌, ◌++◌, length,
  if◌then◌else◌,
}
use convira_sandbox.Base.Text.{Text, codes, ◌===◌, starts_with}
use convira_sandbox.Base.Decimal.{to_decimal}
use convira_sandbox.Host.{Host, exists_sync, is_directory}
use convira_sandbox.NodePath.{dirname}

pub data BindFlag : Type 0 where
  bind ro_bind dev_bind : BindFlag

pub data BwrapArg : Type 0 where
  mount : BindFlag → Text → Text → BwrapArg
  proc : Text → BwrapArg
  dev : Text → BwrapArg
  tmpfs : Text → BwrapArg
  unshare_pid : BwrapArg
  unshare_net : BwrapArg
  die_with_parent : BwrapArg
  new_session : BwrapArg
  seccomp : ℕ → BwrapArg

unfoldable pub flag_text : BindFlag → Text
flag_text bind = codes "--bind"
flag_text ro_bind = codes "--ro-bind"
flag_text dev_bind = codes "--dev-bind"

-- The strings that one `args.push` appends.
unfoldable pub render : BwrapArg → List Text
unfolding flag_text
render (mount flag source dest) = flag_text flag ∷ source ∷ dest ∷ []
render (proc d) = codes "--proc" ∷ d ∷ []
render (dev d) = codes "--dev" ∷ d ∷ []
render (tmpfs d) = codes "--tmpfs" ∷ d ∷ []
render unshare_pid = codes "--unshare-pid" ∷ []
render unshare_net = codes "--unshare-net" ∷ []
render die_with_parent = codes "--die-with-parent" ∷ []
render new_session = codes "--new-session" ∷ []
render (seccomp fd) = codes "--seccomp" ∷ to_decimal fd ∷ []

pub record EmittedMount : Type 0 where
  pub flag : BindFlag
  pub source : Text
  pub dest : Text

abbrev pub mount_arg : EmittedMount → BwrapArg
mount_arg m = mount m.flag m.source m.dest

unfoldable pub is_device_node : Host → Text → Bool
is_device_node host target = elim (host.stat_sync target) [
  | none ↦ false
  | some st ↦ st.is_character_device || st.is_block_device
]

unfoldable pub is_writable_bind : BindFlag → Bool
is_writable_bind bind = true
is_writable_bind ro_bind = false
is_writable_bind dev_bind = true

-- `p === dest || p.startsWith(dest + path.sep)`.
unfoldable pub within : Text → Text → Bool
within p dest = p === dest || starts_with p (dest ++ codes "/")

-- The loop runs from the last mount down.
unfoldable pub governing_mount : List EmittedMount → Text → Option EmittedMount
governing_mount [] p = none
governing_mount (m ∷ emitted) p = elim (governing_mount emitted p) [
  | some later ↦ some later
  | none ↦ if within p m.dest then some m else none
]

-- The loop of `deepestExistingDirBelow` from `current`; `none` when the fuel is used up.
unfoldable pub deepest_from : Host → ℕ → Text → Text → Option (Option Text)
deepest_from host zero mount_dest current = none
deepest_from host (suc fuel) mount_dest current =
    let up = deepest_from host fuel mount_dest (dirname current) in
    if exists_sync host current
    then some (if is_directory (host.stat_sync current) then some current else none)
    else if current === mount_dest || dirname current === current
    then some none
    else up

-- Every round shortens the path, so its length plus one is enough fuel.
unfoldable pub deepest_existing_dir_below : Host → Text → Text → Option Text
deepest_existing_dir_below host mount_dest target =
    elim (deepest_from host (suc (suc (length target))) mount_dest (dirname target)) [
      | none ↦ none
      | some found ↦ found
    ]
