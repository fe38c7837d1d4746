-- ===== src/Linux/Spawn.antt =====
-- native-linux.ts: `linuxAdapter.wrapSpawn`.
use convira_sandbox.Base.{
  ℕ, Bool, true, not, ◌&&◌, Option, none, some, List, [], ◌∷◌, ◌++◌, map, any, flat_map,
  if◌then◌else◌,
}
use convira_sandbox.Base.Text.{Text, codes, ◌===◌, includes}
use convira_sandbox.Base.Result.{Result, ok, throw, ◌>>=◌}
use convira_sandbox.Types.{
  SandboxSpawnConfig, SpawnSpec, Filesystem, KernelHardening, SeccompProfileName,
}
use convira_sandbox.Host.{Host, exists_sync}
use convira_sandbox.Rlimit.Values.{ProcLimitFlag, rlimit_values_from_resources}
use convira_sandbox.Rlimit.Script.{wrap_with_rlimit, rlimit_shell_path}
use convira_sandbox.Rlimit.Probing.{RlimitProbeResult}
use convira_sandbox.Linux.Mounts.{
  bind, ro_bind, dev_bind, BwrapArg, mount, proc, dev, tmpfs, unshare_pid, unshare_net,
  die_with_parent, new_session, seccomp, render, EmittedMount, mount_arg, is_device_node,
}
use convira_sandbox.Linux.Seal.{SealPlan, plan_seals, sort_by_depth, seal_all, overlays}
use convira_sandbox.Linux.Launcher.{Environment, LauncherState, find_bwrap}

abbrev pub system_read_paths : List Text
system_read_paths =
    codes "/usr" ∷ codes "/lib" ∷ codes "/lib64" ∷ codes "/bin" ∷ codes "/sbin" ∷ codes "/etc" ∷ []

unfoldable pub system_mounts : Host → List Text → List BwrapArg
system_mounts host [] = []
system_mounts host (p ∷ ps) =
    (if exists_sync host p then mount ro_bind p p ∷ [] else []) ++ system_mounts host ps

-- `seen.has(p)`: the source adds a path to `seen` exactly when it pushes a mount at it.
unfoldable pub seen : List EmittedMount → Text → Bool
seen emitted p = any (λ m. m.dest === p) emitted

-- The loop over the write paths.
unfoldable pub write_mounts : Host → List EmittedMount → List Text → List EmittedMount
write_mounts host emitted [] = emitted
write_mounts host emitted (p ∷ ps) =
    write_mounts host
      (if not (seen emitted p) && exists_sync host p
        then emitted
          ++ record {
            flag = if is_device_node host p then dev_bind else bind;
            source = p;
            dest = p;
          }
            ∷ []
        else emitted)
      ps

-- The loop over the read paths; a device is skipped.
unfoldable pub read_mounts : Host → List EmittedMount → List Text → List EmittedMount
read_mounts host emitted [] = emitted
read_mounts host emitted (p ∷ ps) =
    read_mounts host
      (if not (seen emitted p) && exists_sync host p && not (is_device_node host p)
        then emitted ++ record { flag = ro_bind; source = p; dest = p } ∷ []
        else emitted)
      ps

unfoldable pub granted_mounts : Host → Filesystem → List EmittedMount
granted_mounts host fs = read_mounts host (write_mounts host [] fs.write_paths) fs.read_paths

unfoldable pub add_deny : List Text → Text → List Text
add_deny deny_paths p = if includes deny_paths p then deny_paths else deny_paths ++ p ∷ []

unfoldable pub add_real : List Text → Option Text → List Text
add_real deny_paths none = deny_paths
add_real deny_paths (some real) = add_deny deny_paths real

-- Each request becomes the literal path and its real path.
unfoldable pub expand_denies : Host → List Text → List Text → List Text
expand_denies host deny_paths [] = deny_paths
expand_denies host deny_paths (requested ∷ more) =
    expand_denies host (add_real (add_deny deny_paths requested) (host.realpath_sync requested))
      more

abbrev pub or_empty : Option (List Text) → List Text
or_empty none = []
or_empty (some ps) = ps

unfoldable pub deny_list : Host → Filesystem → List Text
deny_list host fs = expand_denies host [] (or_empty fs.deny_paths)

abbrev pub empty_plan : SealPlan
empty_plan = record { targets = []; maskable = [] }

unfoldable pub seal_plan : Host → Filesystem → SealPlan
seal_plan host fs =
    plan_seals host (granted_mounts host fs) (deny_list host fs) empty_plan (deny_list host fs)

-- The arguments before the deny overlays: system paths, the pseudo file systems, the granted
-- mounts and the seals.
unfoldable pub exposed_args : Host → Filesystem → List BwrapArg → List BwrapArg
exposed_args host fs sealed =
    system_mounts host system_read_paths
    ++ (proc (codes "/proc")
        ∷ dev (codes "/dev")
        ∷ tmpfs (codes "/tmp")
        ∷ (map mount_arg (granted_mounts host fs) ++ sealed))

unfoldable pub overlay_args : Host → Filesystem → List BwrapArg
overlay_args host fs =
    overlays host fs.deny_path_kinds (seal_plan host fs).maskable (deny_list host fs)

unfoldable pub seal_args : Host → Filesystem → Result (List BwrapArg)
seal_args host fs =
    seal_all host (deny_list host fs) (granted_mounts host fs)
      (sort_by_depth (seal_plan host fs).targets)

-- The arguments of the file system, in the order of the source.
unfoldable pub filesystem_args : Host → Filesystem → Result (List BwrapArg)
filesystem_args host fs = do
  sealed ← seal_args host fs
  ok (exposed_args host fs sealed ++ overlay_args host fs)

-- `getSeccompFd` of the enforcer package: a descriptor, or nothing when it throws.
abbrev pub SeccompFd : Type 0
SeccompFd = SeccompProfileName → Option ℕ

seccomp_of : Option ℕ → List BwrapArg
seccomp_of none = []
seccomp_of (some fd) = seccomp fd ∷ []

seccomp_of_profile : SeccompFd → Option SeccompProfileName → List BwrapArg
seccomp_of_profile get_seccomp_fd none = []
seccomp_of_profile get_seccomp_fd (some profile) = seccomp_of (get_seccomp_fd profile)

unfoldable pub seccomp_args : SeccompFd → Option KernelHardening → List BwrapArg
unfolding seccomp_of seccomp_of_profile
seccomp_args get_seccomp_fd none = []
seccomp_args get_seccomp_fd (some hardening) =
    seccomp_of_profile get_seccomp_fd hardening.seccomp_profile

unfoldable pub isolation_args : SeccompFd → SandboxSpawnConfig → List BwrapArg
isolation_args get_seccomp_fd config =
    (unshare_pid ∷ (if config.network.enabled then [] else unshare_net ∷ []))
    ++ (die_with_parent ∷ new_session ∷ seccomp_args get_seccomp_fd config.kernel_hardening)

unfoldable pub entry_with : SandboxSpawnConfig → Option ProcLimitFlag → Result (List Text)
entry_with config none = ok (config.command ∷ config.args)
entry_with config (some flag) = do
  (command, args) ←
      wrap_with_rlimit config.command config.args
        (rlimit_values_from_resources config.resources true) flag rlimit_shell_path
  ok (command ∷ args)

-- The innermost command line, in the rlimit shell while the probe holds.
unfoldable pub entry : RlimitProbeResult → SandboxSpawnConfig → Result (List Text)
entry rlimit_probe config =
    if rlimit_probe.ok
    then entry_with config rlimit_probe.proc_flag
    else ok (config.command ∷ config.args)

-- `wrapSpawn` past the check of the launcher.
unfoldable pub wrap_spawn_with :
    Host → SeccompFd → RlimitProbeResult → Text → SandboxSpawnConfig → Result SpawnSpec
wrap_spawn_with host get_seccomp_fd rlimit_probe bwrap config = do
  mounts ← filesystem_args host config.filesystem
  inner ← entry rlimit_probe config
  ok (record {
    command = bwrap;
    args = flat_map render (mounts ++ isolation_args get_seccomp_fd config) ++ codes "--" ∷ inner;
    env = config.env;
    cwd = config.cwd;
    post_spawn_hook = none;
  })

with_launcher :
    Host → SeccompFd → RlimitProbeResult → SandboxSpawnConfig → Option Text → Result SpawnSpec
with_launcher host get_seccomp_fd rlimit_probe config none =
    throw (codes "[sandbox-runtime] bwrap not found")
with_launcher host get_seccomp_fd rlimit_probe config (some bwrap) =
    wrap_spawn_with host get_seccomp_fd rlimit_probe bwrap config

unfoldable pub wrap_spawn :
    Host
    → Environment
    → SeccompFd
    → RlimitProbeResult
    → SandboxSpawnConfig
    → LauncherState
    → Result SpawnSpec × LauncherState
unfolding with_launcher
wrap_spawn host env get_seccomp_fd rlimit_probe config s =
    let (bwrap, s') = find_bwrap host env s in
    (with_launcher host get_seccomp_fd rlimit_probe config bwrap, s')
