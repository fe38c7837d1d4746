-- ===== src/Linux/Entry.antt =====
-- native-linux.ts: what the command line of a spawn ends in.
use convira_sandbox.Base.{
  true, false, none, some, List, ◌∷◌, ◌++◌, ◌≡◌, ◌⊎◌, inl, inr, arith, flat_map, Bool-cases,
  Option-cases, sym,
}
use convira_sandbox.Base.Text.{Text, codes}
use convira_sandbox.Base.Result.{ok, Result-cases, returned_through}
use convira_sandbox.Types.{SandboxSpawnConfig, SpawnSpec}
use convira_sandbox.Host.{Host}
use convira_sandbox.Rlimit.Values.{ProcLimitFlag, rlimit_values_from_resources}
use convira_sandbox.Rlimit.Script.{wrap_with_rlimit, build_rlimit_script, rlimit_shell_path}
use convira_sandbox.Rlimit.Probing.{RlimitProbeResult}
use convira_sandbox.Linux.Mounts.{BwrapArg, render}
use convira_sandbox.Linux.Launcher.{Environment, LauncherState, find_bwrap}
use convira_sandbox.Linux.Spawn.{
  SeccompFd, filesystem_args, isolation_args, entry, entry_with, wrap_spawn_with, wrap_spawn,
}

plain_entry :
    (rlimit : RlimitProbeResult) (config : SandboxSpawnConfig) (inner : List Text)
    → (rlimit.ok ≡ false) ⊎ (rlimit.proc_flag ≡ none)
    → entry rlimit config ≡ ok inner
    → config.command ∷ config.args ≡ inner
unfolding entry entry_with
plain_entry rlimit config inner cause h = ground arith

wraps :
    (rlimit : RlimitProbeResult) (config : SandboxSpawnConfig) (flag : ProcLimitFlag)
    (inner : List Text)
    → rlimit.ok ≡ true
    → rlimit.proc_flag ≡ some flag
    → entry rlimit config ≡ ok inner
    → entry_with config (some flag) ≡ ok inner
unfolding entry
wraps rlimit config flag inner on found h = ground arith

wrapped_entry :
    (config : SandboxSpawnConfig) (flag : ProcLimitFlag) (inner : List Text)
    → entry_with config (some flag) ≡ ok inner
    → (script : Text) × (build_rlimit_script
          (rlimit_values_from_resources config.resources true)
          flag
        ≡ ok script)
      × (inner ≡ rlimit_shell_path ∷ codes "-c" ∷ script ∷ config.command ∷ config.args)
unfolding entry_with wrap_with_rlimit
wrapped_entry config flag inner h =
    elim (Result-cases
      (build_rlimit_script (rlimit_values_from_resources config.resources true) flag)) [
        | inl (script, built) ↦ (script, built, ground arith)
        | inr (e, failed) ↦ absurd (ground arith)
      ]

-- The innermost command line: the limit script in front of the command and its arguments where the
-- probe holds and named a process flag, else the command and its arguments alone.
abbrev pub IsEntry : RlimitProbeResult → SandboxSpawnConfig → List Text → Type 0
IsEntry rlimit config inner =
    ((rlimit.ok ≡ false) ⊎ (rlimit.proc_flag ≡ none)) × (inner ≡ config.command ∷ config.args)
    ⊎ ((flag : ProcLimitFlag) × (script : Text) × (rlimit.ok ≡ true)
        × (rlimit.proc_flag ≡ some flag)
        × (build_rlimit_script (rlimit_values_from_resources config.resources true) flag
            ≡ ok script)
        × (inner ≡ rlimit_shell_path ∷ codes "-c" ∷ script ∷ config.command ∷ config.args))

entry-IsEntry :
    (rlimit : RlimitProbeResult) (config : SandboxSpawnConfig) (inner : List Text)
    → entry rlimit config ≡ ok inner
    → IsEntry rlimit config inner
unfolding entry
entry-IsEntry rlimit config inner h = elim (Bool-cases rlimit.ok) [
  | inl on ↦ elim (Option-cases rlimit.proc_flag) [
    | inl missing ↦ inl (inr missing, sym (plain_entry rlimit config inner (inr missing) h))
    | inr (flag, found) ↦
        let (script, built, ends) =
          wrapped_entry config flag inner (wraps rlimit config flag inner on found h) in
        inr (flag, script, on, found, built, ends)
  ]
  | inr off ↦ inl (inl off, sym (plain_entry rlimit config inner (inl off) h))
]

-- A spawn of the launcher that was found: the mounts of the grants and the isolation come first, then
-- the innermost command line, in the caller's environment and directory.
abbrev pub IsEntered :
    Host
    → Environment
    → SeccompFd
    → RlimitProbeResult
    → SandboxSpawnConfig
    → LauncherState
    → SpawnSpec
    → Type 0
IsEntered host env get_seccomp_fd rlimit config s spec =
    ((find_bwrap host env s).0 ≡ some spec.command)
    × (spec.env ≡ config.env)
    × (spec.cwd ≡ config.cwd)
    × (mounts : List BwrapArg) × (filesystem_args host config.filesystem ≡ ok mounts)
    × (inner : List Text) × IsEntry rlimit config inner
    × (spec.args
        ≡ flat_map render (mounts ++ isolation_args get_seccomp_fd config) ++ codes "--" ∷ inner)

wrapped-IsEntered :
    (host : Host) (get_seccomp_fd : SeccompFd) (rlimit : RlimitProbeResult) (bwrap : Text)
    (config : SandboxSpawnConfig) (spec : SpawnSpec)
    → wrap_spawn_with host get_seccomp_fd rlimit bwrap config ≡ ok spec
    → (spec.command ≡ bwrap)
      × (spec.env ≡ config.env)
      × (spec.cwd ≡ config.cwd)
      × (mounts : List BwrapArg) × (filesystem_args host config.filesystem ≡ ok mounts)
      × (inner : List Text) × IsEntry rlimit config inner
      × (spec.args
          ≡ flat_map render (mounts ++ isolation_args get_seccomp_fd config) ++ codes "--" ∷ inner)
unfolding wrap_spawn_with
wrapped-IsEntered host get_seccomp_fd rlimit bwrap config spec h =
    let (mounts, granted, more) = returned_through (filesystem_args host config.filesystem) _ h in
    let (inner, entered, last) = returned_through (entry rlimit config) _ more in
    (
      ground arith,
      ground arith,
      ground arith,
      mounts,
      granted,
      inner,
      entry-IsEntry rlimit config inner entered,
      ground arith,
    )

-- A Linux spawn that is granted runs the bubblewrap that was found in the caller's environment and
-- directory, and its command line ends, behind the mounts and the isolation, in the command and its
-- arguments verbatim: behind the limit script of the spawn's resources if the rlimit probe holds
-- with a process flag, and as they are only if it does not.
pub wrap_spawn-IsEntered :
    (host : Host) (env : Environment) (get_seccomp_fd : SeccompFd) (rlimit : RlimitProbeResult)
    (config : SandboxSpawnConfig) (s : LauncherState) (spec : SpawnSpec)
    → (wrap_spawn host env get_seccomp_fd rlimit config s).0 ≡ ok spec
    → IsEntered host env get_seccomp_fd rlimit config s spec
unfolding wrap_spawn
wrap_spawn-IsEntered host env get_seccomp_fd rlimit config s spec h =
    elim (Option-cases (find_bwrap host env s).0) [
      | inl missing ↦ absurd (ground arith)
      | inr (bwrap, found) ↦
          let (named, same_env, same_cwd, mounts, granted, inner, entered, args) =
            wrapped-IsEntered host get_seccomp_fd rlimit bwrap config spec (ground arith) in
          (cc (found, named), same_env, same_cwd, mounts, granted, inner, entered, args)
    ]
