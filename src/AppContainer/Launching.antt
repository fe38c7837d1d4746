-- ===== src/AppContainer/Launching.antt =====
-- win-appcontainer.ts: a probe payload inside a fresh AppContainer, and what is cleaned up after it.
use convira_sandbox.Base.{
  ℕ, zero, suc, Bool, Option, none, some, List, [], ◌∷◌, ◌++◌, ◌≡◌, inl, inr, arith, map,
  Option-cases, if◌then◌else◌,
}
use convira_sandbox.Base.Text.{Text, codes}
use convira_sandbox.Base.Result.{Result, ok, throw, Result-cases}
use convira_sandbox.AppContainer.Grants.{WinAppContainerGrants}
use convira_sandbox.AppContainer.Prepare.{
  Files, FsCall, PreparedAppContainerSpawn, prepare_app_container_spawn,
}
use convira_sandbox.ProbePayload.{ProbeVerb, ProbePayloadHost, probe_payload_argv}

-- What a probe does to the host: a call on the file system, the start of a command with its
-- arguments, a kill, the removal of a path, the deletion of a profile.
pub data Effect : Type 0 where
  file_call : FsCall → Effect
  start : Text → List Text → Effect
  kill : ℕ → Effect
  remove : Text → Effect
  delete_profile : Text → Effect

pub record LauncherSpawn : Type 0 where
  pub launcher_pid : ℕ
  pub profile_name : Text
  pub grants_file : Text

-- `allowNetwork`, `probeReportFile` and `cwd`.
pub record LaunchOptions : Type 0 where
  pub allow_network : Bool
  pub probe_report_file : Option Text
  pub cwd : Option Text

-- What a launch meets: the files, the payload host, and the pid of a command that is started with
-- these arguments in this directory (nothing if `spawn` throws or gives no pid).
pub record LaunchHost : Type 0 where
  pub files : Files
  pub host : Option ProbePayloadHost
  pub pid_of : Text → List Text → Option Text → Option ℕ

report_args : Option Text → List Text
report_args none = []
report_args (some file) = codes "--probe-report" ∷ file ∷ []

unfoldable pub launch_args :
    PreparedAppContainerSpawn → LaunchOptions → ProbePayloadHost → ProbeVerb → List Text → List Text
unfolding report_args
launch_args prepared options host verb verb_args =
    prepared.profile_name
    ∷ prepared.grants_file
    ∷ ((if options.allow_network then codes "--allow-network" ∷ [] else [])
        ++ (report_args options.probe_report_file
            ++ codes "--" ∷ host.command ∷ probe_payload_argv host verb verb_args))

-- The grants of a payload: those of the probe with what the payload itself reads.
unfoldable pub payload_grants : ProbePayloadHost → List Text → List Text → WinAppContainerGrants
payload_grants host read_paths write_paths = record {
  read_paths = read_paths ++ host.read_grants;
  write_paths = write_paths;
  deny_paths = none;
  deny_path_kinds = none;
}

started : PreparedAppContainerSpawn → Option ℕ → Option LauncherSpawn
started prepared none = none
started prepared (some pid) = some (record {
  launcher_pid = pid;
  profile_name = prepared.profile_name;
  grants_file = prepared.grants_file;
})

module _ (world : LaunchHost) (launcher : Text) where
  start_prepared :
      LaunchOptions
      → ProbeVerb
      → List Text
      → ProbePayloadHost
      → Result (PreparedAppContainerSpawn × List FsCall)
      → Option LauncherSpawn × List Effect
  start_prepared options verb verb_args host (throw message) = (none, [])
  start_prepared options verb verb_args host (ok (prepared, calls)) =
      let args = launch_args prepared options host verb verb_args in
      (
        started prepared (world.pid_of launcher args options.cwd),
        map file_call calls ++ start launcher args ∷ [],
      )

  -- `spawnViaLauncher`; no probe passes deny paths.
  unfoldable pub spawn_via_launcher :
      List Text
      → List Text
      → LaunchOptions
      → ProbeVerb
      → List Text
      → Option LauncherSpawn × List Effect
  unfolding started start_prepared
  spawn_via_launcher read_paths write_paths options verb verb_args = elim world.host [
    | none ↦ (none, [])
    | some host ↦
        start_prepared options verb verb_args host
          (prepare_app_container_spawn world.files (payload_grants host read_paths write_paths))
  ]

  -- A launcher that was started on a prepared profile with the grants asked for, and no others.
  abbrev pub IsLaunched :
      List Text → List Text → LaunchOptions → ProbeVerb → List Text → LauncherSpawn → Type 0
  IsLaunched read_paths write_paths options verb verb_args spawned =
      (host : ProbePayloadHost) × (world.host ≡ some host)
      × (prepared : PreparedAppContainerSpawn) × (calls : List FsCall)
      × (prepare_app_container_spawn world.files (payload_grants host read_paths write_paths)
          ≡ ok (prepared, calls))
      × (world.pid_of launcher (launch_args prepared options host verb verb_args) options.cwd
          ≡ some spawned.launcher_pid)
      × (spawned.profile_name ≡ prepared.profile_name)
      × (spawned.grants_file ≡ prepared.grants_file)

  pub spawn_via_launcher-IsLaunched :
      (read_paths write_paths : List Text) (options : LaunchOptions) (verb : ProbeVerb)
      (verb_args : List Text) (spawned : LauncherSpawn)
      → (spawn_via_launcher read_paths write_paths options verb verb_args).0 ≡ some spawned
      → IsLaunched read_paths write_paths options verb verb_args spawned
  unfolding spawn_via_launcher
  spawn_via_launcher-IsLaunched read_paths write_paths options verb verb_args spawned h =
      elim (Option-cases world.host) [
        | inl absent ↦ absurd (ground arith)
        | inr (host, there) ↦
            elim (Result-cases (
              prepare_app_container_spawn world.files
                (payload_grants host read_paths write_paths))) [
                  | inl ((prepared, calls), done) ↦
                      elim (Option-cases (
                        world.pid_of launcher (launch_args prepared options host verb verb_args)
                          options.cwd)) [
                            | inl no_pid ↦ absurd (ground arith)
                            | inr (pid, ran) ↦ (
                              host,
                              there,
                              prepared,
                              calls,
                              done,
                              ground arith,
                              ground arith,
                              ground arith,
                            )
                          ]
                  | inr (message, failed) ↦ absurd (ground arith)
                ]
      ]

-- `killBestEffort`.
unfoldable pub kill_best_effort : Option ℕ → List Effect
kill_best_effort none = []
kill_best_effort (some zero) = []
kill_best_effort (some (suc pid)) = kill (suc pid) ∷ []

-- `cleanupLauncherSpawn`.
unfoldable pub cleanup_launcher_spawn : Option LauncherSpawn → List Effect
cleanup_launcher_spawn none = []
cleanup_launcher_spawn (some spawned) =
    kill_best_effort (some spawned.launcher_pid)
    ++ remove spawned.grants_file ∷ delete_profile spawned.profile_name ∷ []
