-- ===== src/Running.antt =====
-- A spawn from the choice of the adapter on: detect.ts, the availability of each adapter and its
-- wrapSpawn, composed as a caller of packages/sandbox-runtime/src/index.ts composes them.
pub mod Contained
mod Examples
use convira_sandbox.Base.{Bool, true, Option, List}
use convira_sandbox.Base.Text.{Text}
use convira_sandbox.Base.Result.{Result, ok, throw, ◌>>=◌}
use convira_sandbox.Types.{SandboxSpawnConfig, SpawnSpec, IsolationMode}
use convira_sandbox.Host.{Host}
use convira_sandbox.Rlimit.Probing.{RlimitProbeResult}
use convira_sandbox.Selection.Detect.{
  Platform, Adapter, linux_adapter, macos_adapter, windows_adapter, passthrough_adapter, Machine,
  detect_adapter,
}
use convira_sandbox.Selection.Passthrough as Passthrough
use convira_sandbox.Linux.Launcher.{Environment, LauncherState, is_linux_sandbox_available}
use convira_sandbox.Linux.Spawn as Linux
use convira_sandbox.Macos.Spawn as Macos
use convira_sandbox.Windows.Available as WindowsAvailable
use convira_sandbox.Windows.Spawn as Windows
use convira_sandbox.AppContainer.Prepare.{FsCall}

-- What the adapters ask of a host; `sandbox_exec` is the answer of `isSandboxExecAvailable`.
pub record Hosts : Type 0 where
  pub platform : Platform
  pub platform_name : Text
  pub proc_version : Option Text
  pub host : Host
  pub env : Environment
  pub get_seccomp_fd : Linux.SeccompFd
  pub rlimit_probe : RlimitProbeResult
  pub sandbox_exec : Bool
  pub mac : Macos.Mac
  pub windows : Windows.Machine

-- `available()` of each adapter.
unfoldable pub available : Hosts → LauncherState → Adapter → Bool
available hosts s linux_adapter = (is_linux_sandbox_available hosts.host hosts.env s).0
available hosts s macos_adapter = hosts.sandbox_exec
available hosts s windows_adapter =
    (WindowsAvailable.windows_sandbox_available hosts.windows.verdicts).0
available hosts s passthrough_adapter = true

abbrev pub machine_of : Hosts → LauncherState → Machine
machine_of hosts s = record {
  platform = hosts.platform;
  platform_name = hosts.platform_name;
  proc_version = hosts.proc_version;
  available = available hosts s;
}

-- The launcher's memo after `available()` of the Linux adapter.
abbrev pub asked : Hosts → LauncherState → LauncherState
asked hosts s = (is_linux_sandbox_available hosts.host hosts.env s).1

abbrev pub windows_spec : Result (SpawnSpec × List FsCall) → Result SpawnSpec
windows_spec (throw message) = throw message
windows_spec (ok (spec, calls)) = ok spec

-- `adapter.wrapSpawn(config)`.
unfoldable pub wrap_by : Hosts → LauncherState → SandboxSpawnConfig → Adapter → Result SpawnSpec
wrap_by hosts s config linux_adapter =
    (Linux.wrap_spawn hosts.host hosts.env hosts.get_seccomp_fd hosts.rlimit_probe config
      (asked hosts s)).0
wrap_by hosts s config macos_adapter = Macos.wrap_spawn hosts.mac hosts.rlimit_probe config
wrap_by hosts s config windows_adapter = windows_spec (Windows.wrap_spawn hosts.windows config)
wrap_by hosts s config passthrough_adapter = ok (Passthrough.wrap_spawn Passthrough.fresh config).0

unfoldable pub start : Hosts → IsolationMode → LauncherState → SandboxSpawnConfig → Result SpawnSpec
start hosts mode s config = do
  adapter ← detect_adapter (machine_of hosts s) mode
  wrap_by hosts s config adapter
