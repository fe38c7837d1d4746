-- ===== src/Types.antt =====
-- packages/sandbox-runtime/src/types.ts: the spawn configuration, the spawn specification and the
-- capability reports. A `Record<string, T>` is an association list, an optional field an `Option`.
use convira_sandbox.Base.{ℕ, Bool, Option, List, ◌/◌}
use convira_sandbox.Base.Text.{Text}

-- A non-negative JavaScript number with three decimals, in thousandths.
abbrev pub Thousandths : Type 0
Thousandths = ℕ

-- `Math.floor`.
abbrev pub floor : Thousandths → ℕ
floor x = x / 1000

pub data LeafKind : Type 0 where
  file dir : LeafKind

pub LeafKind-discrete : Discrete LeafKind
LeafKind-discrete = hlevel

pub record Filesystem : Type 0 where
  pub read_paths : List Text
  pub write_paths : List Text
  pub deny_paths : Option (List Text)
  pub deny_path_kinds : Option (List (Text × LeafKind))

pub record Network : Type 0 where
  pub enabled : Bool
  pub allow_loopback : Bool

-- `longLived` is optional in the source, where `undefined` and `false` mean the same.
pub record Resources : Type 0 where
  pub memory_mb : Thousandths
  pub max_processes : Thousandths
  pub timeout_ms : Option Thousandths
  pub long_lived : Bool

pub data SeccompProfileName : Type 0 where
  gateway execute_code : SeccompProfileName

pub record LandlockRuleset : Type 0 where
  pub read_only : List Text
  pub read_write : List Text

pub record KernelHardening : Type 0 where
  pub seccomp_profile : Option SeccompProfileName
  pub landlock_ruleset : Option LandlockRuleset

pub record SandboxSpawnConfig : Type 0 where
  pub command : Text
  pub args : List Text
  pub cwd : Text
  pub env : List (Text × Text)
  pub filesystem : Filesystem
  pub network : Network
  pub resources : Resources
  pub kernel_hardening : Option KernelHardening

pub record WinJobObjectLimits : Type 0 where
  pub memory_limit_mb : Option ℕ
  pub max_processes : Option ℕ
  pub cpu_time_ms : Option ℕ
  pub kill_on_close : Bool

-- What the two closures do that the Windows adapter passes as `postSpawnHook`.
pub data PostSpawnHook : Type 0 where
  attach_to_job : WinJobObjectLimits → PostSpawnHook
  warn_unlimited : PostSpawnHook

pub record SpawnSpec : Type 0 where
  pub command : Text
  pub args : List Text
  pub env : List (Text × Text)
  pub cwd : Text
  pub post_spawn_hook : Option PostSpawnHook

pub record SandboxCapabilities : Type 0 where
  pub filesystem_isolation : Bool
  pub network_isolation : Bool
  pub resource_limits : Bool

pub data MemoryEnforcementTier : Type 0 where
  hard_address_space rss_watchdog no_memory_limit : MemoryEnforcementTier

pub record ExecutionCapabilityReportV2 : Type 0 where
  pub adapter : Text
  pub memory : MemoryEnforcementTier
  pub cpu : Bool
  pub pids : Bool
  pub file_size : Bool
  pub wall_clock_kill : Bool
  pub kill_tree : Bool
  pub filesystem_isolation : Bool
  pub network_isolation : Bool

pub data IsolationMode : Type 0 where
  auto native off : IsolationMode
