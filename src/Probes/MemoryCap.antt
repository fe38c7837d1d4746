-- ===== src/Probes/MemoryCap.antt =====
-- probes.ts: the two allocations under an address-space limit.
use convira_sandbox.Base.{
  ℕ, ◌+◌, Bool, true, false, not, Option, none, some, List, [], ◌∷◌, ◌++◌, ◌==◌, if◌then◌else◌,
}
use convira_sandbox.Base.Text.{Text, codes, ◌===◌}
use convira_sandbox.Base.Decimal.{to_decimal}
use convira_sandbox.Base.Result.{Result, ok, ◌>>=◌}
use convira_sandbox.Rlimit.Values.{ProcLimitFlag, RlimitValues, rlimit_nproc_headroom}
use convira_sandbox.Rlimit.Script.{rlimit_shell_path, wrap_with_rlimit}
use convira_sandbox.Rlimit.Probing.{RlimitProbeResult}

-- What `spawnSync` returns of a command.
pub record SpawnReturns : Type 0 where
  pub error : Bool
  pub status : Option ℕ
  pub signal : Option Text

pub data Allocated : Type 0 where
  allocated failed error : Allocated

unfoldable pub probe_base_values : ℕ → RlimitValues
probe_base_values vmem_kb = record {
  cpu_seconds = some 9;
  file_size_blocks = 8388608;
  open_files = 256;
  processes = rlimit_nproc_headroom + 16;
  vmem_kb = some vmem_kb;
}

-- One buffer of `alloc_mib` MiB.
unfoldable pub dd_args : ℕ → List Text
dd_args alloc_mib =
    codes "-c"
    ∷ (codes "exec dd if=/dev/zero of=/dev/null bs="
        ++ to_decimal alloc_mib
        ++ codes "M count=1 2>/dev/null")
    ∷ []

abbrev pub is_success : Option ℕ → Option Text → Bool
is_success (some status) none = status == 0
is_success _ _ = false

unfoldable pub outcome : SpawnReturns → Allocated
outcome returns =
    if returns.error
    then error
    else if is_success returns.status returns.signal
    then allocated
    else failed

abbrev pub is_failed : Allocated → Bool
is_failed failed = true
is_failed _ = false

abbrev pub is_allocated : Allocated → Bool
is_allocated allocated = true
is_allocated _ = false

-- `probe` is the result of `probeRlimitSupport`, `spawn_sync` what the spawned commands do.
module _ (probe : RlimitProbeResult) (spawn_sync : Text → List Text → SpawnReturns) where
  unfoldable pub limited_allocation : ℕ → ℕ → ProcLimitFlag → Result Allocated
  limited_allocation vmem_kb alloc_mib flag = do
    wrapped ←
        wrap_with_rlimit rlimit_shell_path (dd_args alloc_mib) (probe_base_values vmem_kb) flag
          rlimit_shell_path
    ok (outcome (spawn_sync wrapped.0 wrapped.1))

  unfoldable pub run_allocation : ℕ → ℕ → Result Allocated
  run_allocation vmem_kb alloc_mib = if not probe.ok then ok error else elim probe.proc_flag [
    | none ↦ ok error
    | some flag ↦ limited_allocation vmem_kb alloc_mib flag
  ]

  loose_leg : Result Bool
  loose_leg = do loose ← run_allocation 1048576 64; ok (is_allocated loose)

  unfoldable pub run_memory_hard_cap_probe : Text → Result Bool
  unfolding loose_leg
  run_memory_hard_cap_probe platform =
      if not (platform === codes "linux")
      then ok false
      else (do tight ← run_allocation 65536 256; if is_failed tight then loose_leg else ok false)
