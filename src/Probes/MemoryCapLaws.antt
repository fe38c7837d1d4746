-- ===== src/Probes/MemoryCapLaws.antt =====
-- probes.ts: the probe of the hard memory cap returns, and passes exactly on both of its legs.
use convira_sandbox.Base.{ℕ, ◌&&◌, Bool, true, some, List, ◌∷◌, ◌≡◌}
use convira_sandbox.Base.Text.{Text, codes}
use convira_sandbox.Base.Result.{ok}
use convira_sandbox.Rlimit.Values.{ProcLimitFlag}
use convira_sandbox.Rlimit.Script.{rlimit_shell_path, render_script, limit_entries}
use convira_sandbox.Rlimit.Probing.{RlimitProbeResult}
use convira_sandbox.Probes.MemoryCap.{
  SpawnReturns, Allocated, outcome, probe_base_values, dd_args, allocated, failed, is_failed,
  is_allocated,
}

-- The arguments of the shell that allocates `alloc_mib` MiB under a limit of `vmem_kb` KiB.
abbrev pub leg_args : ℕ → ℕ → ProcLimitFlag → List Text
leg_args vmem_kb alloc_mib flag =
    codes "-c"
    ∷ render_script (limit_entries (probe_base_values vmem_kb) flag)
    ∷ rlimit_shell_path
    ∷ dd_args alloc_mib

module _ (probe : RlimitProbeResult) (spawn_sync : Text → List Text → SpawnReturns) where
  -- What a leg comes to, by its command line.
  abbrev pub leg : ℕ → ℕ → ProcLimitFlag → Allocated
  leg vmem_kb alloc_mib flag =
      outcome (spawn_sync rlimit_shell_path (leg_args vmem_kb alloc_mib flag))

  -- Both legs ran under a limit that the rlimit probe had proven, with the outcomes that it needs.
  abbrev pub IsCapped : Type 0
  IsCapped =
      (flag : ProcLimitFlag) × (probe.ok ≡ true)
      × (probe.proc_flag ≡ some flag)
      × (leg 65536 256 flag ≡ failed)
      × (leg 1048576 64 flag ≡ allocated)

  -- Whether both legs end as the probe needs.
  abbrev both_legs : ProcLimitFlag → Bool
  both_legs flag = is_failed (leg 65536 256 flag) && is_allocated (leg 1048576 64 flag)
