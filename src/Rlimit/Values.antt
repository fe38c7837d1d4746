-- ===== src/Rlimit/Values.antt =====
-- rlimit.ts: the limit values and their derivation from the spawn's resources.
use convira_sandbox.Base.{
  ℕ, ◌+◌, ◌*◌, ◌/◌, min, max, Bool, ◌&&◌, Option, none, some, ltb, if◌then◌else◌,
}
use convira_sandbox.Types.{Thousandths, floor, Resources}

pub data ProcLimitFlag : Type 0 where
  u p : ProcLimitFlag

pub record RlimitValues : Type 0 where
  pub cpu_seconds : Option ℕ
  pub file_size_blocks : ℕ
  pub open_files : ℕ
  pub processes : ℕ
  pub vmem_kb : Option ℕ

abbrev pub default_cpu_seconds : ℕ
default_cpu_seconds = 600

abbrev pub cpu_seconds_per_wall_second : ℕ
cpu_seconds_per_wall_second = 4

abbrev pub min_cpu_seconds : ℕ
min_cpu_seconds = 4

abbrev pub max_cpu_seconds : ℕ
max_cpu_seconds = default_cpu_seconds * cpu_seconds_per_wall_second

abbrev pub default_file_size_blocks : ℕ
default_file_size_blocks = 8388608

abbrev pub default_open_files : ℕ
default_open_files = 1024

abbrev pub rlimit_nproc_headroom : ℕ
rlimit_nproc_headroom = 1024

-- `Math.ceil(timeoutMs / 1000)`, of a number of thousandths of a millisecond.
abbrev pub ceil_seconds : Thousandths → ℕ
ceil_seconds t = (t + 999999) / 1000000

cpu_budget : Option Thousandths → ℕ
cpu_budget none = default_cpu_seconds
cpu_budget (some t) =
    if ltb 0 t
    then min max_cpu_seconds (max min_cpu_seconds (ceil_seconds t * cpu_seconds_per_wall_second))
    else default_cpu_seconds

-- The spread `...(enforceMemory && memoryMb > 0 ? { vmemKb } : {})`.
vmem_cap : Bool → ℕ → Option ℕ
vmem_cap enforce_memory memory_mb =
    if enforce_memory && ltb 0 memory_mb then some (memory_mb * 1024) else none

unfoldable pub rlimit_values_from_resources : Resources → Bool → RlimitValues
unfolding cpu_budget vmem_cap
rlimit_values_from_resources resources enforce_memory = record {
  cpu_seconds = if resources.long_lived then none else some (cpu_budget resources.timeout_ms);
  file_size_blocks = default_file_size_blocks;
  open_files = default_open_files;
  processes = rlimit_nproc_headroom + max 1 (floor resources.max_processes);
  vmem_kb = vmem_cap enforce_memory (floor resources.memory_mb);
}
