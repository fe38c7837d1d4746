-- ===== src/Selection/Passthrough.antt =====
-- packages/sandbox-runtime/src/adapters/passthrough.ts.
use convira_sandbox.Base.{ℕ, suc, Bool, true, false, none, List, [], ◌∷◌, if◌then◌else◌}
use convira_sandbox.Base.Text.{codes}
use convira_sandbox.Types.{
  SandboxSpawnConfig, SpawnSpec, SandboxCapabilities, ExecutionCapabilityReportV2, no_memory_limit,
}

unfoldable pub capabilities : SandboxCapabilities
capabilities = record {
  filesystem_isolation = false;
  network_isolation = false;
  resource_limits = false;
}

unfoldable pub capabilities_v2 : ExecutionCapabilityReportV2
capabilities_v2 = record {
  adapter = codes "passthrough";
  memory = no_memory_limit;
  cpu = false;
  pids = false;
  file_size = false;
  wall_clock_kill = false;
  kill_tree = false;
  filesystem_isolation = false;
  network_isolation = false;
}

-- Whether the warning was written already, and how often it was.
pub record Warnings : Type 0 where
  pub warned : Bool
  pub written : ℕ

abbrev pub fresh : Warnings
fresh = record { warned = false; written = 0 }

unfoldable pub warn : Warnings → Warnings
warn w = if w.warned then w else record { warned = true; written = suc w.written }

unfoldable pub wrap_spawn : Warnings → SandboxSpawnConfig → SpawnSpec × Warnings
wrap_spawn w config = (
  record {
    command = config.command;
    args = config.args;
    env = config.env;
    cwd = config.cwd;
    post_spawn_hook = none;
  },
  warn w,
)

unfoldable pub reset_passthrough_warning : Warnings → Warnings
reset_passthrough_warning w = record w { warned = false }

-- Several spawns in a row.
unfoldable pub wrap_spawns : Warnings → List SandboxSpawnConfig → List SpawnSpec × Warnings
wrap_spawns w [] = ([], w)
wrap_spawns w (config ∷ configs) =
    let (spec, later) = wrap_spawn w config in
    let (specs, last) = wrap_spawns later configs in (spec ∷ specs, last)
