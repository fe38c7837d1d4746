-- ===== src/Windows/Examples.antt =====
-- One Windows spawn through the launcher.
use convira_sandbox.Base.{true, false, none, some, List, [], ◌∷◌, ◌++◌, ◌≡◌}
use convira_sandbox.Base.Text.{Text, codes, ◌===◌}
use convira_sandbox.Types.{SandboxSpawnConfig, SpawnSpec}
use convira_sandbox.DenyLeafKind.{lookup}
use convira_sandbox.AppContainer.Prepare.{
  FsCall, FsOutcome, make_directory, write_file, profile_name, grants_file,
}
use convira_sandbox.Windows.Available.{Verdicts}
use convira_sandbox.Windows.Spawn.{Machine, launched, with_app_container_required_env}
use convira_sandbox.Windows.Environment.{or_else, filled, lookup-with_app_container_required_env}

abbrev verdicts : Verdicts
verdicts = record {
  is_win32 = true;
  addon = true;
  handshake = true;
  handshake_stage = codes "ok";
  job_kill_tree = true;
  kill_tree_stage = codes "ok";
  filesystem = true;
  network = true;
  memory = true;
  cpu = true;
  pids = true;
  wall_clock_kill = true;
  disk = false;
}

abbrev work : Text
work = codes "C:\\work"

abbrev pub machine : Machine
machine = record {
  verdicts = verdicts;
  launcher = some (codes "C:\\l.exe");
  local_app_data = some (codes "C:\\u");
  is_absolute = λ p. false;
  dirname = λ p. p;
  files = record {
    outcome = λ call. FsOutcome.done;
    exists = λ p. p === work;
    ledger_dir = codes "C:\\ledger";
    random = codes "00ff";
    join = λ a b. a ++ codes "\\" ++ b;
    dirname = λ p. p;
  };
}

abbrev config : SandboxSpawnConfig
config = record {
  command = codes "node";
  args = codes "a.js" ∷ [];
  cwd = work;
  env = (codes "PATH", codes "C:\\bin") ∷ [];
  filesystem = record {
    read_paths = codes "C:\\gone" ∷ [];
    write_paths = work ∷ [];
    deny_paths = none;
    deny_path_kinds = none;
  };
  network = record { enabled = false; allow_loopback = false };
  resources = record {
    memory_mb = 512000;
    max_processes = 4000;
    timeout_ms = none;
    long_lived = true;
  };
  kernel_hardening = none;
}

abbrev granted : SpawnSpec × List FsCall
granted =
    let file = codes "C:\\ledger\\ConviraSbx-00ff.grants" in
    (
      launched machine (codes "C:\\l.exe") config
          (record { profile_name = codes "ConviraSbx-00ff"; grants_file = file }),
      make_directory (codes "C:\\ledger") ∷ write_file file (codes "write\tC:\\work\n") ∷ [],
    )

lookup-with_app_container_required_env_example :
    lookup
      (codes "LOCALAPPDATA")
      (with_app_container_required_env machine.local_app_data config.env)
    ≡ or_else
        (lookup (codes "LOCALAPPDATA") config.env)
        (filled machine.local_app_data (codes "LOCALAPPDATA"))
lookup-with_app_container_required_env_example =
    lookup-with_app_container_required_env machine.local_app_data config.env (codes "LOCALAPPDATA")
