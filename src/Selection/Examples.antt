-- ===== src/Selection/Examples.antt =====
-- The choice of an adapter on three machines.
use convira_sandbox.Base.{Bool, true, false, none, some, [], ◌∷◌, ◌≡◌, refl}
use convira_sandbox.Base.Text.{codes, to_lower}
use convira_sandbox.Base.Result.{ok}
use convira_sandbox.Types.{native, SandboxSpawnConfig}
use convira_sandbox.AppContainer.Loading.{cut_at, behind}
use convira_sandbox.Selection.Detect.{
  win32, Adapter, linux_adapter, macos_adapter, windows_adapter, passthrough_adapter, Machine,
  is_wsl, detect_adapter, select_native_adapter,
}

-- Bubblewrap alone is there.
abbrev only_linux : Adapter → Bool
only_linux linux_adapter = true
only_linux macos_adapter = false
only_linux windows_adapter = false
only_linux passthrough_adapter = true

abbrev wsl : Machine
wsl = record {
  platform = win32;
  platform_name = codes "win32";
  proc_version = some (codes "Linux version 5.15 Microsoft");
  available = only_linux;
}

abbrev windows : Machine
windows = record {
  platform = win32;
  platform_name = codes "win32";
  proc_version = none;
  available = only_linux;
}

abbrev config : SandboxSpawnConfig
config = record {
  command = codes "node";
  args = codes "a.js" ∷ [];
  cwd = codes "/w";
  env = [];
  filesystem = record {
    read_paths = [];
    write_paths = [];
    deny_paths = none;
    deny_path_kinds = none;
  };
  network = record { enabled = true; allow_loopback = false };
  resources = record { memory_mb = 0; max_processes = 1000; timeout_ms = none; long_lived = true };
  kernel_hardening = none;
}

wsl_test : detect_adapter wsl native ≡ ok linux_adapter
unfolding detect_adapter select_native_adapter is_wsl cut_at behind to_lower
wsl_test = refl
