-- ===== src/Linux/Examples.antt =====
-- native-linux.ts on a small host: a home directory granted for writing, with one denied file that
-- exists and one denied directory that does not, and a link whose real path is denied.
use convira_sandbox.Base.{
  true, false, Option, none, some, List, [], ◌∷◌, ◌++◌, ◌≡◌, refl, ◌↔◌, flat_map, suc,
  if◌then◌else◌, length,
}
use convira_sandbox.Base.Text.{
  Text, codes, ◌===◌, includes, starts_with, ends_with, split, join, to_lower,
}
use convira_sandbox.Base.Result.{Result, ok, throw}
use convira_sandbox.Types.{Filesystem, SandboxSpawnConfig, SpawnSpec}
use convira_sandbox.Host.{Host, Stat, exists_sync, is_directory}
use convira_sandbox.DenyLeafKind.{lookup, leaf_name, resolve_deny_leaf_kind}
use convira_sandbox.NodePath.{dirname, path_join, normalize}
use convira_sandbox.Rlimit.Probing.{RlimitProbeResult, failed_probe}
use convira_sandbox.Linux.Mounts.{
  BwrapArg, mount, tmpfs, bind, ro_bind, within, render, deepest_from, deepest_existing_dir_below,
  governing_mount, is_device_node, is_writable_bind,
}
use convira_sandbox.Linux.Seal.{
  seal_all, seal_directory, sort_by_depth, plan_seals, plan_missing, add_target, buried_mounts,
  hand_back, hand_back_all, insert_by_depth, mask, overlay, overlays, plan_anchor,
}
use convira_sandbox.Rlimit.Values.{u, rlimit_values_from_resources}
use convira_sandbox.Rlimit.Script.{
  build_rlimit_script, wrap_with_rlimit, assert_limit_values, assert_limit_value, limit_entries,
}
use convira_sandbox.Linux.Spawn.{
  deny_list, filesystem_args, seal_args, wrap_spawn, wrap_spawn_with, entry, granted_mounts,
  or_empty, seal_plan, expand_denies, add_real, add_deny, read_mounts, exposed_args, overlay_args,
  seen, system_mounts, write_mounts, isolation_args, seccomp_args, entry_with,
}
use convira_sandbox.Linux.Governing.{governing, IsMasked}
use convira_sandbox.Linux.Denies.{denied_paths-IsMasked, IsListed, deny_list_complete}
use convira_sandbox.Linux.Grants.{Good, granted_mounts-Good}
use convira_sandbox.Linux.Launcher.{Environment, LauncherState, find_bwrap}
use convira_sandbox.Linux.Entry.{IsEntered, wrap_spawn-IsEntered}
use convira_sandbox.Linux.Anchor.{Anchor, deepest_existing_dir_below_iff}

abbrev directory : Stat
directory = record {
  is_file = false;
  is_directory = true;
  is_character_device = false;
  is_block_device = false;
  mode = 0o755;
  uid = 0;
}

abbrev regular : Stat
regular = record directory { is_file = true; is_directory = false }

abbrev stats : List (Text × Stat)
stats =
    (codes "/usr", directory)
    ∷ (codes "/home/u", directory)
    ∷ (codes "/home/u/.npmrc", regular)
    ∷ (codes "/home/u/ws", directory)
    ∷ []

abbrev entries : List (Text × List Text)
entries = (codes "/home/u", codes ".npmrc" ∷ codes "ws" ∷ []) ∷ []

host : Host
host = record {
  stat_sync = λ p. lookup p stats;
  realpath_sync = λ p. if p === codes "/link" then some (codes "/home/u/.npmrc") else none;
  readdir_sync = λ p. lookup p entries;
}

abbrev fs : Filesystem
fs = record {
  read_paths = codes "/home/u/ws" ∷ [];
  write_paths = codes "/home/u" ∷ codes "/home/u" ∷ [];
  deny_paths = some (codes "/home/u/.ssh" ∷ codes "/link" ∷ []);
  deny_path_kinds = none;
}

abbrev config : SandboxSpawnConfig
config = record {
  command = codes "python3";
  args = codes "a.py" ∷ [];
  cwd = codes "/home/u/ws";
  env = [];
  filesystem = fs;
  network = record { enabled = false; allow_loopback = false };
  resources = record {
    memory_mb = 512000;
    max_processes = 8000;
    timeout_ms = none;
    long_lived = false;
  };
  kernel_hardening = none;
}

-- The adapter's functions, opened for evaluation.
run_filesystem_args : Host → Filesystem → Result (List BwrapArg)
unfolding filesystem_args seal_args seal_all sort_by_depth seal_plan plan_seals deny_list
    expand_denies add_real ◌===◌ add_deny includes exists_sync lookup plan_missing governing_mount
    granted_mounts read_mounts ends_with join split starts_with to_lower leaf_name
    resolve_deny_leaf_kind is_directory deepest_existing_dir_below deepest_from is_device_node
    is_writable_bind within add_target buried_mounts hand_back hand_back_all insert_by_depth mask
    overlay overlays plan_anchor seal_directory exposed_args overlay_args seen system_mounts
    write_mounts dirname normalize path_join host
run_filesystem_args = filesystem_args

run_wrap_spawn : SandboxSpawnConfig → Result SpawnSpec
unfolding run_filesystem_args wrap_spawn_with entry isolation_args seccomp_args render entry_with
run_wrap_spawn = wrap_spawn_with host (λ name. none) failed_probe (codes "/usr/bin/bwrap")

deny_list_test :
    deny_list host fs ≡ codes "/home/u/.ssh" ∷ codes "/link" ∷ codes "/home/u/.npmrc" ∷ []
unfolding run_filesystem_args
deny_list_test = refl

filesystem_args_test :
    filesystem_args host fs
    ≡ ok (
        mount ro_bind (codes "/usr") (codes "/usr")
        ∷ BwrapArg.proc (codes "/proc")
        ∷ BwrapArg.dev (codes "/dev")
        ∷ tmpfs (codes "/tmp")
        ∷ mount bind (codes "/home/u") (codes "/home/u")
        ∷ mount ro_bind (codes "/home/u/ws") (codes "/home/u/ws")
        ∷ tmpfs (codes "/home/u")
        ∷ mount ro_bind (codes "/home/u/ws") (codes "/home/u/ws")
        ∷ tmpfs (codes "/home/u/.ssh")
        ∷ mount ro_bind (codes "/dev/null") (codes "/home/u/.npmrc")
        ∷ [])
unfolding run_filesystem_args
filesystem_args_test = refl

-- The result of a call that returned.
abbrev result : Result SpawnSpec → SpawnSpec
result (ok spec) = spec
result (throw e) = record { command = []; args = []; env = []; cwd = []; post_spawn_hook = none }

spec : SpawnSpec
unfolding run_wrap_spawn
spec = result (run_wrap_spawn config)

spec_lem :
    wrap_spawn_with host (λ name. none) failed_probe (codes "/usr/bin/bwrap") config ≡ ok spec
unfolding run_wrap_spawn spec
spec_lem = refl

npmrc_denied : includes (deny_list host fs) (codes "/home/u/.npmrc") ≡ true
unfolding run_filesystem_args
npmrc_denied = refl

npmrc_present : exists_sync host (codes "/home/u/.npmrc") ≡ true
unfolding run_filesystem_args
npmrc_present = refl

npmrc_within : within (codes "/home/u/.npmrc") (codes "/home/u/.npmrc") ≡ true
unfolding run_filesystem_args
npmrc_within = refl

denied_paths-IsMasked_example :
    (ops : List BwrapArg) × (inner : List Text) × (spec.args
      ≡ flat_map render ops ++ codes "--" ∷ inner)
    × IsMasked (governing ops (codes "/home/u/.npmrc"))
denied_paths-IsMasked_example =
    denied_paths-IsMasked host (λ name. none) failed_probe (codes "/usr/bin/bwrap") config spec
      (codes "/home/u/.npmrc") (codes "/home/u/.npmrc") spec_lem npmrc_denied npmrc_present
      npmrc_within

link_requested : includes (or_empty fs.deny_paths) (codes "/link") ≡ true
unfolding run_filesystem_args
link_requested = refl

link_resolves : host.realpath_sync (codes "/link") ≡ some (codes "/home/u/.npmrc")
unfolding run_filesystem_args
link_resolves = refl

deny_list_complete_example : IsListed host.realpath_sync (deny_list host fs) (codes "/link")
deny_list_complete_example = deny_list_complete host fs (codes "/link") link_requested

granted_mounts-Good_example : Good host fs (granted_mounts host fs)
granted_mounts-Good_example = granted_mounts-Good host fs

abbrev environment : Environment
environment = record {
  getuid = some 1000;
  resources_path = none;
  which_bwrap = none;
  userns_clone = none;
  appimage = false;
  snap = false;
  flatpak_id = false;
  cgroup = none;
}

abbrev remembered : LauncherState
remembered = record { bwrap_path = some (some (codes "/usr/bin/bwrap")); available = none }

abbrev passed_probe : RlimitProbeResult
passed_probe = record { ok = true; proc_flag = some u }

-- A spawn behind the limit script.
run_limited : SandboxSpawnConfig → Result SpawnSpec
unfolding run_filesystem_args wrap_spawn find_bwrap wrap_spawn_with entry isolation_args
    seccomp_args render entry_with wrap_with_rlimit build_rlimit_script assert_limit_values
    assert_limit_value limit_entries rlimit_values_from_resources
run_limited config = (wrap_spawn host environment (λ name. none) passed_probe config remembered).0

limited_spec : SpawnSpec
unfolding run_limited
limited_spec = result (run_limited config)

limited_lem :
    (wrap_spawn host environment (λ name. none) passed_probe config remembered).0 ≡ ok limited_spec
unfolding run_limited limited_spec
limited_lem = refl

wrap_spawn-IsEntered_example :
    IsEntered host environment (λ name. none) passed_probe config remembered limited_spec
wrap_spawn-IsEntered_example =
    wrap_spawn-IsEntered host environment (λ name. none) passed_probe config remembered limited_spec
      limited_lem

deepest_existing_dir_below_iff_example :
    ((r : Option Text) × (deepest_from host
          (suc (suc (length (codes "/home/u/.ssh"))))
          (codes "/home/u")
          (dirname (codes "/home/u/.ssh"))
        ≡ some r))
    × ((deepest_existing_dir_below host (codes "/home/u") (codes "/home/u/.ssh")
          ≡ some (codes "/home/u"))
        ↔ Anchor host (codes "/home/u") (dirname (codes "/home/u/.ssh")) (codes "/home/u"))
deepest_existing_dir_below_iff_example =
    deepest_existing_dir_below_iff host (codes "/home/u") (codes "/home/u/.ssh") (codes "/home/u")
