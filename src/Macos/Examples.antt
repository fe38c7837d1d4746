-- ===== src/Macos/Examples.antt =====
-- One profile and one spawn on macOS.
use convira_sandbox.Base.{
  Bool, true, false, not, ◌&&◌, ◌||◌, none, some, List, [], ◌∷◌, ◌++◌, ◌≡◌, refl, flat_map,
}
use convira_sandbox.Base.Text.{Text, codes, ◌===◌, starts_with, includes}
use convira_sandbox.Types.{SandboxSpawnConfig, SpawnSpec}
use convira_sandbox.Rlimit.Probing.{RlimitProbeResult}
use convira_sandbox.Macos.Escape.{
  escape_seatbelt_path, read_string, read_string-escape_seatbelt_path, escape_quotes,
  double_backslashes,
}
use convira_sandbox.Macos.Profile.{
  Filter, subpath, literal, file_read, profile_items, render, generate_seatbelt_profile, deny_items,
}
use convira_sandbox.Macos.Decides.{decide}
use convira_sandbox.Macos.Laws.{is_opened, is_refused, decide-profile_items}
use convira_sandbox.Macos.Spawn.{
  Mac, wrap_spawn, sandbox_exec_path, resolve_command_path, augmented_config, with_reads,
  command_read_paths, profile_args, entry,
}
use convira_sandbox.Macos.PrivateFiles.{
  sweep_stale, register_exit, make_directory, open_exclusive, write_profile, close_file,
  remove_directory, at_start, Writing, add_directory, write_into, write_profile_to_private_temp,
  cleanup_created_profiles, register_exit_cleanup, begin_spawn, Deed, small_spawn, large_spawn,
  exit, do_deed, do_deeds,
}
use convira_sandbox.Macos.PrivateFilesLaws.{made, removed, lost}
use convira_sandbox.Macos.PrivateFilesCounts.{
  registrations, sweeps, as_count, has_spawn, do_deeds-IsAccounted,
}
use convira_sandbox.Macos.Sealed.{IsSealed, wrap_spawn-IsSealed}

-- A filter that covers a path itself and what has it as a prefix.
abbrev matches : Filter → Text → Bool
matches (subpath p) x = p === x || starts_with x (p ++ codes "/")
matches (literal p) x = p === x

abbrev pub config : SandboxSpawnConfig
config = record {
  command = codes "/Users/u/bin/node";
  args = codes "a.js" ∷ [];
  cwd = codes "/Users/u/w";
  env = [];
  filesystem = record {
    read_paths = codes "/Users/u/w" ∷ [];
    write_paths = codes "/Users/u/w/out" ∷ [];
    deny_paths = some (codes "/Users/u/w/.git" ∷ []);
    deny_path_kinds = none;
  };
  network = record { enabled = true; allow_loopback = false };
  resources = record { memory_mb = 0; max_processes = 1000; timeout_ms = none; long_lived = true };
  kernel_hardening = none;
}

escape_test : escape_seatbelt_path (codes "a\"b\\c") ≡ codes "a\\\"b\\\\c"
unfolding escape_seatbelt_path escape_quotes double_backslashes
escape_test = refl

read_string-escape_seatbelt_path_example :
    read_string false (escape_seatbelt_path (codes "a\"b\\c") ++ b'"' ∷ codes ")")
    ≡ some (codes "a\"b\\c", codes ")")
read_string-escape_seatbelt_path_example =
    read_string-escape_seatbelt_path (codes "a\"b\\c") (codes ")")

decide-profile_items_example :
    decide matches (profile_items config) file_read (codes "/Users/u/w/.git/x") false
    ≡ is_opened matches config file_read (codes "/Users/u/w/.git/x")
      && not (is_refused matches config file_read (codes "/Users/u/w/.git/x"))
decide-profile_items_example =
    decide-profile_items matches config file_read (codes "/Users/u/w/.git/x")

abbrev pub mac : Mac
mac = record {
  is_absolute = λ p. starts_with p (codes "/");
  exists = λ p. true;
  dirname = λ p. codes "/Users/u/bin";
  realpath = λ p. some p;
  which = λ p env. none;
  byte_length = λ p. 4000;
  write_profile = λ p. none;
}

abbrev pub no_limits : RlimitProbeResult
no_limits = record { ok = false; proc_flag = none }

abbrev pub spec : SpawnSpec
spec = record {
  command = sandbox_exec_path;
  args =
      codes "-p"
      ∷ generate_seatbelt_profile (with_reads config (codes "/Users/u/bin" ∷ []))
      ∷ codes "/Users/u/bin/node"
      ∷ codes "a.js"
      ∷ [];
  env = [];
  cwd = codes "/Users/u/w";
  post_spawn_hook = none;
}

wrap_spawn-IsSealed_example : IsSealed mac config spec
unfolding wrap_spawn resolve_command_path augmented_config command_read_paths profile_args entry
    starts_with ◌===◌
wrap_spawn-IsSealed_example = wrap_spawn-IsSealed mac no_limits config spec refl

deny_text_test :
    flat_map render (deny_items (codes "/a" ∷ []))
    ≡ []
      ∷ codes ";; Explicit deny overlays (last-match-wins)"
      ∷ codes "(deny file-read* file-write*"
      ∷ codes "  (subpath \"/a\")"
      ∷ codes ")"
      ∷ []
unfolding deny_items render escape_seatbelt_path escape_quotes double_backslashes
deny_text_test = refl

abbrev writing : Bool → Text → Writing
writing opens dir = record {
  dir = some dir;
  random = codes "0a";
  join = λ a b. a ++ codes "/" ++ b;
  opens = opens;
  writes = true;
  closes = true;
}

abbrev deeds : List Deed
deeds =
    small_spawn
    ∷ large_spawn (writing true (codes "/t/convira-sbd-1"))
    ∷ large_spawn (writing false (codes "/t/convira-sbd-2"))
    ∷ exit
    ∷ []

-- The second directory, in which no file could be opened, is left behind.
deeds_test :
    (do_deeds deeds at_start).1
    ≡ sweep_stale
      ∷ register_exit
      ∷ make_directory (codes "/t/convira-sbd-1")
      ∷ open_exclusive (codes "/t/convira-sbd-1/0a.sb")
      ∷ write_profile (codes "/t/convira-sbd-1/0a.sb")
      ∷ close_file (codes "/t/convira-sbd-1/0a.sb")
      ∷ make_directory (codes "/t/convira-sbd-2")
      ∷ open_exclusive (codes "/t/convira-sbd-2/0a.sb")
      ∷ remove_directory (codes "/t/convira-sbd-1")
      ∷ []
unfolding do_deeds do_deed begin_spawn register_exit_cleanup write_profile_to_private_temp
    write_into add_directory cleanup_created_profiles includes
deeds_test = refl

do_deeds-IsAccounted_example :
    let (s, calls) = do_deeds deeds at_start in
    (includes (made calls) (codes "/t/convira-sbd-2") ≡ (
      includes s.created (codes "/t/convira-sbd-2")
      || includes (removed calls) (codes "/t/convira-sbd-2")
      || includes (lost deeds) (codes "/t/convira-sbd-2")))
    × (registrations calls ≡ as_count (has_spawn deeds))
    × (sweeps calls ≡ as_count (has_spawn deeds))
do_deeds-IsAccounted_example = do_deeds-IsAccounted deeds (codes "/t/convira-sbd-2")
