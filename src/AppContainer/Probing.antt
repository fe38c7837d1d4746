-- ===== src/AppContainer/Probing.antt =====
-- win-appcontainer.ts: the filesystem, network and spawn-caging probes.
use convira_sandbox.Base.{
  ℕ, Bool, false, not, ◌&&◌, ◌||◌, Option, none, some, List, [], ◌∷◌, ◌++◌, map, if◌then◌else◌,
}
use convira_sandbox.Base.Text.{Text, codes}
use convira_sandbox.Base.Decimal.{to_decimal}
use convira_sandbox.Probing.{poll_until, poll_pid}
use convira_sandbox.ProbePayload.{ProbePayloadHost, probe_payload_argv, fs_check, listen, connect}
use convira_sandbox.JobObject.TwoLeg.{holds, is_there}
use convira_sandbox.AppContainer.Prepare.{write_file}
use convira_sandbox.AppContainer.Launching.{
  Effect, file_call, start, remove, LauncherSpawn, LaunchOptions, LaunchHost, spawn_via_launcher,
  kill_best_effort, cleanup_launcher_spawn,
}

-- What the three probes ask first, and `path.join`.
pub record Setting : Type 0 where
  pub is_win32 : Bool
  pub bindings : Bool
  pub launcher : Option Text
  pub handshake : Bool
  pub join : Text → Text → Text
  pub launch : LaunchHost

-- A probe's body runs with the launcher, where the bindings are there and the handshake passed.
unfoldable pub with_launcher : Setting → (Text → Bool × List Effect) → Bool × List Effect
with_launcher setting body =
    if setting.is_win32 && setting.bindings
    then elim setting.launcher [
      | none ↦ (false, [])
      | some launcher ↦ if setting.handshake then body launcher else (false, [])
    ]
    else (false, [])

-- A probe's body runs with two scratch directories, which are removed after it; nothing stands for
-- one that cannot be made.
unfoldable pub with_directories :
    Option Text → Option Text → (Text → Text → Bool × List Effect) → Bool × List Effect
with_directories none second body = (false, [])
with_directories (some a) none body = (false, remove a ∷ [])
with_directories (some a) (some b) body =
    let (verdict, effects) = body a b in (verdict, effects ++ remove a ∷ remove b ∷ [])

-- The options of a payload that starts in its granted directory.
abbrev pub in_directory : Text → Option Text → LaunchOptions
in_directory dir report = record {
  allow_network = false;
  probe_report_file = report;
  cwd = some dir;
}

-- The verdict of a confined leg, if it was started, and the clean-up after it.
unfoldable pub after_launch :
    (LauncherSpawn → Bool × List Effect) → Option LauncherSpawn × List Effect → Bool × List Effect
after_launch verdict_of (none, effects) = (false, effects)
after_launch verdict_of (some spawned, effects) =
    let (verdict, more) = verdict_of spawned in
    (verdict, effects ++ (more ++ cleanup_launcher_spawn (some spawned)))

-- The scratch directories, whether the secret can be written, what the result file of the control
-- directory holds after a plain run of a command with these arguments, and what that of the granted
-- directory holds at each poll and at the end.
pub record FilesystemProbing : Type 0 where
  pub setting : Setting
  pub outside_dir : Option Text
  pub granted_dir : Option Text
  pub writes_secret : Bool
  pub control_dir : Option Text
  pub plain_result : Text → List Text → Option Text
  pub polls : List (Option Text)
  pub last : Option Text

abbrev pub fs_check_args : Text → Text → List Text
fs_check_args outside_file dir = codes "--outside" ∷ outside_file ∷ codes "--granted" ∷ dir ∷ []

unfoldable pub secret_file : Setting → Text → Text
secret_file setting outside = setting.join outside (codes "secret.txt")

-- The third leg, in the AppContainer.
unfoldable pub confined_files : FilesystemProbing → Text → Text → Text → Bool × List Effect
confined_files p launcher outside granted =
    after_launch
      (λ spawned. (poll_until (map is_there p.polls) && holds p.last (codes "denied:ok"), []))
      (spawn_via_launcher p.setting.launch launcher [] (granted ∷ []) (in_directory granted none)
        fs_check (fs_check_args (secret_file p.setting outside) granted))

-- The control leg, in the control directory.
control_files :
    FilesystemProbing → Text → Text → Text → ProbePayloadHost → Text → Bool × List Effect
control_files p launcher outside granted host control =
    let args =
      probe_payload_argv host fs_check (fs_check_args (secret_file p.setting outside) control) in
    let (verdict, effects) = confined_files p launcher outside granted in
    let begun = start host.command args ∷ remove control ∷ [] in
    if holds (p.plain_result host.command args) (codes "read:ok")
    then (verdict, begun ++ effects)
    else (false, begun)

with_control :
    FilesystemProbing → Text → Text → Text → ProbePayloadHost → Option Text → Bool × List Effect
with_control p launcher outside granted host none = (false, [])
with_control p launcher outside granted host (some control) =
    control_files p launcher outside granted host control

with_host : FilesystemProbing → Text → Text → Text → Option ProbePayloadHost → Bool × List Effect
unfolding with_control control_files
with_host p launcher outside granted none = (false, [])
with_host p launcher outside granted (some host) =
    with_control p launcher outside granted host p.control_dir

unfoldable pub files_body : FilesystemProbing → Text → Text → Text → Bool × List Effect
unfolding with_host
files_body p launcher outside granted =
    let (verdict, effects) = with_host p launcher outside granted p.setting.launch.host in
    if p.writes_secret
    then (
      verdict,
      file_call (write_file (secret_file p.setting outside) (codes "outside-secret")) ∷ effects,
    )
    else (false, [])

unfoldable pub run_app_container_filesystem_probe : FilesystemProbing → Bool × List Effect
run_app_container_filesystem_probe p =
    with_launcher p.setting
      (λ launcher. with_directories p.outside_dir p.granted_dir (files_body p launcher))

-- The scratch directories, the pid of the listener if it gets one, its port file at each poll, what
-- the result file holds after a plain run, and that of the granted directory at each poll and last.
pub record NetworkProbing : Type 0 where
  pub setting : Setting
  pub scratch_dir : Option Text
  pub granted_dir : Option Text
  pub listener_pid : Option ℕ
  pub port_files : List (Option Text)
  pub plain_fails : Bool
  pub plain_result : Text → List Text → Option Text
  pub polls : List (Option Text)
  pub last : Option Text

abbrev pub connect_args : ℕ → Text → List Text
connect_args port out = codes "--port" ∷ to_decimal port ∷ codes "--out" ∷ out ∷ []

unfoldable pub confined_connection : NetworkProbing → Text → ℕ → Text → Bool × List Effect
confined_connection p launcher port granted =
    after_launch
      (λ spawned. (
        poll_until (map is_there p.polls)
            && (holds p.last (codes "denied") || holds p.last (codes "timeout")),
        [],
      ))
      (spawn_via_launcher p.setting.launch launcher [] (granted ∷ []) (in_directory granted none)
        connect (connect_args port (p.setting.join granted (codes "result"))))

control_connection : NetworkProbing → Text → Text → Text → ProbePayloadHost → ℕ → Bool × List Effect
control_connection p launcher scratch granted host port =
    let args =
      probe_payload_argv host connect
        (connect_args port (p.setting.join scratch (codes "control-result"))) in
    let (verdict, effects) = confined_connection p launcher port granted in
    if not p.plain_fails && holds (p.plain_result host.command args) (codes "connected")
    then (verdict, start host.command args ∷ effects)
    else (false, start host.command args ∷ [])

with_port : NetworkProbing → Text → Text → Text → ProbePayloadHost → Option ℕ → Bool × List Effect
with_port p launcher scratch granted host none = (false, [])
with_port p launcher scratch granted host (some port) =
    control_connection p launcher scratch granted host port

with_listener :
    NetworkProbing → Text → Text → Text → ProbePayloadHost → Option ℕ → Bool × List Effect
unfolding with_port control_connection
with_listener p launcher scratch granted host none = (false, [])
with_listener p launcher scratch granted host (some pid) =
    let (verdict, effects) = with_port p launcher scratch granted host (poll_pid p.port_files) in
    (verdict, effects ++ kill_best_effort (some pid))

listening : NetworkProbing → Text → Text → Text → Option ProbePayloadHost → Bool × List Effect
unfolding with_listener
listening p launcher scratch granted none = (false, [])
listening p launcher scratch granted (some host) =
    let args =
      probe_payload_argv host listen
        (codes "--port-file" ∷ p.setting.join scratch (codes "port") ∷ []) in
    let (verdict, effects) = with_listener p launcher scratch granted host p.listener_pid in
    (verdict, start host.command args ∷ effects)

unfoldable pub network_body : NetworkProbing → Text → Text → Text → Bool × List Effect
unfolding listening
network_body p launcher scratch granted = listening p launcher scratch granted p.setting.launch.host

unfoldable pub run_app_container_network_probe : NetworkProbing → Bool × List Effect
run_app_container_network_probe p =
    with_launcher p.setting
      (λ launcher. with_directories p.scratch_dir p.granted_dir (network_body p launcher))
