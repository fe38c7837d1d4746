-- ===== src/AppContainer/FilesystemEvidence.antt =====
-- win-appcontainer.ts: what a verdict of the filesystem probe rests on.
use convira_sandbox.Base.{true, ◌&&◌, none, some, [], ◌∷◌, ◌≡◌, inl, inr, arith, map, Option-cases}
use convira_sandbox.Base.Text.{Text, codes}
use convira_sandbox.Probing.{poll_until}
use convira_sandbox.ProbePayload.{ProbePayloadHost, probe_payload_argv, fs_check}
use convira_sandbox.JobObject.TwoLeg.{holds, is_there}
use convira_sandbox.AppContainer.Launching.{
  LauncherSpawn, spawn_via_launcher, IsLaunched, spawn_via_launcher-IsLaunched,
}
use convira_sandbox.AppContainer.Probing.{
  with_directories, in_directory, FilesystemProbing, fs_check_args, secret_file, confined_files,
  files_body, run_app_container_filesystem_probe,
}
use convira_sandbox.AppContainer.ProbingLaws.{
  with_launcher_lem, with_directories_lem, after_launch_lem,
}

-- The evidence of the filesystem probe: a plain payload read the secret, and a payload with the same
-- verb and secret, launched with the granted directory alone, was denied.
abbrev pub IsFilesystemProven : FilesystemProbing → Type 0
IsFilesystemProven p =
    (launcher : Text) × (outside : Text) × (granted : Text) × (host : ProbePayloadHost)
    × (control : Text) × (spawned : LauncherSpawn) × ((p.setting.launcher ≡ some launcher)
        × ((p.granted_dir ≡ some granted)
            × ((p.control_dir ≡ some control)
                × (holds
                      (p.plain_result host.command (
                        probe_payload_argv host fs_check
                          (fs_check_args (secret_file p.setting outside) control)))
                      (codes "read:ok")
                    ≡ true))))
    × IsLaunched p.setting.launch launcher [] (granted ∷ []) (in_directory granted none) fs_check
        (fs_check_args (secret_file p.setting outside) granted) spawned
    × (holds p.last (codes "denied:ok") ≡ true)

confined_files_lem :
    (p : FilesystemProbing) (launcher outside granted : Text)
    → (confined_files p launcher outside granted).0 ≡ true
    → (spawned : LauncherSpawn) × IsLaunched p.setting.launch launcher []
        (granted ∷ [])
        (in_directory granted none)
        fs_check
        (fs_check_args (secret_file p.setting outside) granted)
        spawned
      × (holds p.last (codes "denied:ok") ≡ true)
unfolding confined_files
confined_files_lem p launcher outside granted h =
    let args = fs_check_args (secret_file p.setting outside) granted in
    let (spawned, launched, passed) =
      after_launch_lem
        (λ spawned. (poll_until (map is_there p.polls) && holds p.last (codes "denied:ok"), []))
        (spawn_via_launcher p.setting.launch launcher [] (granted ∷ []) (in_directory granted none)
          fs_check args)
        h in
    (
      spawned,
      spawn_via_launcher-IsLaunched p.setting.launch launcher [] (granted ∷ [])
          (in_directory granted none) fs_check args spawned launched,
      ground arith,
    )

files_body_lem :
    (p : FilesystemProbing) (launcher outside granted : Text)
    → (files_body p launcher outside granted).0 ≡ true
    → (host : ProbePayloadHost) × (control : Text) × (p.control_dir ≡ some control)
      × (holds
            (p.plain_result host.command (
              probe_payload_argv host fs_check
                (fs_check_args (secret_file p.setting outside) control)))
            (codes "read:ok")
          ≡ true)
      × ((confined_files p launcher outside granted).0 ≡ true)
unfolding files_body
files_body_lem p launcher outside granted h = elim (Option-cases p.setting.launch.host) [
  | inl absent ↦ absurd (ground arith)
  | inr (host, there) ↦ elim (Option-cases p.control_dir) [
    | inl failed ↦ absurd (ground arith)
    | inr (control, made) ↦ (host, control, made, ground arith, ground arith)
  ]
]

pub run_app_container_filesystem_probe-IsProven :
    (p : FilesystemProbing) → (run_app_container_filesystem_probe p).0 ≡ true → IsFilesystemProven p
unfolding run_app_container_filesystem_probe
run_app_container_filesystem_probe-IsProven p h =
    let (launcher, there, ran) =
      with_launcher_lem p.setting
        (λ launcher. with_directories p.outside_dir p.granted_dir (files_body p launcher)) h in
    let (outside, granted, made, also, body) =
      with_directories_lem p.outside_dir p.granted_dir (files_body p launcher) ran in
    let (host, control, dir, plain, confined) = files_body_lem p launcher outside granted body in
    let (spawned, launched, denied) = confined_files_lem p launcher outside granted confined in
    (
      launcher,
      outside,
      granted,
      host,
      control,
      spawned,
      (there, (also, (dir, plain))),
      launched,
      denied,
    )
