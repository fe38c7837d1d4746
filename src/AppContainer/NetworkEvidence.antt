-- ===== src/AppContainer/NetworkEvidence.antt =====
-- win-appcontainer.ts: what a verdict of the network probe rests on.
use convira_sandbox.Base.{
  ℕ, true, ◌&&◌, ◌||◌, none, some, [], ◌∷◌, ◌≡◌, inl, inr, arith, map, Option-cases,
}
use convira_sandbox.Base.Text.{Text, codes}
use convira_sandbox.Probing.{poll_until, poll_pid}
use convira_sandbox.ProbePayload.{ProbePayloadHost, probe_payload_argv, connect}
use convira_sandbox.JobObject.TwoLeg.{holds, is_there}
use convira_sandbox.AppContainer.Launching.{
  LauncherSpawn, spawn_via_launcher, IsLaunched, spawn_via_launcher-IsLaunched,
}
use convira_sandbox.AppContainer.Probing.{
  with_directories, in_directory, NetworkProbing, connect_args, confined_connection, network_body,
  run_app_container_network_probe,
}
use convira_sandbox.AppContainer.ProbingLaws.{
  with_launcher_lem, with_directories_lem, after_launch_lem,
}

-- The evidence of the network probe: a plain payload reached the port that the listener reported,
-- and a payload launched without network did not.
abbrev pub IsNetworkProven : NetworkProbing → Type 0
IsNetworkProven p =
    (launcher : Text) × (scratch : Text) × (granted : Text) × (host : ProbePayloadHost) × (port : ℕ)
    × (spawned : LauncherSpawn) × ((p.setting.launcher ≡ some launcher)
        × ((poll_pid p.port_files ≡ some port)
            × (holds
                  (p.plain_result host.command (
                    probe_payload_argv host connect
                      (connect_args port (p.setting.join scratch (codes "control-result")))))
                  (codes "connected")
                ≡ true)))
    × IsLaunched p.setting.launch launcher [] (granted ∷ []) (in_directory granted none) connect
        (connect_args port (p.setting.join granted (codes "result"))) spawned
    × (holds p.last (codes "denied") || holds p.last (codes "timeout") ≡ true)

confined_connection_lem :
    (p : NetworkProbing) (launcher : Text) (port : ℕ) (granted : Text)
    → (confined_connection p launcher port granted).0 ≡ true
    → (spawned : LauncherSpawn) × IsLaunched p.setting.launch launcher []
        (granted ∷ [])
        (in_directory granted none)
        connect
        (connect_args port (p.setting.join granted (codes "result")))
        spawned
      × (holds p.last (codes "denied") || holds p.last (codes "timeout") ≡ true)
unfolding confined_connection
confined_connection_lem p launcher port granted h =
    let args = connect_args port (p.setting.join granted (codes "result")) in
    let (spawned, launched, passed) =
      after_launch_lem
        (λ spawned. (
          poll_until (map is_there p.polls)
              && (holds p.last (codes "denied") || holds p.last (codes "timeout")),
          [],
        ))
        (spawn_via_launcher p.setting.launch launcher [] (granted ∷ []) (in_directory granted none)
          connect args)
        h in
    (
      spawned,
      spawn_via_launcher-IsLaunched p.setting.launch launcher [] (granted ∷ [])
          (in_directory granted none) connect args spawned launched,
      ground arith,
    )

network_body_lem :
    (p : NetworkProbing) (launcher scratch granted : Text)
    → (network_body p launcher scratch granted).0 ≡ true
    → (host : ProbePayloadHost) × (port : ℕ) × (poll_pid p.port_files ≡ some port)
      × (holds
            (p.plain_result host.command (
              probe_payload_argv host connect
                (connect_args port (p.setting.join scratch (codes "control-result")))))
            (codes "connected")
          ≡ true)
      × ((confined_connection p launcher port granted).0 ≡ true)
unfolding network_body
network_body_lem p launcher scratch granted h = elim (Option-cases p.setting.launch.host) [
  | inl absent ↦ absurd (ground arith)
  | inr (host, there) ↦ elim (Option-cases p.listener_pid) [
    | inl no_pid ↦ absurd (ground arith)
    | inr (pid, ran) ↦ elim (Option-cases (poll_pid p.port_files)) [
      | inl silent ↦ absurd (ground arith)
      | inr (port, said) ↦ (host, port, said, ground arith, ground arith)
    ]
  ]
]

pub run_app_container_network_probe-IsProven :
    (p : NetworkProbing) → (run_app_container_network_probe p).0 ≡ true → IsNetworkProven p
unfolding run_app_container_network_probe
run_app_container_network_probe-IsProven p h =
    let (launcher, there, ran) =
      with_launcher_lem p.setting
        (λ launcher. with_directories p.scratch_dir p.granted_dir (network_body p launcher)) h in
    let (scratch, granted, made, also, body) =
      with_directories_lem p.scratch_dir p.granted_dir (network_body p launcher) ran in
    let (host, port, said, plain, confined) = network_body_lem p launcher scratch granted body in
    let (spawned, launched, denied) = confined_connection_lem p launcher port granted confined in
    (launcher, scratch, granted, host, port, spawned, (there, (said, plain)), launched, denied)
