-- ===== src/AppContainer/CagingEvidence.antt =====
-- win-appcontainer.ts: what a verdict of the spawn-caging probe rests on.
use convira_sandbox.Base.{
  ℕ, true, ◌&&◌, Option, some, List, ◌++◌, [], ◌∷◌, ◌≡◌, inl, inr, arith, Option-cases,
}
use convira_sandbox.Base.Text.{Text, codes}
use convira_sandbox.Probing.{poll_until, poll_pid}
use convira_sandbox.ProbePayload.{spawn_child}
use convira_sandbox.AppContainer.Launching.{
  Effect, remove, LauncherSpawn, kill_best_effort, cleanup_launcher_spawn, spawn_via_launcher,
  IsLaunched, spawn_via_launcher-IsLaunched,
}
use convira_sandbox.AppContainer.Probing.{with_directories, in_directory}
use convira_sandbox.AppContainer.Caging.{
  CagingProbing, reported_pid, is_caged, report_lines, kill_launcher, caged_run, caging_body,
  run_app_container_spawn_caging_probe,
}
use convira_sandbox.AppContainer.ProbingLaws.{
  with_launcher_lem, with_directories_lem, with_launcher-effects, with_directories-effects,
}

-- The kills of a run that passed: the launcher, and after the polling the whole tree again.
abbrev pub killed : LauncherSpawn → ℕ → ℕ → List Effect
killed spawned child grandchild =
    kill_best_effort (some spawned.launcher_pid)
    ++ (cleanup_launcher_spawn (some spawned)
        ++ (kill_best_effort (some child) ++ kill_best_effort (some grandchild)))

-- The launcher reported a child in its job, and the child reported a grandchild; both were alive, and
-- both were gone after the kill of the launcher.
abbrev pub IsCaged : CagingProbing → LauncherSpawn → ℕ → ℕ → Type 0
IsCaged p spawned child grandchild =
    ((is_caged (report_lines p) ≡ true)
      × ((reported_pid (report_lines p) ≡ some child) × (poll_pid p.pid_files ≡ some grandchild)))
    × (p.is_alive child && p.is_alive grandchild ≡ true)
    × (poll_until (p.gone_after (kill_best_effort (some spawned.launcher_pid)) child grandchild)
        ≡ true)

-- The launch of the caging probe.
abbrev pub caging_launch : CagingProbing → Text → Text → Text → Option LauncherSpawn × List Effect
caging_launch p launcher scratch granted =
    spawn_via_launcher p.setting.launch launcher [] (granted ∷ [])
      (in_directory granted (some (p.setting.join scratch (codes "report")))) spawn_child
      (codes "--pid-file" ∷ p.setting.join granted (codes "gpid") ∷ [])

-- The evidence of the caging probe, with all its effects in their order.
abbrev pub IsCagingProven : CagingProbing → List Effect → Type 0
IsCagingProven p effects =
    (launcher : Text) × (scratch : Text) × (granted : Text) × (child : ℕ) × (grandchild : ℕ)
    × (spawned : LauncherSpawn) × ((p.setting.launcher ≡ some launcher)
        × IsCaged p spawned child grandchild)
    × IsLaunched p.setting.launch launcher [] (granted ∷ [])
        (in_directory granted (some (p.setting.join scratch (codes "report")))) spawn_child
        (codes "--pid-file" ∷ p.setting.join granted (codes "gpid") ∷ []) spawned
    × (effects
        ≡ ((caging_launch p launcher scratch granted).1 ++ killed spawned child grandchild)
          ++ remove scratch ∷ remove granted ∷ [])

caged_run_lem :
    (p : CagingProbing) (spawned : LauncherSpawn)
    → (caged_run p spawned).0 ≡ true
    → (child : ℕ) × (grandchild : ℕ) × IsCaged p spawned child grandchild
      × ((caged_run p spawned).1 ≡ killed spawned child grandchild)
unfolding caged_run kill_launcher
caged_run_lem p spawned h = elim (Option-cases (reported_pid (report_lines p))) [
  | inl silent ↦ absurd (ground arith)
  | inr (child, said) ↦ elim (Option-cases (poll_pid p.pid_files)) [
    | inl none_reported ↦ absurd (ground arith)
    | inr (grandchild, told) ↦ (child, grandchild, ground arith, ground arith)
  ]
]

caging_body_lem :
    (p : CagingProbing) (launcher scratch granted : Text)
    → (caging_body p launcher scratch granted).0 ≡ true
    → (spawned : LauncherSpawn) × IsLaunched p.setting.launch launcher []
        (granted ∷ [])
        (in_directory granted (some (p.setting.join scratch (codes "report"))))
        spawn_child
        (codes "--pid-file" ∷ p.setting.join granted (codes "gpid") ∷ [])
        spawned
      × ((caged_run p spawned).0 ≡ true)
      × ((caging_body p launcher scratch granted).1
          ≡ (caging_launch p launcher scratch granted).1 ++ (caged_run p spawned).1)
unfolding caging_body
caging_body_lem p launcher scratch granted h =
    let options = in_directory granted (some (p.setting.join scratch (codes "report"))) in
    let args = codes "--pid-file" ∷ p.setting.join granted (codes "gpid") ∷ [] in
    elim (Option-cases
      (spawn_via_launcher p.setting.launch launcher [] (granted ∷ []) options spawn_child args).0) [
        | inl failed ↦ absurd (ground arith)
        | inr (spawned, ran) ↦ (
          spawned,
          spawn_via_launcher-IsLaunched p.setting.launch launcher [] (granted ∷ []) options
              spawn_child args spawned ran,
          ground arith,
          ground arith,
        )
      ]

pub run_app_container_spawn_caging_probe-IsProven :
    (p : CagingProbing)
    → (run_app_container_spawn_caging_probe p).0 ≡ true
    → IsCagingProven p (run_app_container_spawn_caging_probe p).1
unfolding run_app_container_spawn_caging_probe
run_app_container_spawn_caging_probe-IsProven p h =
    let with =
      λ (launcher : Text). with_directories p.scratch_dir p.granted_dir (caging_body p launcher) in
    let (launcher, there, ran) = with_launcher_lem p.setting with h in
    let body = caging_body p launcher in
    let (scratch, granted, made, also, passes) =
      with_directories_lem p.scratch_dir p.granted_dir body ran in
    let (spawned, launched, passed, done) = caging_body_lem p launcher scratch granted passes in
    let (child, grandchild, caged, kills) = caged_run_lem p spawned passed in
    let whole = with_launcher-effects p.setting with launcher h there in
    let inside =
      with_directories-effects p.scratch_dir p.granted_dir body scratch granted made also in
    (
      launcher,
      scratch,
      granted,
      child,
      grandchild,
      spawned,
      (there, caged),
      launched,
      cc (whole, inside, done, kills),
    )
