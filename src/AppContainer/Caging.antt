-- ===== src/AppContainer/Caging.antt =====
-- win-appcontainer.ts: the probe that a payload is in its job before it runs.
use convira_sandbox.Base.{
  ℕ, Bool, false, ◌&&◌, Option, none, some, List, [], ◌∷◌, ◌++◌, map, any, if◌then◌else◌,
}
use convira_sandbox.Base.Text.{Text, codes, ◌===◌, split}
use convira_sandbox.Probing.{poll_until, read_file_trimmed, poll_pid, digits_of}
use convira_sandbox.ProbePayload.{spawn_child}
use convira_sandbox.JobObject.TwoLeg.{is_there}
use convira_sandbox.AppContainer.Loading.{behind}
use convira_sandbox.AppContainer.Launching.{
  Effect, LauncherSpawn, spawn_via_launcher, kill_best_effort, cleanup_launcher_spawn,
}
use convira_sandbox.AppContainer.Probing.{Setting, with_launcher, with_directories, in_directory}

-- The scratch directories, the report file and the pid file at each poll, the report when it is read
-- again, which pids are alive before the launcher is killed, and, for the kills that were made then,
-- whether the child and the grandchild are both gone at each poll after them.
pub record CagingProbing : Type 0 where
  pub setting : Setting
  pub scratch_dir : Option Text
  pub granted_dir : Option Text
  pub reports : List (Option Text)
  pub report : Option Text
  pub pid_files : List (Option Text)
  pub is_alive : ℕ → Bool
  pub gone_after : List Effect → ℕ → ℕ → List Bool

-- The number of a line `pid=<digits>`.
pid_of_line : Text → Option ℕ
pid_of_line line = digits_of (behind (codes "pid=") line)

-- The first such line of a report.
unfoldable pub reported_pid : List Text → Option ℕ
unfolding pid_of_line
reported_pid [] = none
reported_pid (line ∷ lines) =
    let later = reported_pid lines in elim (pid_of_line line) [ some pid ↦ some pid | none ↦ later ]

-- Whether a line of a report is `caged=1`.
unfoldable pub is_caged : List Text → Bool
is_caged lines = any (λ line. line === codes "caged=1") lines

lines_of : Option Text → List Text
lines_of none = [] ∷ []
lines_of (some text) = split b'\n' text

unfoldable pub report_lines : CagingProbing → List Text
unfolding lines_of
report_lines p = lines_of (read_file_trimmed p.report)

-- From the pid of the grandchild on; the launcher is killed, and with it the whole tree must go.
unfoldable pub kill_launcher : CagingProbing → LauncherSpawn → ℕ → ℕ → Bool × List Effect
kill_launcher p spawned child grandchild =
    let kills = kill_best_effort (some spawned.launcher_pid) in
    if p.is_alive child && p.is_alive grandchild
    then (poll_until (p.gone_after kills child grandchild), kills)
    else (false, [])

-- From the pid of the child on, with the kills of both at the end.
await_grandchild : CagingProbing → LauncherSpawn → ℕ → Option ℕ → Bool × List Effect
await_grandchild p spawned child none =
    (false, cleanup_launcher_spawn (some spawned) ++ kill_best_effort (some child))
await_grandchild p spawned child (some grandchild) =
    let (verdict, effects) = kill_launcher p spawned child grandchild in
    (
      verdict,
      effects
          ++ (cleanup_launcher_spawn (some spawned)
              ++ (kill_best_effort (some child) ++ kill_best_effort (some grandchild))),
    )

read_report : CagingProbing → LauncherSpawn → Option ℕ → Bool × List Effect
unfolding await_grandchild
read_report p spawned none = (false, cleanup_launcher_spawn (some spawned))
read_report p spawned (some child) = await_grandchild p spawned child (poll_pid p.pid_files)

-- What follows a launch.
unfoldable pub caged_run : CagingProbing → LauncherSpawn → Bool × List Effect
unfolding read_report
caged_run p spawned =
    let lines = report_lines p in
    let run = read_report p spawned (reported_pid lines) in
    if poll_until (map is_there p.reports) && is_caged lines
    then run
    else (false, cleanup_launcher_spawn (some spawned))

launched_run : CagingProbing → Option LauncherSpawn × List Effect → Bool × List Effect
launched_run p (none, effects) = (false, effects)
launched_run p (some spawned, effects) =
    let (verdict, more) = caged_run p spawned in (verdict, effects ++ more)

unfoldable pub caging_body : CagingProbing → Text → Text → Text → Bool × List Effect
unfolding launched_run
caging_body p launcher scratch granted = launched_run p (
    spawn_via_launcher p.setting.launch launcher [] (granted ∷ [])
      (in_directory granted (some (p.setting.join scratch (codes "report")))) spawn_child
      (codes "--pid-file" ∷ p.setting.join granted (codes "gpid") ∷ []))

unfoldable pub run_app_container_spawn_caging_probe : CagingProbing → Bool × List Effect
run_app_container_spawn_caging_probe p =
    with_launcher p.setting
      (λ launcher. with_directories p.scratch_dir p.granted_dir (caging_body p launcher))
