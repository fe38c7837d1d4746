-- ===== src/Probes/Group.antt =====
-- probes.ts: the detached process group that `_runDescendantKillProbe` and the probe of
-- rss-watchdog.ts start, and the former probe.
use convira_sandbox.Base.{
  ℕ, zero, suc, Bool, true, false, not, ◌||◌, Option, none, some, List, [], ◌∷◌, ◌++◌, ◌==◌,
  if◌then◌else◌,
}
use convira_sandbox.Base.Text.{Text, codes, ◌===◌}
use convira_sandbox.Probing.{read_file_trimmed, digits_of}
use convira_sandbox.Rlimit.Script.{rlimit_shell_path}

-- What `process.kill` does: it returns, or throws an error with a code.
pub data Signal : Type 0 where
  delivered : Signal
  refused : (code : Text) → Signal

unfoldable pub is_alive : Signal → Bool
is_alive delivered = true
is_alive (refused code) = code === codes "EPERM"

abbrev pub is_delivered : Signal → Bool
is_delivered delivered = true
is_delivered (refused code) = false

-- What a probe with a detached group meets: the scratch directory (nothing if it cannot be made),
-- the pid of a leader started with this command and these arguments (nothing if there is none),
-- the content of a file and the output of `ps` in each round, the answer to the signal 0 for a pid,
-- first before the group is killed and then after each pause, and the answer to SIGKILL for a group.
pub record Group : Type 0 where
  pub scratch : Option Text
  pub join : Text → Text → Text
  pub starts : Text → List Text → Option ℕ
  pub content : Text → ℕ → Option Text
  pub ps_output : ℕ → Option Text
  pub signal : ℕ → ℕ → Signal
  pub group_kill : ℕ → Signal

pub data GroupCall : Type 0 where
  kill_group : (leader : ℕ) → GroupCall
  remove_directory : (dir : Text) → GroupCall

-- `pidFile.replace(/'/g, "'\\''")`.
unfoldable pub escape_single_quotes : Text → Text
escape_single_quotes [] = []
escape_single_quotes (c ∷ s) =
    let rest = escape_single_quotes s in if c == b'\'' then codes "'\\''" ++ rest else c ∷ rest

unfoldable pub leader_args : Text → List Text
leader_args pid_file =
    codes "-c"
    ∷ (codes "sleep 30 & echo $! > '" ++ escape_single_quotes pid_file ++ codes "'; wait")
    ∷ []

abbrev pub pid_file_in : Group → Text → Text
pid_file_in g dir = g.join dir (codes "descendant.pid")

-- The pid that a file shows in one round.
abbrev pub pid_in : Option Text → Option ℕ
pid_in content = digits_of (read_file_trimmed content)

-- The loop until a pid is recorded: `left` rounds from `round` on.
unfoldable pub await_pid : (ℕ → Option Text) → ℕ → ℕ → Option ℕ
await_pid content zero round = none
await_pid content (suc left) round =
    let later = await_pid content left (suc round) in
    elim (pid_in (content round)) [ some pid ↦ some pid | none ↦ later ]

-- The loop that watches for a process to go.
unfoldable pub await_gone : (ℕ → Bool) → ℕ → ℕ → Bool
await_gone gone zero round = false
await_gone gone (suc left) round =
    let later = await_gone gone left (suc round) in if gone round then true else later

abbrev pub pid_rounds : ℕ
pid_rounds = 100

abbrev pub gone_rounds : ℕ
gone_rounds = 50

-- The `try` and `finally` blocks around a leader, where `body` is what follows its start.
unfoldable pub with_leader : Group → (Text → ℕ → Bool × List GroupCall) → Bool × List GroupCall
with_leader g body = elim g.scratch [
  | none ↦ (false, [])
  | some dir ↦ elim (g.starts rlimit_shell_path (leader_args (pid_file_in g dir))) [
    | none ↦ (false, remove_directory dir ∷ [])
    | some leader ↦
        let (verdict, calls) = body dir leader in
        (verdict, calls ++ kill_group leader ∷ remove_directory dir ∷ [])
  ]
]

-- SIGKILL to the group, then the watch for the descendant.
unfoldable pub kill_and_watch : Group → ℕ → (ℕ → Bool) → Bool × List GroupCall
kill_and_watch g leader gone =
    if is_delivered (g.group_kill leader)
    then (await_gone gone gone_rounds 0, kill_group leader ∷ [])
    else (false, kill_group leader ∷ [])

unfoldable pub kill_descendant : Group → ℕ → ℕ → Bool × List GroupCall
kill_descendant g leader descendant =
    if descendant == 0
    then (false, [])
    else if not (is_alive (g.signal descendant 0))
    then (false, [])
    else kill_and_watch g leader (λ round. not (is_alive (g.signal descendant (suc round))))

unfoldable pub descendant_body : Group → Text → ℕ → Bool × List GroupCall
descendant_body g dir leader = elim (await_pid (g.content (pid_file_in g dir)) pid_rounds 0) [
  | none ↦ (false, [])
  | some descendant ↦ kill_descendant g leader descendant
]

abbrev pub is_unix : Text → Bool
is_unix platform = platform === codes "darwin" || platform === codes "linux"

unfoldable pub run_descendant_kill_probe : Text → Group → Bool × List GroupCall
run_descendant_kill_probe platform g =
    if is_unix platform then with_leader g (descendant_body g) else (false, [])
