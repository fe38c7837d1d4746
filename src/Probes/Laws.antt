-- ===== src/Probes/Laws.antt =====
-- probes.ts: what the probes have seen when they pass.
use convira_sandbox.Base.{
  ℕ, zero, suc, ◌+◌, ◌<◌, Bool, true, not, Option, some, List, ◌==◌, ◌≡◌, refl, inl, inr, arith,
  Bool-cases, Option-cases,
}
use convira_sandbox.Base.Text.{Text}
use convira_sandbox.Rlimit.Script.{rlimit_shell_path}
use convira_sandbox.Probes.Group.{
  is_alive, is_delivered, Group, GroupCall, leader_args, pid_file_in, pid_in, await_pid, await_gone,
  pid_rounds, gone_rounds, with_leader, kill_and_watch, kill_descendant, descendant_body, is_unix,
  run_descendant_kill_probe,
}

-- Some round below `end` satisfies `P`.
abbrev pub Within : (ℕ → Type 0) → ℕ → Type 0
Within P end = (round : ℕ) × (round < end) × P round

pub await_pid-Within :
    (content : ℕ → Option Text) (left round end pid : ℕ)
    → round + left ≡ end
    → await_pid content left round ≡ some pid
    → Within (λ i. pid_in (content i) ≡ some pid) end
unfolding await_pid
await_pid-Within content zero round end pid e h = absurd (cc)
await_pid-Within content (suc left) round end pid e h =
    elim (Option-cases (pid_in (content round))) [
      | inl unread ↦ await_pid-Within content left (suc round) end pid (omega arith) (ground arith)
      | inr (seen, there) ↦ (round, omega arith, ground arith)
    ]

pub await_gone-Within :
    (gone : ℕ → Bool) (left round end : ℕ)
    → round + left ≡ end
    → await_gone gone left round ≡ true
    → Within (λ i. gone i ≡ true) end
unfolding await_gone
await_gone-Within gone zero round end e h = absurd (cc)
await_gone-Within gone (suc left) round end e h = elim (Bool-cases (gone round)) [
  | inl went ↦ (round, omega arith, went)
  | inr stays ↦ await_gone-Within gone left (suc round) end (omega arith) (ground arith)
]

-- The probe's own shell started as the leader of a group in its own directory.
abbrev pub IsLed : Group → Text → ℕ → Type 0
IsLed g dir leader =
    (g.scratch ≡ some dir)
    × (g.starts rlimit_shell_path (leader_args (pid_file_in g dir)) ≡ some leader)

-- What `body` established of a leader, where the probe around it passed.
pub with_leader-IsLed :
    (g : Group) (body : Text → ℕ → Bool × List GroupCall)
    → (with_leader g body).0 ≡ true
    → (dir : Text) × (leader : ℕ) × IsLed g dir leader × ((body dir leader).0 ≡ true)
unfolding with_leader
with_leader-IsLed g body h = elim (Option-cases g.scratch) [
  | inl failed_dir ↦ absurd (ground arith)
  | inr (dir, made) ↦
      elim (Option-cases (g.starts rlimit_shell_path (leader_args (pid_file_in g dir)))) [
        | inl no_pid ↦ absurd (ground arith)
        | inr (leader, ran) ↦ (dir, leader, (made, ran), ground arith)
      ]
]

-- The kill of the group was delivered, and then the process was seen gone within the 50 rounds.
abbrev pub IsReaped : Group → ℕ → (ℕ → Bool) → Type 0
IsReaped g leader gone =
    (is_delivered (g.group_kill leader) ≡ true) × Within (λ i. gone i ≡ true) gone_rounds

pub kill_and_watch-IsReaped :
    (g : Group) (leader : ℕ) (gone : ℕ → Bool)
    → (kill_and_watch g leader gone).0 ≡ true
    → IsReaped g leader gone
unfolding kill_and_watch
kill_and_watch-IsReaped g leader gone h = elim (Bool-cases (is_delivered (g.group_kill leader))) [
  | inl killed ↦ (killed, await_gone-Within gone gone_rounds 0 gone_rounds refl (ground arith))
  | inr kept ↦ absurd (ground arith)
]

-- A descendant recorded its pid within the 100 rounds and was alive before its group was killed.
abbrev pub IsDescendantKilled : Group → Text → ℕ → ℕ → Type 0
IsDescendantKilled g dir leader pid =
    Within (λ i. pid_in (g.content (pid_file_in g dir) i) ≡ some pid) pid_rounds
    × (0 < pid)
    × (is_alive (g.signal pid 0) ≡ true)
    × IsReaped g leader (λ i. not (is_alive (g.signal pid (suc i))))

kill_descendant-IsReaped :
    (g : Group) (leader pid : ℕ)
    → (kill_descendant g leader pid).0 ≡ true
    → (0 < pid)
      × (is_alive (g.signal pid 0) ≡ true)
      × IsReaped g leader (λ i. not (is_alive (g.signal pid (suc i))))
unfolding kill_descendant
kill_descendant-IsReaped g leader pid h = elim (Bool-cases (pid == 0)) [
  | inl none_there ↦ absurd (ground arith)
  | inr there ↦ elim (Bool-cases (is_alive (g.signal pid 0))) [
    | inl alive ↦ (
      ground arith,
      alive,
      kill_and_watch-IsReaped g leader (λ i. not (is_alive (g.signal pid (suc i)))) (ground arith),
    )
    | inr dead ↦ absurd (ground arith)
  ]
]

descendant_body-IsDescendantKilled :
    (g : Group) (dir : Text) (leader : ℕ)
    → (descendant_body g dir leader).0 ≡ true
    → (pid : ℕ) × IsDescendantKilled g dir leader pid
unfolding descendant_body
descendant_body-IsDescendantKilled g dir leader h =
    let content = g.content (pid_file_in g dir) in
    elim (Option-cases (await_pid content pid_rounds 0)) [
      | inl unseen ↦ absurd (ground arith)
      | inr (pid, seen) ↦
          let (there, alive, reaped) = kill_descendant-IsReaped g leader pid (ground arith) in
          (
            pid,
            (await_pid-Within content pid_rounds 0 pid_rounds pid refl seen, there, alive, reaped),
          )
    ]

-- The descendant-kill probe passes only on macOS or Linux, after a shell that it started as the
-- leader of a group had recorded the pid of a descendant that was alive, SIGKILL to the group was
-- delivered, and the descendant was then seen gone within the 50 rounds.
pub run_descendant_kill_probe-IsReaped :
    (platform : Text) (g : Group)
    → (run_descendant_kill_probe platform g).0 ≡ true
    → (is_unix platform ≡ true)
      × ((dir : Text) × (leader : ℕ) × (pid : ℕ) × IsLed g dir leader
          × IsDescendantKilled g dir leader pid)
unfolding run_descendant_kill_probe
run_descendant_kill_probe-IsReaped platform g h = elim (Bool-cases (is_unix platform)) [
  | inl unix ↦
      let (dir, leader, led, passed) = with_leader-IsLed g (descendant_body g) (ground arith) in
      let (pid, killed) = descendant_body-IsDescendantKilled g dir leader passed in
      (unix, (dir, leader, pid, led, killed))
  | inr other ↦ absurd (ground arith)
]
