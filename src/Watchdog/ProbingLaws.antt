-- ===== src/Watchdog/ProbingLaws.antt =====
-- What the boot probe of the memory watchdog has seen when it passes.
use convira_sandbox.Base.{
  ℕ, zero, suc, ◌+◌, ◌<◌, true, ◌&&◌, Option, some, ◌==◌, ◌≡◌, refl, subst, inl, inr, arith,
  Bool-cases, Option-cases,
}
use convira_sandbox.Base.Text.{Text}
use convira_sandbox.Probes.Group.{Group, pid_file_in, pid_in, pid_rounds, is_unix}
use convira_sandbox.Probes.Laws.{
  Within, IsLed, IsReaped, with_leader-IsLed, kill_and_watch-IsReaped,
}
use convira_sandbox.Watchdog.Probing.{
  is_reaped, Sighting, is_positive, is_known, look, await_sighting, kill_sighted, unseen,
  group_size, rss_body, run_rss_watchdog_probe,
}

-- What a sighting says was seen in some round below `end`.
abbrev pub IsSighted : (ℕ → Option Text) → (ℕ → Option ℕ) → ℕ → Sighting → Type 0
IsSighted content size end s =
    ((pid : ℕ) → s.descendant ≡ some pid → Within (λ i. pid_in (content i) ≡ some pid) end)
    × (s.measured ≡ true → Within (λ i. is_positive (size i) ≡ true) end)

look-IsSighted :
    (content : ℕ → Option Text) (size : ℕ → Option ℕ) (round end : ℕ) (s : Sighting)
    → round < end
    → IsSighted content size end s
    → IsSighted content size end (look content size round s)
unfolding look
look-IsSighted content size round end s below (seen, sized) = (
  λ pid h. elim (Option-cases s.descendant) [
    | inl unknown ↦ (round, below, ground arith)
    | inr (known, there) ↦ seen pid (ground arith)
  ],
  λ h. elim (Bool-cases s.measured) [
    | inl measured ↦ sized measured
    | inr unmeasured ↦ (round, below, ground arith)
  ],
)

await_sighting-IsSighted :
    (content : ℕ → Option Text) (size : ℕ → Option ℕ) (left round end : ℕ) (s : Sighting)
    → round + left ≡ end
    → IsSighted content size end s
    → IsSighted content size end (await_sighting content size left round s)
unfolding await_sighting
await_sighting-IsSighted content size zero round end s e h = h
await_sighting-IsSighted content size (suc left) round end s e h =
    let seen = look content size round s in
    let next = look-IsSighted content size round end s (omega arith) h in
    let later =
      await_sighting-IsSighted content size left (suc round) end seen (omega arith) next in
    elim (Bool-cases (is_known s.descendant && s.measured)) [
      | inl complete ↦ subst (IsSighted content size end) (ground arith) h
      | inr open_yet ↦ subst (IsSighted content size end) (ground arith) later
    ]

-- A descendant recorded its pid and the group had a positive size, each within the 100 rounds.
abbrev pub IsMeasured : Group → Text → ℕ → ℕ → Type 0
IsMeasured g dir leader pid =
    Within (λ i. pid_in (g.content (pid_file_in g dir) i) ≡ some pid) pid_rounds
    × (0 < pid)
    × Within (λ i. is_positive (group_size g leader i) ≡ true) pid_rounds
    × IsReaped g leader (λ i. is_reaped (g.signal pid (suc i)))

kill_sighted-IsReaped :
    (g : Group) (leader : ℕ) (s : Sighting)
    → (kill_sighted g leader s).0 ≡ true
    → (pid : ℕ) × (s.descendant ≡ some pid)
      × (0 < pid)
      × (s.measured ≡ true)
      × IsReaped g leader (λ i. is_reaped (g.signal pid (suc i)))
unfolding kill_sighted
kill_sighted-IsReaped g leader s h = elim (Option-cases s.descendant) [
  | inl unknown ↦ absurd (ground arith)
  | inr (pid, there) ↦ elim (Bool-cases s.measured) [
    | inl measured ↦ elim (Bool-cases (pid == 0)) [
      | inl none_there ↦ absurd (ground arith)
      | inr positive ↦ (
        pid,
        there,
        ground arith,
        measured,
        kill_and_watch-IsReaped g leader (λ i. is_reaped (g.signal pid (suc i))) (ground arith),
      )
    ]
    | inr unmeasured ↦ absurd (ground arith)
  ]
]

rss_body-IsMeasured :
    (g : Group) (dir : Text) (leader : ℕ)
    → (rss_body g dir leader).0 ≡ true
    → (pid : ℕ) × IsMeasured g dir leader pid
unfolding rss_body
rss_body-IsMeasured g dir leader h =
    let content = g.content (pid_file_in g dir) in
    let size = group_size g leader in
    let s = await_sighting content size pid_rounds 0 unseen in
    let (pid, there, positive, measured, reaped) = kill_sighted-IsReaped g leader s h in
    let (seen, sized) =
      await_sighting-IsSighted content size pid_rounds 0 pid_rounds unseen refl
        (λ p k. absurd (cc), λ k. absurd (cc)) in
    (pid, (seen pid there, positive, sized measured, reaped))

-- The evidence of the memory watchdog's probe.
abbrev pub IsRssProven : Text → Group → Type 0
IsRssProven platform g =
    (is_unix platform ≡ true)
    × ((dir : Text) × (leader : ℕ) × (pid : ℕ) × IsLed g dir leader × IsMeasured g dir leader pid)

pub run_rss_watchdog_probe-IsRssProven :
    (platform : Text) (g : Group)
    → (run_rss_watchdog_probe platform g).0 ≡ true
    → IsRssProven platform g
unfolding run_rss_watchdog_probe
run_rss_watchdog_probe-IsRssProven platform g h = elim (Bool-cases (is_unix platform)) [
  | inl unix ↦
      let (dir, leader, led, passed) = with_leader-IsLed g (rss_body g) (ground arith) in
      let (pid, measured) = rss_body-IsMeasured g dir leader passed in
      (unix, (dir, leader, pid, led, measured))
  | inr other ↦ absurd (ground arith)
]
