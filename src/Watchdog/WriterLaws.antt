-- ===== src/Watchdog/WriterLaws.antt =====
-- What the boot probe of the disk watchdog has seen when it passes.
use convira_sandbox.Base.{
  ℕ, zero, suc, ◌+◌, Bool, true, Option, some, List, [], ◌∷◌, ◌≡◌, refl, ◌⊎◌, inl, inr, arith,
  Bool-cases, Option-cases, map,
}
use convira_sandbox.Base.Text.{Text, codes, ◌===◌}
use convira_sandbox.Probing.{poll_until, read_file_trimmed}
use convira_sandbox.ProbePayload.{ProbePayloadHost}
use convira_sandbox.Probes.Group.{is_delivered}
use convira_sandbox.Probes.Laws.{Within}
use convira_sandbox.Watchdog.Probing.{
  Writing, is_spinning, await_marker, marker_rounds, is_over, is_refused, writer_run, fill_args,
  writer_in, run_disk_watchdog_probe,
}

await_marker-Within :
    (marker : ℕ → Option Text) (left round end : ℕ)
    → round + left ≡ end
    → await_marker marker left round ≡ true
    → Within (λ i. is_spinning (read_file_trimmed (marker i)) ≡ true) end
unfolding await_marker
await_marker-Within marker zero round end e h = absurd (cc)
await_marker-Within marker (suc left) round end e h =
    elim (Bool-cases (is_spinning (read_file_trimmed (marker round)))) [
      | inl spins ↦ (round, omega arith, spins)
      | inr waits ↦ await_marker-Within marker left (suc round) end (omega arith) (ground arith)
    ]

-- An element of a list that passes a test.
abbrev pub Some : {A : Type 0} → (A → Bool) → List A → Type 0
Some test [] = ⊥
Some test (x ∷ xs) = (test x ≡ true) ⊎ Some test xs

poll_until-Some :
    {A : Type 0} (test : A → Bool) (xs : List A) → poll_until (map test xs) ≡ true → Some test xs
unfolding poll_until
poll_until-Some test [] h = absurd (cc)
poll_until-Some test (x ∷ xs) h = elim (Bool-cases (test x)) [
  | inl passes ↦ inl passes
  | inr fails ↦ inr (poll_until-Some test xs (ground arith))
]

-- The writer announced itself, its directory was measured above the budget, it was killed, and it
-- was seen gone.
abbrev pub IsCaught : Writing → ℕ → Type 0
IsCaught w pid =
    Within (λ i. is_spinning (read_file_trimmed (w.marker i)) ≡ true) marker_rounds
    × Some is_over w.directories
    × (is_delivered (w.killed pid) ≡ true)
    × Some is_refused w.signals

writer_run-IsCaught : (w : Writing) (pid : ℕ) → (writer_run w pid).0 ≡ true → IsCaught w pid
unfolding writer_run
writer_run-IsCaught w pid h = elim (Bool-cases (await_marker w.marker marker_rounds 0)) [
  | inr silent ↦ absurd (ground arith)
  | inl announced ↦ elim (Bool-cases (poll_until (map is_over w.directories))) [
    | inr small ↦ absurd (ground arith)
    | inl breached ↦ elim (Bool-cases (is_delivered (w.killed pid))) [
      | inr kept ↦ absurd (ground arith)
      | inl killed ↦ (
        await_marker-Within w.marker marker_rounds 0 marker_rounds refl announced,
        poll_until-Some is_over w.directories breached,
        killed,
        poll_until-Some is_refused w.signals (ground arith),
      )
    ]
  ]
]

-- The evidence of the disk watchdog's probe.
abbrev pub IsDiskProven : Text → Writing → Type 0
IsDiskProven platform w =
    ((platform === codes "win32") ≡ true)
    × ((dir : Text) × (host : ProbePayloadHost) × (pid : ℕ) × (w.scratch ≡ some dir)
        × (w.host ≡ some host)
        × (w.starts host.command (fill_args host w dir) ≡ some pid)
        × IsCaught w pid)

writer_in-IsCaught :
    (w : Writing) (host : ProbePayloadHost) (dir : Text)
    → (writer_in w host dir).0 ≡ true
    → (pid : ℕ) × (w.starts host.command (fill_args host w dir) ≡ some pid) × IsCaught w pid
unfolding writer_in
writer_in-IsCaught w host dir h =
    elim (Option-cases (w.starts host.command (fill_args host w dir))) [
      | inl no_pid ↦ absurd (ground arith)
      | inr (pid, ran) ↦ (pid, ran, writer_run-IsCaught w pid (ground arith))
    ]

pub run_disk_watchdog_probe-IsDiskProven :
    (platform : Text) (w : Writing)
    → (run_disk_watchdog_probe platform w).0 ≡ true
    → IsDiskProven platform w
unfolding run_disk_watchdog_probe
run_disk_watchdog_probe-IsDiskProven platform w h = elim (Bool-cases (platform === codes "win32")) [
  | inr other ↦ absurd (ground arith)
  | inl windows ↦ elim (Option-cases w.scratch) [
    | inl failed ↦ absurd (ground arith)
    | inr (dir, made) ↦ elim (Option-cases w.host) [
      | inl absent ↦ absurd (ground arith)
      | inr (host, there) ↦
          let (pid, ran, caught) = writer_in-IsCaught w host dir (ground arith) in
          (windows, (dir, host, pid, made, there, ran, caught))
    ]
  ]
]
