-- ===== src/ProbePayload/Laws.antt =====
-- probe-payload.ts: a handshake passes only on its own nonce, and its stage says why it failed.
use convira_sandbox.Base.{
  ℕ, zero, suc, ◌+◌, ◌<◌, true, Option, none, some, [], ◌∷◌, ◌≡◌, ◌↔◌, refl, inl, inr, arith,
  Bool-cases, Option-cases,
}
use convira_sandbox.Base.Text.{Text, codes, ◌===◌, ===_sound}
use convira_sandbox.Probing.{read_file_trimmed}
use convira_sandbox.ProbePayload.{
  ProbePayloadHost, stage_ok, Handshaking, echo, probe_payload_argv, await_nonce, handshake_rounds,
  handshake_in, run_handshake,
}

-- The file is read back as the nonce in a round below `end`.
abbrev pub IsEchoed : (ℕ → Option Text) → Text → ℕ → Type 0
IsEchoed content nonce end =
    (round : ℕ) × (round < end) × (read_file_trimmed (content round) ≡ some nonce)

await_nonce-IsEchoed :
    (content : ℕ → Option Text) (nonce : Text) (left round end : ℕ)
    → round + left ≡ end
    → (await_nonce content nonce left round).0 ≡ true
    → IsEchoed content nonce end
unfolding await_nonce
await_nonce-IsEchoed content nonce zero round end e h = absurd (cc)
await_nonce-IsEchoed content nonce (suc left) round end e h =
    let later = await_nonce-IsEchoed content nonce left (suc round) end (omega arith) in
    elim (Option-cases (read_file_trimmed (content round))) [
      | inl unread ↦ later (ground arith)
      | inr (seen, there) ↦ elim (Bool-cases (seen === [])) [
        | inl empty ↦ later (ground arith)
        | inr full ↦ elim (Bool-cases (seen === nonce)) [
          | inl same ↦ (round, omega arith, cc (===_sound seen nonce same))
          | inr other ↦ absurd (ground arith)
        ]
      ]
    ]

await_nonce-stage :
    (content : ℕ → Option Text) (nonce : Text) (left round : ℕ)
    → ((await_nonce content nonce left round).0 ≡ true)
      ↔ ((await_nonce content nonce left round).1 ≡ stage_ok)
unfolding await_nonce
await_nonce-stage content nonce zero round = ground arith
await_nonce-stage content nonce (suc left) round =
    let later = await_nonce-stage content nonce left (suc round) in
    elim (Option-cases (read_file_trimmed (content round))) [
      | inl unread ↦ ground arith
      | inr (seen, there) ↦ elim (Bool-cases (seen === [])) [
        | inl empty ↦ ground arith
        | inr full ↦ elim (Bool-cases (seen === nonce)) [
          | inl same ↦ ground arith
          | inr other ↦ ground arith
        ]
      ]
    ]

-- A child of the host was started for the verb `echo`, and the nonce came back in time.
abbrev pub IsProven : ProbePayloadHost → Handshaking → Type 0
IsProven host h =
    (dir : Text) × (h.scratch ≡ some dir)
    × (h.starts host.command (
          probe_payload_argv host echo
            (codes "--nonce" ∷ h.nonce ∷ codes "--out" ∷ h.join dir (codes "nonce") ∷ []))
        ≡ some true)
    × IsEchoed (h.content (h.join dir (codes "nonce"))) h.nonce handshake_rounds

handshake_in-IsProven :
    (h : Handshaking) (host : ProbePayloadHost) (dir : Text)
    → h.scratch ≡ some dir
    → (handshake_in h host dir).0 ≡ true
    → IsProven host h
unfolding handshake_in
handshake_in-IsProven h host dir made passed =
    let out = h.join dir (codes "nonce") in
    let args = codes "--nonce" ∷ h.nonce ∷ codes "--out" ∷ out ∷ [] in
    elim (Option-cases (h.starts host.command (probe_payload_argv host echo args))) [
      | inl threw ↦ absurd (ground arith)
      | inr (started, answered) ↦ elim (Bool-cases started) [
        | inl ran ↦ (
          dir,
          made,
          cc,
          await_nonce-IsEchoed (h.content out) h.nonce handshake_rounds 0 handshake_rounds refl
              (ground arith),
        )
        | inr no_pid ↦ absurd (ground arith)
      ]
    ]

-- A handshake passes only if a child of the payload host was started for the verb `echo` and the
-- file that it was told to write was read back as the random nonce within the 200 rounds.
pub run_handshake-IsProven :
    (host : ProbePayloadHost) (h : Handshaking)
    → (run_handshake (some host) h).0 ≡ true
    → IsProven host h
unfolding run_handshake
run_handshake-IsProven host h passed = elim (Option-cases h.scratch) [
  | inl failed ↦ absurd (ground arith)
  | inr (dir, made) ↦ handshake_in-IsProven h host dir made (ground arith)
]

handshake_in-stage :
    (h : Handshaking) (host : ProbePayloadHost) (dir : Text)
    → ((handshake_in h host dir).0 ≡ true) ↔ ((handshake_in h host dir).1 ≡ stage_ok)
unfolding handshake_in
handshake_in-stage h host dir =
    let out = h.join dir (codes "nonce") in
    let args = codes "--nonce" ∷ h.nonce ∷ codes "--out" ∷ out ∷ [] in
    elim (Option-cases (h.starts host.command (probe_payload_argv host echo args))) [
      | inl threw ↦ ground arith
      | inr (started, answered) ↦ elim (Bool-cases started) [
        | inl ran ↦ ground (arith, await_nonce-stage (h.content out) h.nonce handshake_rounds 0)
        | inr no_pid ↦ ground arith
      ]
    ]

-- The stage that a handshake leaves is `ok` exactly when it passed.
pub run_handshake-stage :
    (host : Option ProbePayloadHost) (h : Handshaking)
    → ((run_handshake host h).0 ≡ true) ↔ ((run_handshake host h).1 ≡ stage_ok)
unfolding run_handshake
run_handshake-stage none h = ground arith
run_handshake-stage (some host) h = elim (Option-cases h.scratch) [
  | inl failed ↦ ground arith
  | inr (dir, made) ↦ ground (arith, handshake_in-stage h host dir)
]
