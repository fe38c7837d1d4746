-- ===== src/ProbePayload.antt =====
-- packages/sandbox-runtime/src/probe-payload.ts: the payload host of the Windows probes, and the
-- handshake that proves it.
pub mod Laws
pub mod Examples
use convira_sandbox.Base.{
  ℕ, zero, suc, Bool, true, false, Option, none, some, List, [], ◌∷◌, ◌++◌, if◌then◌else◌,
}
use convira_sandbox.Base.Text.{Text, codes, ◌===◌}
use convira_sandbox.Probing.{read_file_trimmed}

pub data ProbeVerb : Type 0 where
  echo idle spawn_child try_spawn alloc burn_cpu fill fs_check listen connect : ProbeVerb

abbrev pub verb_text : ProbeVerb → Text
verb_text echo = codes "echo"
verb_text idle = codes "idle"
verb_text spawn_child = codes "spawn-child"
verb_text try_spawn = codes "try-spawn"
verb_text alloc = codes "alloc"
verb_text burn_cpu = codes "burn-cpu"
verb_text fill = codes "fill"
verb_text fs_check = codes "fs-check"
verb_text listen = codes "listen"
verb_text connect = codes "connect"

pub record ProbePayloadHost : Type 0 where
  pub command : Text
  pub prefix_args : List Text
  pub read_grants : List Text

host_of : (Text → Text) → Option Text → Option ProbePayloadHost
host_of dirname none = none
host_of dirname (some launcher) = some (record {
  command = launcher;
  prefix_args = codes "--selftest" ∷ [];
  read_grants = dirname launcher ∷ [];
})

-- `override` is nothing where the source has `undefined`; `launcher` is what
-- `resolveWinAppContainerLauncher` answers, `dirname` is Node's `path.dirname`.
unfoldable pub resolve_probe_payload_host :
    Option (Option ProbePayloadHost) → Bool → (Text → Text) → Option Text → Option ProbePayloadHost
unfolding host_of
resolve_probe_payload_host override is_win32 dirname launcher = elim override [
  | some pinned ↦ pinned
  | none ↦ if is_win32 then host_of dirname launcher else none
]

unfoldable pub probe_payload_argv : ProbePayloadHost → ProbeVerb → List Text → List Text
probe_payload_argv host verb verb_args = host.prefix_args ++ verb_text verb ∷ verb_args

pub data SelftestHandshakeStage : Type 0 where
  not_run stage_ok launcher_absent spawn_failed nonce_never_arrived nonce_mismatch :
      SelftestHandshakeStage

-- What a handshake meets: the scratch directory (nothing if it cannot be made), the random nonce,
-- whether a child started with this command and these arguments gets a pid (nothing if `spawn`
-- throws), and what the file at a path holds in each round (nothing if it cannot be read).
pub record Handshaking : Type 0 where
  pub scratch : Option Text
  pub nonce : Text
  pub join : Text → Text → Text
  pub starts : Text → List Text → Option Bool
  pub content : Text → ℕ → Option Text

-- The loop over the rounds from `round` on, `left` of them.
unfoldable pub await_nonce : (ℕ → Option Text) → Text → ℕ → ℕ → Bool × SelftestHandshakeStage
await_nonce content nonce zero round = (false, nonce_never_arrived)
await_nonce content nonce (suc left) round =
    let later = await_nonce content nonce left (suc round) in
    elim (read_file_trimmed (content round)) [
      | none ↦ later
      | some seen ↦
          if seen === []
          then later
          else if seen === nonce
          then (true, stage_ok)
          else (false, nonce_mismatch)
    ]

-- 5000 ms in steps of 25 ms.
abbrev pub handshake_rounds : ℕ
handshake_rounds = 200

-- From `spawn` on, in this scratch directory.
unfoldable pub handshake_in : Handshaking → ProbePayloadHost → Text → Bool × SelftestHandshakeStage
handshake_in h host dir =
    let out = h.join dir (codes "nonce") in
    let args = codes "--nonce" ∷ h.nonce ∷ codes "--out" ∷ out ∷ [] in
    elim (h.starts host.command (probe_payload_argv host echo args)) [
      | none ↦ (false, spawn_failed)
      | some started ↦
          if started
          then await_nonce (h.content out) h.nonce handshake_rounds 0
          else (false, spawn_failed)
    ]

-- The verdict and the stage that is left behind; the scratch directory is removed in the end.
unfoldable pub run_handshake : Option ProbePayloadHost → Handshaking → Bool × SelftestHandshakeStage
run_handshake none h = (false, launcher_absent)
run_handshake (some host) h = elim h.scratch [
  | none ↦ (false, spawn_failed)
  | some dir ↦ handshake_in h host dir
]
