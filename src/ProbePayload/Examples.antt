-- ===== src/ProbePayload/Examples.antt =====
-- A handshake whose nonce comes back in the third round.
use convira_sandbox.Base.{true, none, some, [], ◌∷◌, ◌++◌, ◌≡◌, refl, ltb, if◌then◌else◌}
use convira_sandbox.Base.Text.{codes, ◌===◌, trim}
use convira_sandbox.Probing.{read_file_trimmed}
use convira_sandbox.ProbePayload.{
  ProbePayloadHost, Handshaking, await_nonce, handshake_in, run_handshake, probe_payload_argv,
  fs_check, resolve_probe_payload_host,
}
use convira_sandbox.ProbePayload.Laws.{IsProven, run_handshake-IsProven}

abbrev host : ProbePayloadHost
host = record {
  command = codes "C:\\l.exe";
  prefix_args = codes "--selftest" ∷ [];
  read_grants = codes "C:\\" ∷ [];
}

argv_test :
    probe_payload_argv host fs_check (codes "--outside" ∷ [])
    ≡ codes "--selftest" ∷ codes "fs-check" ∷ codes "--outside" ∷ []
unfolding probe_payload_argv
argv_test = refl

host_test :
    resolve_probe_payload_host none true (λ p. codes "C:\\") (some (codes "C:\\l.exe")) ≡ some host
unfolding resolve_probe_payload_host
host_test = refl

abbrev handshaking : Handshaking
handshaking = record {
  scratch = some (codes "C:\\t");
  nonce = codes "00ff";
  join = λ a b. a ++ codes "\\" ++ b;
  starts = λ command args. some true;
  content = λ path round. if ltb round 2 then none else some (codes "00ff\n");
}

run_handshake-IsProven_example : IsProven host handshaking
unfolding run_handshake handshake_in await_nonce read_file_trimmed trim ◌===◌
run_handshake-IsProven_example = run_handshake-IsProven host handshaking refl
