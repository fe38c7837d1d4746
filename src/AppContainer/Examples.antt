-- ===== src/AppContainer/Examples.antt =====
-- The AppContainer launcher's files on one set of grants.
use convira_sandbox.Base.{Bool, true, false, none, some, [], ◌∷◌, ◌++◌, ◌≡◌, refl, All}
use convira_sandbox.Base.Text.{Text, codes, ◌===◌, includes, to_lower, starts_with}
use convira_sandbox.DenyLeafKind.{strip_trailing_separators}
use convira_sandbox.Types.{LeafKind}
use convira_sandbox.AppContainer.Grants.{
  WinAppContainerGrants, Filtered, format_app_container_grants, is_path_within,
}
use convira_sandbox.AppContainer.Prepare.{Files, FsOutcome}
use convira_sandbox.AppContainer.Sweep.{Ledger, sweep_orphaned_app_container_profiles}
use convira_sandbox.AppContainer.Loading.{unpacked_twin_path, cut_at, behind}
use convira_sandbox.Base.Decimal.{of_decimal}
use convira_sandbox.Base.Text.{is_digits}
use convira_sandbox.Probing.{digits_of}
use convira_sandbox.ProbePayload.{ProbePayloadHost}
use convira_sandbox.AppContainer.Probing.{Setting}
use convira_sandbox.AppContainer.Caging.{reported_pid}
use convira_sandbox.AppContainer.Evidence.{Probings}
use convira_sandbox.AppContainer.Ledger.{sweep-IsScoped, IsScoped}
use convira_sandbox.AppContainer.Recovery.{entry_of}

abbrev work : Text
work = codes "C:\\work"

abbrev hidden : Text
hidden = codes "C:\\work\\.git"

abbrev asked : WinAppContainerGrants
asked = record {
  read_paths = codes "C:\\tools" ∷ [];
  write_paths = work ∷ codes "C:\\gone" ∷ [];
  deny_paths = some (hidden ∷ codes "D:\\none" ∷ []);
  deny_path_kinds = some ((hidden, LeafKind.dir) ∷ []);
}

abbrev there : Text → Bool
there p = includes (work ∷ codes "C:\\tools" ∷ []) p

abbrev granted : WinAppContainerGrants
granted = record {
  read_paths = codes "C:\\tools" ∷ [];
  write_paths = work ∷ [];
  deny_paths = some (hidden ∷ []);
  deny_path_kinds = some ((hidden, LeafKind.dir) ∷ []);
}

abbrev kept : Filtered
kept = record {
  grants = granted;
  dropped = codes "C:\\gone" ∷ codes "D:\\none" ∷ [];
  materialize = record { path = hidden; kind = LeafKind.dir } ∷ [];
}

within_any_case : is_path_within (codes "c:/WORK/a") (codes "C:/work/") ≡ true
unfolding is_path_within ◌===◌ to_lower strip_trailing_separators starts_with
within_any_case = refl

twin : unpacked_twin_path (codes "/r/app.asar/bin/x.exe") ≡ codes "/r/app.asar.unpacked/bin/x.exe"
unfolding unpacked_twin_path cut_at behind
twin = refl

abbrev files : Files
files = record {
  outcome = λ call. FsOutcome.done;
  exists = there;
  ledger_dir = codes "C:\\ledger";
  random = codes "00ff";
  join = λ a b. a ++ codes "\\" ++ b;
  dirname = λ p. p;
}

abbrev ledger : Ledger
ledger = record {
  entries = some (codes "foreign.grants" ∷ entry_of files ∷ []);
  read = λ entry. some (format_app_container_grants granted);
  deletes = λ name. true;
  removes = λ entry. true;
}

sweep-IsScoped_example : All (IsScoped ledger) (sweep_orphaned_app_container_profiles true ledger).0
sweep-IsScoped_example = sweep-IsScoped true ledger

abbrev payload : ProbePayloadHost
payload = record {
  command = codes "C:\\l.exe";
  prefix_args = codes "--selftest" ∷ [];
  read_grants = codes "C:\\tools" ∷ [];
}

abbrev setting : Setting
setting = record {
  is_win32 = true;
  bindings = true;
  launcher = some (codes "C:\\l.exe");
  handshake = true;
  join = λ a b. a ++ codes "\\" ++ b;
  launch = record { files = files; host = some payload; pid_of = λ command args cwd. some 77 };
}

abbrev probings : Probings
probings = record {
  filesystem = record {
    setting = setting;
    outside_dir = some (codes "C:\\o");
    granted_dir = some work;
    writes_secret = true;
    control_dir = some (codes "C:\\c");
    plain_result = λ command args. some (codes "read:ok");
    polls = none ∷ some (codes "denied:ok") ∷ [];
    last = some (codes "denied:ok");
  };
  network = record {
    setting = setting;
    scratch_dir = none;
    granted_dir = none;
    listener_pid = none;
    port_files = [];
    plain_fails = true;
    plain_result = λ command args. none;
    polls = [];
    last = none;
  };
  caging = record {
    setting = setting;
    scratch_dir = none;
    granted_dir = none;
    reports = [];
    report = none;
    pid_files = [];
    is_alive = λ pid. false;
    gone_after = λ effects child grandchild. [];
  };
}

reported_pid_test : reported_pid (codes "caged=1" ∷ codes "pid=x" ∷ codes "pid=42" ∷ []) ≡ some 42
unfolding reported_pid behind digits_of is_digits of_decimal
reported_pid_test = refl
