-- ===== src/JobObject/Registry.antt =====
-- win-job-object.ts: the registry of jobs by process id, with the native calls made.
use convira_sandbox.Base.{
  ℕ, Bool, true, false, Option, none, some, List, [], ◌∷◌, ◌++◌, ◌==◌, map, if◌then◌else◌,
}
use convira_sandbox.Base.Text.{Text, codes}
use convira_sandbox.Base.Result.{Result, ok, throw}

-- `_jobsByPid`, a `Map<number, number>`, in the order of insertion.
abbrev pub Registry : Type 0
Registry = List (ℕ × ℕ)

unfoldable pub get : ℕ → Registry → Option ℕ
get pid [] = none
get pid ((p, job) ∷ m) = let rest = get pid m in if p == pid then some job else rest

unfoldable pub set : ℕ → ℕ → Registry → Registry
set pid job [] = (pid, job) ∷ []
set pid job ((p, j) ∷ m) =
    let rest = set pid job m in if p == pid then (p, job) ∷ m else (p, j) ∷ rest

unfoldable pub delete : ℕ → Registry → Registry
delete pid [] = []
delete pid ((p, job) ∷ m) = let rest = delete pid m in if p == pid then m else (p, job) ∷ rest

-- The native calls. `created` is a `createJob` that returned this id.
pub data NativeCall : Type 0 where
  created : ℕ → NativeCall
  assigned : ℕ → ℕ → NativeCall
  terminated : ℕ → ℕ → NativeCall
  closed : ℕ → NativeCall

-- What an operation answers, the registry after it, and its native calls in order.
pub record Step : Type 0 where
  pub answer : Result Bool
  pub registry : Registry
  pub calls : List NativeCall

unfoldable pub no_addon : Text
no_addon =
    codes "[sandbox-runtime] Windows Job Object addon is not available; refusing to run an "
    ++ codes "unconfined process"

-- The error of a native call.
abbrev pub native_error : Text
native_error = codes "native"

-- `attachPidToJob` from `assignProcess` on; `assigns` says whether that call returns.
unfoldable pub assign_and_set : ℕ → Registry → Bool → ℕ → Step
assign_and_set pid registry assigns job =
    if assigns
    then record {
      answer = ok true;
      registry = set pid job registry;
      calls = created job ∷ assigned job pid ∷ [];
    }
    else record {
      answer = throw native_error;
      registry = registry;
      calls = created job ∷ assigned job pid ∷ closed job ∷ [];
    }

-- `creates` is the id that `createJob` returns, or nothing if it throws.
unfoldable pub attach_pid_to_job : Bool → Option ℕ → Bool → ℕ → Registry → Step
attach_pid_to_job addon creates assigns pid registry =
    if addon
    then elim creates [
      | none ↦ record { answer = throw native_error; registry = registry; calls = [] }
      | some job ↦ assign_and_set pid registry assigns job
    ]
    else record { answer = throw no_addon; registry = registry; calls = [] }

-- The registered job, where the addon is there.
unfoldable pub job_of : Bool → ℕ → Registry → Option ℕ
job_of addon pid registry = if addon then get pid registry else none

nothing_registered : Registry → Step
nothing_registered registry = record { answer = ok false; registry = registry; calls = [] }

-- `returns` says whether `terminateJob` returns; the job is closed either way.
unfoldable pub terminate_win_job : Bool → Bool → ℕ → ℕ → Registry → Step
unfolding nothing_registered
terminate_win_job addon returns exit_code pid registry = elim (job_of addon pid registry) [
  | none ↦ nothing_registered registry
  | some job ↦ record {
    answer = if returns then ok true else throw native_error;
    registry = delete pid registry;
    calls = terminated job exit_code ∷ closed job ∷ [];
  }
]

unfoldable pub release_win_job : Bool → ℕ → Registry → Step
unfolding nothing_registered
release_win_job addon pid registry = elim (job_of addon pid registry) [
  | none ↦ nothing_registered registry
  | some job ↦ record { answer = ok true; registry = delete pid registry; calls = closed job ∷ [] }
]

unfoldable pub reset_win_job_registry : Bool → Registry → Step
reset_win_job_registry addon registry = record {
  answer = ok true;
  registry = [];
  calls = if addon then map (λ (entry : ℕ × ℕ). closed entry.1) registry else [];
}
