-- ===== src/JobObject/Accounts.antt =====
-- win-job-object.ts: every job that was created is closed, still registered, or was overwritten.
use convira_sandbox.Base.{
  ℕ, ◌+◌, Bool, true, false, Option, none, some, List, [], ◌∷◌, ◌++◌, ◌≡◌, refl, inl, inr, ◌==◌,
  arith, map, Option-cases, if◌then◌else◌,
}
use convira_sandbox.Base.Result.{ok}
use convira_sandbox.JobObject.Registry.{
  Registry, get, set, delete, NativeCall, created, assigned, terminated, closed, Step,
  attach_pid_to_job, assign_and_set, job_of, terminate_win_job, release_win_job,
  reset_win_job_registry,
}

-- An operation with what its native calls do.
pub data Operation : Type 0 where
  attach : Bool → Option ℕ → Bool → ℕ → Operation
  terminate : Bool → Bool → ℕ → ℕ → Operation
  release : Bool → ℕ → Operation
  reset : Bool → Operation

unfoldable pub perform : Operation → Registry → Step
perform (attach addon creates assigns pid) registry =
    attach_pid_to_job addon creates assigns pid registry
perform (terminate addon returns exit_code pid) registry =
    terminate_win_job addon returns exit_code pid registry
perform (release addon pid) registry = release_win_job addon pid registry
perform (reset addon) registry = reset_win_job_registry addon registry

-- The registry after a run.
unfoldable pub registry_after : List Operation → Registry → Registry
registry_after [] registry = registry
registry_after (op ∷ ops) registry = registry_after ops (perform op registry).registry

-- The native calls of a run.
unfoldable pub calls_of : List Operation → Registry → List NativeCall
calls_of [] registry = []
calls_of (op ∷ ops) registry =
    (perform op registry).calls ++ calls_of ops (perform op registry).registry

-- How often a job stands in the registry.
unfoldable pub held : ℕ → Registry → ℕ
held id [] = 0
held id ((p, job) ∷ m) = (if job == id then 1 else 0) + held id m

-- How often a job was created, and how often it was closed.
unfoldable pub creations : ℕ → List NativeCall → ℕ
creations id [] = 0
creations id (created job ∷ calls) = (if job == id then 1 else 0) + creations id calls
creations id (assigned job pid ∷ calls) = creations id calls
creations id (terminated job code ∷ calls) = creations id calls
creations id (closed job ∷ calls) = creations id calls

unfoldable pub closures : ℕ → List NativeCall → ℕ
closures id [] = 0
closures id (created job ∷ calls) = closures id calls
closures id (assigned job pid ∷ calls) = closures id calls
closures id (terminated job code ∷ calls) = closures id calls
closures id (closed job ∷ calls) = (if job == id then 1 else 0) + closures id calls

-- One if the job is this one.
abbrev pub is_job : ℕ → Option ℕ → ℕ
is_job id none = 0
is_job id (some job) = if job == id then 1 else 0

-- How often an operation forgets a job without closing it: an attachment overwrites the job of a
-- process that has one, and a reset without the addon empties the registry.
unfoldable pub forgotten : ℕ → Operation → Registry → ℕ
forgotten id (attach true (some job) true pid) registry = is_job id (get pid registry)
forgotten id (attach true (some job) false pid) registry = 0
forgotten id (attach true none assigns pid) registry = 0
forgotten id (attach false creates assigns pid) registry = 0
forgotten id (terminate addon returns exit_code pid) registry = 0
forgotten id (release addon pid) registry = 0
forgotten id (reset true) registry = 0
forgotten id (reset false) registry = held id registry

unfoldable pub all_forgotten : ℕ → List Operation → Registry → ℕ
all_forgotten id [] registry = 0
all_forgotten id (op ∷ ops) registry =
    forgotten id op registry + all_forgotten id ops (perform op registry).registry

creations-append :
    (id : ℕ) (xs ys : List NativeCall) → creations id (xs ++ ys) ≡ creations id xs + creations id ys
unfolding creations
creations-append id [] ys = omega arith
creations-append id (created job ∷ xs) ys = ground (arith, creations-append id xs ys)
creations-append id (assigned job pid ∷ xs) ys = creations-append id xs ys
creations-append id (terminated job code ∷ xs) ys = creations-append id xs ys
creations-append id (closed job ∷ xs) ys = creations-append id xs ys

closures-append :
    (id : ℕ) (xs ys : List NativeCall) → closures id (xs ++ ys) ≡ closures id xs + closures id ys
unfolding closures
closures-append id [] ys = omega arith
closures-append id (created job ∷ xs) ys = closures-append id xs ys
closures-append id (assigned job pid ∷ xs) ys = closures-append id xs ys
closures-append id (terminated job code ∷ xs) ys = closures-append id xs ys
closures-append id (closed job ∷ xs) ys = ground (arith, closures-append id xs ys)

held-set :
    (id pid job : ℕ) (m : Registry)
    → held id (set pid job m) + is_job id (get pid m) ≡ held id m + is_job id (some job)
unfolding held set get
held-set id pid job [] = ground arith
held-set id pid job ((p, j) ∷ m) = ground (arith, held-set id pid job m)

held-delete :
    (id pid : ℕ) (m : Registry) → held id (delete pid m) + is_job id (get pid m) ≡ held id m
unfolding held delete get
held-delete id pid [] = refl
held-delete id pid ((p, j) ∷ m) = ground (arith, held-delete id pid m)

closures_of_all :
    (id : ℕ) (m : Registry) → closures id (map (λ (entry : ℕ × ℕ). closed entry.1) m) ≡ held id m
unfolding closures held
closures_of_all id [] = refl
closures_of_all id ((p, j) ∷ m) = ground (arith, closures_of_all id m)

-- The books of one operation.
abbrev pub IsBalanced : ℕ → Operation → Registry → Type 0
IsBalanced id op registry =
    held id registry + creations id (perform op registry).calls
    ≡ closures id (perform op registry).calls
      + (held id (perform op registry).registry + forgotten id op registry)

attach-IsBalanced :
    (id : ℕ) (addon : Bool) (creates : Option ℕ) (assigns : Bool) (pid : ℕ) (registry : Registry)
    → IsBalanced id (attach addon creates assigns pid) registry
unfolding perform attach_pid_to_job assign_and_set forgotten creations closures
attach-IsBalanced id false creates assigns pid registry = ground arith
attach-IsBalanced id true none assigns pid registry = ground arith
attach-IsBalanced id true (some job) false pid registry = ground arith
attach-IsBalanced id true (some job) true pid registry =
    ground (arith, held-set id pid job registry)

terminate-IsBalanced :
    (id : ℕ) (addon returns : Bool) (exit_code pid : ℕ) (registry : Registry)
    → IsBalanced id (terminate addon returns exit_code pid) registry
unfolding perform terminate_win_job job_of forgotten creations closures
terminate-IsBalanced id false returns exit_code pid registry = ground arith
terminate-IsBalanced id true returns exit_code pid registry =
    elim (Option-cases (get pid registry)) [
      | inl absent ↦ ground arith
      | inr (job, there) ↦ ground (arith, held-delete id pid registry)
    ]

release-IsBalanced :
    (id : ℕ) (addon : Bool) (pid : ℕ) (registry : Registry)
    → IsBalanced id (release addon pid) registry
unfolding perform release_win_job job_of forgotten creations closures
release-IsBalanced id false pid registry = ground arith
release-IsBalanced id true pid registry = elim (Option-cases (get pid registry)) [
  | inl absent ↦ ground arith
  | inr (job, there) ↦ ground (arith, held-delete id pid registry)
]

creations_of_all :
    (id : ℕ) (m : Registry) → creations id (map (λ (entry : ℕ × ℕ). closed entry.1) m) ≡ 0
unfolding creations
creations_of_all id [] = refl
creations_of_all id (entry ∷ m) = creations_of_all id m

perform-IsBalanced : (id : ℕ) (op : Operation) (registry : Registry) → IsBalanced id op registry
unfolding perform reset_win_job_registry forgotten creations closures held
perform-IsBalanced id (attach addon creates assigns pid) registry =
    attach-IsBalanced id addon creates assigns pid registry
perform-IsBalanced id (terminate addon returns exit_code pid) registry =
    terminate-IsBalanced id addon returns exit_code pid registry
perform-IsBalanced id (release addon pid) registry = release-IsBalanced id addon pid registry
perform-IsBalanced id (reset true) registry =
    ground (arith, closures_of_all id registry, creations_of_all id registry)
perform-IsBalanced id (reset false) registry = ground arith

get-set : (pid job : ℕ) (m : Registry) → get pid (set pid job m) ≡ some job
unfolding get set
get-set pid job [] = ground arith
get-set pid job ((p, j) ∷ m) = ground (arith, get-set pid job m)

-- What an attachment that returns has done: the job was created, the assignment of the process to it
-- returned, nothing was closed, and the job is the one that is registered for the process.
abbrev pub IsAttached : Bool → Option ℕ → Bool → ℕ → Step → Type 0
IsAttached addon creates assigns pid step =
    (addon ≡ true)
    × (assigns ≡ true)
    × (job : ℕ) × (creates ≡ some job)
    × (step.calls ≡ created job ∷ assigned job pid ∷ [])
    × (get pid step.registry ≡ some job)

assign_and_set-IsAttached :
    (pid : ℕ) (registry : Registry) (assigns : Bool) (job : ℕ) (answer : Bool)
    → (assign_and_set pid registry assigns job).answer ≡ ok answer
    → IsAttached true (some job) assigns pid (assign_and_set pid registry assigns job)
unfolding assign_and_set
assign_and_set-IsAttached pid registry true job answer h =
    (refl, refl, job, refl, refl, get-set pid job registry)
assign_and_set-IsAttached pid registry false job answer h = absurd (cc)

-- Attaching fails closed: it returns only with the addon there, the job created, the assignment of
-- the process to it successful and the job registered for the process; in every other case it throws.
pub attach_pid_to_job-IsAttached :
    (addon : Bool) (creates : Option ℕ) (assigns : Bool) (pid : ℕ) (registry : Registry)
    (answer : Bool)
    → (attach_pid_to_job addon creates assigns pid registry).answer ≡ ok answer
    → IsAttached addon creates assigns pid (attach_pid_to_job addon creates assigns pid registry)
unfolding attach_pid_to_job
attach_pid_to_job-IsAttached false creates assigns pid registry answer h = absurd (cc)
attach_pid_to_job-IsAttached true none assigns pid registry answer h = absurd (cc)
attach_pid_to_job-IsAttached true (some job) assigns pid registry answer h =
    assign_and_set-IsAttached pid registry assigns job answer h

-- In every run of the registry's operations, whatever the native calls do, a job is created as often
-- as it is closed, still registered, or forgotten: overwritten by a second attachment of its
-- process, or dropped by a reset without the addon. Jobs registered before count as created.
pub run-accounts :
    (id : ℕ) (ops : List Operation) (registry : Registry)
    → held id registry + creations id (calls_of ops registry)
      ≡ closures id (calls_of ops registry)
        + (held id (registry_after ops registry) + all_forgotten id ops registry)
unfolding calls_of registry_after all_forgotten creations closures
run-accounts id [] registry = ground arith
run-accounts id (op ∷ ops) registry =
    let rest = (perform op registry).registry in
    ground (
      arith,
      perform-IsBalanced id op registry,
      run-accounts id ops rest,
      creations-append id (perform op registry).calls (calls_of ops rest),
      closures-append id (perform op registry).calls (calls_of ops rest),
    )
