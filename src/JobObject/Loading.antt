-- ===== src/JobObject/Loading.antt =====
-- win-job-object.ts: loading the addon, and whether a process is alive.
use convira_sandbox.Base.{ℕ, Bool, true, false, not, ◌||◌, ◌==◌, Option, none, some, if◌then◌else◌}
use convira_sandbox.Base.Text.{Text, codes, trim, to_lower, starts_with}
use convira_sandbox.Probes.Group.{Signal, delivered, refused, is_alive}
use convira_sandbox.ProbeCache.{Cache}

-- The memo of the bindings, where `none` is `undefined` and the bindings are `none` when they are
-- missing. `binary` is what `require` of the addon gives.
module _ {Bindings : Type 0} (binary : Option Bindings) where
  load_once : Cache (Option Bindings) → Option Bindings × Cache (Option Bindings)
  load_once s = elim s.cache [
    | some known ↦ (known, s)
    | none ↦ (binary, record s { cache = some binary })
  ]

  -- The override answers first, then the platform, then the memo.
  unfoldable pub load_win_job_object_bindings :
      Bool → Cache (Option Bindings) → Option Bindings × Cache (Option Bindings)
  unfolding load_once
  load_win_job_object_bindings is_win32 s = elim s.override [
    | some pinned ↦ (pinned, s)
    | none ↦ if is_win32 then load_once s else (none, s)
  ]

-- What `spawnSync` of ps returns.
pub record ProcessState : Type 0 where
  pub error : Bool
  pub status : Option ℕ
  pub stdout : Text

abbrev pub exits_zero : Option ℕ → Bool
exits_zero none = false
exits_zero (some status) = status == 0

-- A letter `Z` or `z` at the front, as `toUpperCase().startsWith("Z")` finds it.
abbrev pub is_zombie : Text → Bool
is_zombie stdout = starts_with (to_lower (trim stdout)) (codes "z")

-- `isAlive`: the answer to the signal 0, and off Windows the state of a process that accepts it.
unfoldable pub is_process_alive : Bool → Signal → ProcessState → Bool
is_process_alive is_win32 (refused code) state = is_alive (refused code)
is_process_alive is_win32 delivered state =
    if is_win32
    then true
    else if state.error || not (exits_zero state.status)
    then false
    else not (is_zombie state.stdout)
