-- ===== src/BuildLock.antt =====
-- packages/sandbox-runtime/scripts/build-win-job-object-native.mjs: `withExclusiveBuildLock`, where
-- several build processes take steps in any order. A process is a number; the lock is a directory
-- that may hold the file owner.json.
pub mod Exclusive
mod Examples
use convira_sandbox.Base.{ℕ, Bool, true, false, ◌≡◌, ◌==◌, if◌then◌else◌}

-- Where a process stands: at `mkdir`, behind it, inside `task`, between its verdict that the lock is
-- an orphan and `rm`, and behind the loop.
pub data Phase : Type 0 where
  waiting claimed working removing left : Phase

-- The directory is missing, there without an owner, or there with the process that owns it.
pub data Lock : Type 0 where
  free : Lock
  unowned : Lock
  owned : (process : ℕ) → Lock

pub record Builds : Type 0 where
  pub phase : ℕ → Phase
  pub lock : Lock

abbrev pub move : ℕ → Phase → Lock → Builds → Builds
move p new lock s = record { phase = λ q. if q == p then new else s.phase q; lock = lock }

-- What a waiting process may see: which processes are gone (`isProcessAlive`, negated), and whether a
-- lock without an owner is past the grace period.
pub record Sight : Type 0 where
  pub is_dead : ℕ → Bool
  pub is_old : Bool

-- `ownerIsDead || ownerWasNeverWritten`.
abbrev pub is_orphan : Sight → Lock → Bool
is_orphan sight free = false
is_orphan sight unowned = sight.is_old
is_orphan sight (owned q) = sight.is_dead q

abbrev pub is_held : Lock → Bool
is_held free = false
is_held _ = true

-- One step of the process `p`. `writeFile` throws if the directory is gone and replaces an owner that
-- is there; a process may be killed anywhere.
pub data Step (sight : Sight) : Builds → Builds → Type 0 where
  claim :
      (s : Builds) (p : ℕ)
      → s.phase p ≡ waiting
      → s.lock ≡ free
      → Step sight s (move p claimed unowned s)
  write_owner :
      (s : Builds) (p : ℕ)
      → s.phase p ≡ claimed
      → is_held s.lock ≡ true
      → Step sight s (move p working (owned p) s)
  lose_owner :
      (s : Builds) (p : ℕ) → s.phase p ≡ claimed → s.lock ≡ free → Step sight s (move p left free s)
  finish : (s : Builds) (p : ℕ) → s.phase p ≡ working → Step sight s (move p left free s)
  judge :
      (s : Builds) (p : ℕ)
      → s.phase p ≡ waiting
      → is_orphan sight s.lock ≡ true
      → Step sight s (move p removing s.lock s)
  remove : (s : Builds) (p : ℕ) → s.phase p ≡ removing → Step sight s (move p waiting free s)
  time_out : (s : Builds) (p : ℕ) → s.phase p ≡ waiting → Step sight s (move p left s.lock s)
  kill : (s : Builds) (p : ℕ) → Step sight s (move p left s.lock s)

-- The states that a row of steps leads to.
pub data Reach (sight : Sight) (s : Builds) : Builds → Type 0 where
  here : Reach sight s s
  next : {t u : Builds} → Reach sight s t → Step sight t u → Reach sight s u

abbrev pub at_start : Builds
at_start = record { phase = λ p. waiting; lock = free }
