-- ===== src/Landlock/Hardening.antt =====
-- packages/sandbox-enforcer/src/enforcer.ts: `applyKernelHardening`.
use convira_sandbox.Base.{ℕ, Bool, true, false, ◌||◌, Option, none, some, List, if◌then◌else◌}
use convira_sandbox.Base.Text.{Text}
use convira_sandbox.Base.Result.{Result, ok, throw}
use convira_sandbox.Types.{LandlockRuleset, SeccompProfileName}
use convira_sandbox.Landlock.Ruleset.{
  Kernel, KernelCall, is_landlock_supported, get_landlock_abi_version, apply_landlock_ruleset,
}

-- `isSeccompSupported()` and `getSeccompFd`.
pub record Seccomp : Type 0 where
  pub supported : Bool
  pub get_fd : SeccompProfileName → Result ℕ

pub record KernelHardeningConfig : Type 0 where
  pub landlock : Option LandlockRuleset
  pub seccomp_profile : Option SeccompProfileName

pub record LandlockResult : Type 0 where
  pub applied : Bool
  pub supported : Bool
  pub abi_version : Option ℕ
  pub error : Option Text

pub record SeccompResult : Type 0 where
  pub applied : Bool
  pub supported : Bool
  pub fd : Option ℕ
  pub error : Option Text

pub record EnforcementResult : Type 0 where
  pub landlock : LandlockResult
  pub seccomp : SeccompResult

abbrev pub start_landlock : Kernel → LandlockResult
start_landlock kernel = record {
  applied = false;
  supported = is_landlock_supported kernel;
  abi_version = get_landlock_abi_version kernel;
  error = none;
}

landlock_result : LandlockResult → Result (List KernelCall) → LandlockResult
landlock_result start (ok calls) = record start { applied = true }
landlock_result start (throw message) = record start { error = some message }

-- The first `if`.
unfoldable pub harden_landlock : Kernel → Option LandlockRuleset → LandlockResult
unfolding landlock_result
harden_landlock kernel none = start_landlock kernel
harden_landlock kernel (some asked) =
    if is_landlock_supported kernel
    then landlock_result (start_landlock kernel) (apply_landlock_ruleset kernel asked)
    else start_landlock kernel

abbrev pub start_seccomp : Seccomp → SeccompResult
start_seccomp seccomp = record {
  applied = false;
  supported = seccomp.supported;
  fd = none;
  error = none;
}

seccomp_result : SeccompResult → Result ℕ → SeccompResult
seccomp_result start (ok fd) = record start { applied = true; fd = some fd }
seccomp_result start (throw message) = record start { error = some message }

-- The second `if`.
unfoldable pub harden_seccomp : Seccomp → Option SeccompProfileName → SeccompResult
unfolding seccomp_result
harden_seccomp seccomp none = start_seccomp seccomp
harden_seccomp seccomp (some profile) =
    if seccomp.supported
    then seccomp_result (start_seccomp seccomp) (seccomp.get_fd profile)
    else start_seccomp seccomp

unfoldable pub apply_kernel_hardening : Kernel → Seccomp → KernelHardeningConfig → EnforcementResult
apply_kernel_hardening kernel seccomp config = record {
  landlock = harden_landlock kernel config.landlock;
  seccomp = harden_seccomp seccomp config.seccomp_profile;
}

unfoldable pub is_kernel_hardening_available : Kernel → Seccomp → Bool
is_kernel_hardening_available kernel seccomp = is_landlock_supported kernel || seccomp.supported
