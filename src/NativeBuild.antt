-- ===== src/NativeBuild.antt =====
-- packages/sandbox-runtime/scripts/build-win-job-object-native.mjs: when the native artifacts are
-- current, and `ensureWinJobObjectNativeBuild` inside its lock. `sha256` is the hash of a content.
pub mod Current
mod Examples
use convira_sandbox.Base.{Bool, true, false, not, ◌&&◌, ◌++◌, Option, none, some, if◌then◌else◌}
use convira_sandbox.Base.Text.{Text, codes, ◌===◌}
use convira_sandbox.Base.Result.{Result, ok, throw}

pub record BuildStamp : Type 0 where
  pub fingerprint : Text
  pub binary_sha256 : Text
  pub launcher_sha256 : Text

-- The contents of the addon and of the launcher, and the stamp (nothing if it cannot be read).
pub record Artifacts : Type 0 where
  pub binary : Option Text
  pub launcher : Option Text
  pub stamp : Option BuildStamp

-- What compilation comes to, and the contents that it leaves.
pub record Compilation : Type 0 where
  pub result : Result (Unit {0})
  pub binary : Option Text
  pub launcher : Option Text

module _ (sha256 : Text → Text) where
  is_stamped : Text → Text → Text → Option BuildStamp → Bool
  is_stamped fingerprint binary launcher none = false
  is_stamped fingerprint binary launcher (some stamp) =
      (stamp.fingerprint === fingerprint)
      && (stamp.binary_sha256 === sha256 binary)
      && (stamp.launcher_sha256 === sha256 launcher)

  -- The field `current` of `currentBuildState`, with the fingerprint of the sources.
  unfoldable pub current_build_state : Text → Artifacts → Bool
  unfolding is_stamped
  current_build_state fingerprint files = elim files.binary [
    | none ↦ false
    | some binary ↦ elim files.launcher [
      | none ↦ false
      | some launcher ↦ is_stamped fingerprint binary launcher files.stamp
    ]
  ]

  stamped : Text → Artifacts → Text → Text → Artifacts
  stamped fingerprint files binary launcher = record files {
    stamp = some (record {
      fingerprint = fingerprint;
      binary_sha256 = sha256 binary;
      launcher_sha256 = sha256 launcher;
    });
  }

  -- `writeBuildStamp`; the hash of a missing file throws.
  unfoldable pub write_build_stamp : Text → Artifacts → Result (Unit {0}) × Artifacts
  unfolding stamped
  write_build_stamp fingerprint files = elim files.binary [
    | none ↦ (throw (codes "ENOENT"), files)
    | some binary ↦ elim files.launcher [
      | none ↦ (throw (codes "ENOENT"), files)
      | some launcher ↦ (ok tt, stamped fingerprint files binary launcher)
    ]
  ]

  abbrev pub published : Artifacts → Compilation → Artifacts
  published files c = record files { binary = c.binary; launcher = c.launcher }

  -- From the end of the compilation on, with the fingerprints before and after it.
  unfoldable pub stamp_compiled :
      Text → Text → Artifacts → Result (Unit {0}) → Result (Unit {0}) × Artifacts
  stamp_compiled before after files (throw message) = (throw message, files)
  stamp_compiled before after files (ok _) =
      if after === before then write_build_stamp after files else (
        throw (codes "win_job_object native sources changed during compilation; rebuild required"),
        files,
      )

  unfoldable pub ensure_win_job_object_native_build :
      Bool → Bool → Text → Text → Compilation → Artifacts → Result (Unit {0}) × Artifacts
  ensure_win_job_object_native_build is_win32 verify_only before after c files =
      if not is_win32
      then (ok tt, files)
      else if current_build_state before files
      then (ok tt, files)
      else if verify_only
      then (
        throw (
            codes
              "win_job_object addon or convira_sbx_launch launcher is missing, stale, or corrupt; "
            ++ codes "run pnpm --filter @convira/sandbox-runtime build:native"),
        files,
      )
      else stamp_compiled before after (published files c) c.result
