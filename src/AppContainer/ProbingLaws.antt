-- ===== src/AppContainer/ProbingLaws.antt =====
-- win-appcontainer.ts: what passing the guards of an AppContainer probe means.
use convira_sandbox.Base.{
  Bool, true, Option, none, some, List, [], ◌∷◌, ◌++◌, ◌≡◌, refl, inl, inr, arith, Option-cases,
}
use convira_sandbox.Base.Text.{Text}
use convira_sandbox.AppContainer.Launching.{Effect, remove, LauncherSpawn}
use convira_sandbox.AppContainer.Probing.{Setting, with_launcher, with_directories, after_launch}

-- A body that passed ran with a launcher.
pub with_launcher_lem :
    (setting : Setting) (body : Text → Bool × List Effect)
    → (with_launcher setting body).0 ≡ true
    → (launcher : Text) × (setting.launcher ≡ some launcher) × ((body launcher).0 ≡ true)
unfolding with_launcher
with_launcher_lem setting body h = elim (Option-cases setting.launcher) [
  | inl absent ↦ absurd (ground arith)
  | inr (launcher, there) ↦ (launcher, there, ground arith)
]

pub with_directories_lem :
    (first second : Option Text) (body : Text → Text → Bool × List Effect)
    → (with_directories first second body).0 ≡ true
    → (a : Text) × (b : Text) × (first ≡ some a) × (second ≡ some b) × ((body a b).0 ≡ true)
unfolding with_directories
with_directories_lem none second body h = absurd (cc)
with_directories_lem (some a) none body h = absurd (cc)
with_directories_lem (some a) (some b) body h = (a, b, refl, refl, h)

-- The effects of a body that ran are all that a probe does, but for the removal of its directories.
pub with_launcher-effects :
    (setting : Setting) (body : Text → Bool × List Effect) (launcher : Text)
    → (with_launcher setting body).0 ≡ true
    → setting.launcher ≡ some launcher
    → (with_launcher setting body).1 ≡ (body launcher).1
unfolding with_launcher
with_launcher-effects setting body launcher h e = ground arith

pub with_directories-effects :
    (first second : Option Text) (body : Text → Text → Bool × List Effect) (a b : Text)
    → first ≡ some a
    → second ≡ some b
    → (with_directories first second body).1 ≡ (body a b).1 ++ remove a ∷ remove b ∷ []
unfolding with_directories
with_directories-effects first second body a b e d = rw (e, d)

-- A leg that passed was started, and its verdict holds.
pub after_launch_lem :
    (verdict_of : LauncherSpawn → Bool × List Effect)
    (launched : Option LauncherSpawn × List Effect)
    → (after_launch verdict_of launched).0 ≡ true
    → (spawned : LauncherSpawn) × (launched.0 ≡ some spawned) × ((verdict_of spawned).0 ≡ true)
unfolding after_launch
after_launch_lem verdict_of (none, effects) h = absurd (cc)
after_launch_lem verdict_of (some spawned, effects) h = (spawned, refl, h)
