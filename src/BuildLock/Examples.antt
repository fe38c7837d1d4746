-- ===== src/BuildLock/Examples.antt =====
-- Two builds, and the lock of a build that was killed.
use convira_sandbox.Base.{ℕ, false, ◌≡◌, ◌==◌, refl}
use convira_sandbox.BuildLock.{
  waiting, claimed, working, removing, free, unowned, owned, Builds, move, Sight, claim,
  write_owner, judge, remove, Reach, here, next, at_start,
}
use convira_sandbox.BuildLock.Exclusive.{reach-excludes}

abbrev trusting : Sight
trusting = record { is_dead = λ p. false; is_old = false }

abbrev first_claims : Builds
first_claims = move 1 claimed unowned at_start

abbrev first_works : Builds
first_works = move 1 working (owned 1) first_claims

abbrev first_run : Reach trusting at_start first_works
first_run = next (next here (claim at_start 1 refl refl)) (write_owner first_claims 1 refl refl)

abbrev first_build : ℕ
first_build = 1

reach-excludes_example : first_build ≡ first_build
reach-excludes_example =
    reach-excludes trusting first_works first_build first_build (λ r. refl) refl first_run refl refl

-- The process 9 was killed inside its task.
abbrev after_kill : Sight
after_kill = record { is_dead = λ p. p == 9; is_old = false }

abbrev stale : Builds
stale = record { phase = λ p. waiting; lock = owned 9 }

abbrev judged : Builds
judged = move 2 removing (owned 9) (move 1 removing (owned 9) stale)

abbrev retaken : Builds
retaken = move 1 working (owned 1) (move 1 claimed unowned (move 1 waiting free judged))

abbrev both : Builds
both = move 2 working (owned 2) (move 2 claimed unowned (move 2 waiting free retaken))

-- Both builds find the dead owner; the first takes the lock, and the second then removes the lock of
-- the first, which is alive, and takes it too.
stale_lock_test : Reach after_kill stale both × (both.phase 1 ≡ working) × (both.phase 2 ≡ working)
stale_lock_test =
    let one = next here (judge stale 1 refl refl) in
    let two = next one (judge (move 1 removing (owned 9) stale) 2 refl refl) in
    let three = next two (remove judged 1 refl) in
    let four = next three (claim (move 1 waiting free judged) 1 refl refl) in
    let five =
      next four (write_owner (move 1 claimed unowned (move 1 waiting free judged)) 1 refl refl) in
    let six = next five (remove retaken 2 refl) in
    let seven = next six (claim (move 2 waiting free retaken) 2 refl refl) in
    let eight =
      next seven (write_owner (move 2 claimed unowned (move 2 waiting free retaken)) 2 refl refl) in
    (eight, refl, refl)
