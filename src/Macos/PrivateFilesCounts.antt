-- ===== src/Macos/PrivateFilesCounts.antt =====
-- native-macos.ts: the exit handler and the sweep, once in a process, and all private directories.
use convira_sandbox.Base.{
  ℕ, ◌+◌, Bool, true, false, ◌||◌, List, [], ◌∷◌, ◌++◌, map, ◌≡◌, refl, inl, inr, arith, Bool-cases,
  Option-cases,
}
use convira_sandbox.Base.Text.{Text, includes}
use convira_sandbox.Macos.PrivateFiles.{
  ProfileCall, sweep_stale, register_exit, remove_directory, ProfileState, at_start, Writing,
  add_directory, write_into, write_profile_to_private_temp, cleanup_created_profiles,
  register_exit_cleanup, begin_spawn, Deed, small_spawn, large_spawn, exit, do_deed, do_deeds,
}
use convira_sandbox.Macos.PrivateFilesLaws.{made, removed, lost, do_deeds-IsTraced}

-- How often the exit handler is registered, and how often old profiles are swept.
unfoldable pub registrations : List ProfileCall → ℕ
registrations [] = 0
registrations (register_exit ∷ calls) = 1 + registrations calls
registrations (_ ∷ calls) = registrations calls

unfoldable pub sweeps : List ProfileCall → ℕ
sweeps [] = 0
sweeps (sweep_stale ∷ calls) = 1 + sweeps calls
sweeps (_ ∷ calls) = sweeps calls

registrations-append :
    (xs ys : List ProfileCall) → registrations (xs ++ ys) ≡ registrations xs + registrations ys
unfolding registrations
registrations-append [] ys = omega arith
registrations-append (x ∷ xs) ys = ground (arith, registrations-append xs ys)

sweeps-append : (xs ys : List ProfileCall) → sweeps (xs ++ ys) ≡ sweeps xs + sweeps ys
unfolding sweeps
sweeps-append [] ys = omega arith
sweeps-append (x ∷ xs) ys = ground (arith, sweeps-append xs ys)

-- The handler is registered with the first spawn, and the sweep is made with it.
abbrev pub as_count : Bool → ℕ
as_count true = 1
as_count false = 0

-- Whether a run of deeds has a spawn.
abbrev pub is_spawn : Deed → Bool
is_spawn small_spawn = true
is_spawn (large_spawn w) = true
is_spawn exit = false

unfoldable pub has_spawn : List Deed → Bool
has_spawn [] = false
has_spawn (deed ∷ ds) = is_spawn deed || has_spawn ds

abbrev pub IsCounted : ProfileState → Bool → ProfileState × List ProfileCall → Type 0
IsCounted s spawned (s', calls) =
    (s'.exit_registered ≡ s'.swept)
    × (s'.swept ≡ (s.swept || spawned))
    × (as_count s.swept + registrations calls ≡ as_count s'.swept)
    × (as_count s.swept + sweeps calls ≡ as_count s'.swept)

registrations-removals : (dirs : List Text) → registrations (map remove_directory dirs) ≡ 0
unfolding registrations
registrations-removals [] = refl
registrations-removals (d ∷ dirs) = registrations-removals dirs

sweeps-removals : (dirs : List Text) → sweeps (map remove_directory dirs) ≡ 0
unfolding sweeps
sweeps-removals [] = refl
sweeps-removals (d ∷ dirs) = sweeps-removals dirs

-- A write registers nothing and sweeps nothing.
abbrev IsQuiet : ProfileState → ProfileState × List ProfileCall → Type 0
IsQuiet s (s', calls) =
    (s'.exit_registered ≡ s.exit_registered)
    × (s'.swept ≡ s.swept)
    × (registrations calls ≡ 0)
    × (sweeps calls ≡ 0)

write_into-IsQuiet :
    (w : Writing) (s : ProfileState) (dir : Text)
    → IsQuiet s ((write_into w s dir).1, (write_into w s dir).2)
unfolding write_into add_directory registrations sweeps
write_into-IsQuiet w s dir = elim (Bool-cases w.opens) [
  | inr shut ↦ ground arith
  | inl opens ↦ elim (Bool-cases w.writes) [
    | inr full ↦ ground arith
    | inl writes ↦ elim (Bool-cases w.closes) [
      | inr broken ↦ ground arith
      | inl closes ↦ ground arith
    ]
  ]
]

written-IsQuiet :
    (w : Writing) (s : ProfileState)
    → IsQuiet s ((write_profile_to_private_temp w s).1, (write_profile_to_private_temp w s).2)
unfolding write_profile_to_private_temp registrations sweeps
written-IsQuiet w s = elim (Option-cases w.dir) [
  | inl failed ↦ ground arith
  | inr (dir, there) ↦ ground (arith, write_into-IsQuiet w s dir)
]

begin_spawn-IsCounted :
    (s : ProfileState) → s.exit_registered ≡ s.swept → IsCounted s true (begin_spawn s)
unfolding begin_spawn register_exit_cleanup registrations sweeps
begin_spawn-IsCounted s h = ground arith

large_spawn-IsCounted :
    (w : Writing) (s : ProfileState)
    → s.exit_registered ≡ s.swept
    → IsCounted s true (do_deed (large_spawn w) s)
unfolding do_deed
large_spawn-IsCounted w s h =
    let (s', first) = begin_spawn s in
    let later = (write_profile_to_private_temp w s').2 in
    ground (
      arith,
      begin_spawn-IsCounted s h,
      written-IsQuiet w s',
      registrations-append first later,
      sweeps-append first later,
    )

do_deed-IsCounted :
    (deed : Deed) (s : ProfileState)
    → s.exit_registered ≡ s.swept
    → IsCounted s (is_spawn deed) (do_deed deed s)
unfolding do_deed begin_spawn register_exit_cleanup registrations sweeps cleanup_created_profiles
do_deed-IsCounted small_spawn s h = ground arith
do_deed-IsCounted (large_spawn w) s h = large_spawn-IsCounted w s h
do_deed-IsCounted exit s h =
    ground (arith, registrations-removals s.created, sweeps-removals s.created)

do_deeds-IsCounted :
    (ds : List Deed) (s : ProfileState)
    → s.exit_registered ≡ s.swept
    → IsCounted s (has_spawn ds) (do_deeds ds s)
unfolding do_deeds has_spawn registrations sweeps
do_deeds-IsCounted [] s h = ground arith
do_deeds-IsCounted (deed ∷ ds) s h =
    let (s', first) = do_deed deed s in
    let (s'', later) = do_deeds ds s' in
    let here = do_deed-IsCounted deed s h in
    ground (
      arith,
      here,
      do_deeds-IsCounted ds s' here.0,
      registrations-append first later,
      sweeps-append first later,
    )

-- Whatever spawns and exits a process of the macOS adapter makes, the private directories that it
-- makes are exactly those that it still knows, those that it has removed, and those in which a file
-- could not be opened, written or closed; the exit handler is registered once and old profiles are
-- swept once if there is a spawn among them, and neither happens if there is none.
pub do_deeds-IsAccounted :
    (ds : List Deed) (d : Text)
    → let (s, calls) = do_deeds ds at_start in
      (includes (made calls) d
        ≡ (includes s.created d || includes (removed calls) d || includes (lost ds) d))
      × (registrations calls ≡ as_count (has_spawn ds))
      × (sweeps calls ≡ as_count (has_spawn ds))
unfolding includes
do_deeds-IsAccounted ds d =
    ground (arith, do_deeds-IsTraced d ds at_start, do_deeds-IsCounted ds at_start refl)
