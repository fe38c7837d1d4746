-- ===== src/Macos/PrivateFiles.antt =====
-- native-macos.ts: the private directories that large profiles are written to, the handler that
-- removes them when the process ends, and the sweep of the first spawn.
use convira_sandbox.Base.{
  Bool, true, false, Option, none, some, List, [], ◌∷◌, ◌++◌, map, if◌then◌else◌,
}
use convira_sandbox.Base.Text.{Text, codes, includes}
use convira_sandbox.Base.Result.{Result, ok, throw}

-- The calls that change the file system or the process.
pub data ProfileCall : Type 0 where
  sweep_stale : ProfileCall
  register_exit : ProfileCall
  make_directory : (dir : Text) → ProfileCall
  open_exclusive : (path : Text) → ProfileCall
  write_profile : (path : Text) → ProfileCall
  close_file : (path : Text) → ProfileCall
  remove_directory : (dir : Text) → ProfileCall

-- `sweptThisProcess`, `exitCleanupRegistered` and `createdProfileDirs` in the order of insertion.
pub record ProfileState : Type 0 where
  pub swept : Bool
  pub exit_registered : Bool
  pub created : List Text

abbrev pub at_start : ProfileState
at_start = record { swept = false; exit_registered = false; created = [] }

-- What one write meets: the new directory (nothing if `mkdtemp` throws), the random name of the file,
-- and whether opening, writing and closing return.
pub record Writing : Type 0 where
  pub dir : Option Text
  pub random : Text
  pub join : Text → Text → Text
  pub opens : Bool
  pub writes : Bool
  pub closes : Bool

abbrev pub profile_path : Writing → Text → Text
profile_path w dir = w.join dir (w.random ++ codes ".sb")

-- `createdProfileDirs.add(dir)`.
unfoldable pub add_directory : Text → ProfileState → ProfileState
add_directory dir s =
    if includes s.created dir then s else record s { created = s.created ++ dir ∷ [] }

-- From `openSync` on; `closeSync` stands in the `finally` block.
unfoldable pub write_into :
    Writing → ProfileState → Text → Result Text × ProfileState × List ProfileCall
write_into w s dir =
    let path = profile_path w dir in
    let calls = open_exclusive path ∷ write_profile path ∷ close_file path ∷ [] in
    if w.opens
    then (if w.writes
        then (if w.closes
            then (ok path, add_directory dir s, calls)
            else (throw (codes "close"), s, calls))
        else (throw (codes "write"), s, calls))
    else (throw (codes "open"), s, open_exclusive path ∷ [])

unfoldable pub write_profile_to_private_temp :
    Writing → ProfileState → Result Text × ProfileState × List ProfileCall
write_profile_to_private_temp w s = elim w.dir [
  | none ↦ (throw (codes "mkdtemp"), s, [])
  | some dir ↦ let (path, s', calls) = write_into w s dir in (path, s', make_directory dir ∷ calls)
]

-- The exit handler; a removal that fails is passed over.
unfoldable pub cleanup_created_profiles : ProfileState → ProfileState × List ProfileCall
cleanup_created_profiles s = (record s { created = [] }, map remove_directory s.created)

unfoldable pub register_exit_cleanup : ProfileState → ProfileState × List ProfileCall
register_exit_cleanup s =
    if s.exit_registered then (s, []) else (record s { exit_registered = true }, register_exit ∷ [])

-- How a spawn begins.
unfoldable pub begin_spawn : ProfileState → ProfileState × List ProfileCall
begin_spawn s =
    if s.swept
    then (s, [])
    else let (s', calls) = register_exit_cleanup (record s { swept = true }) in
      (s', sweep_stale ∷ calls)

-- What the process does: a spawn whose profile is small, one whose profile is written, or its exit.
pub data Deed : Type 0 where
  small_spawn : Deed
  large_spawn : Writing → Deed
  exit : Deed

unfoldable pub do_deed : Deed → ProfileState → ProfileState × List ProfileCall
do_deed small_spawn s = begin_spawn s
do_deed (large_spawn w) s =
    let (s', first) = begin_spawn s in
    let (path, s'', later) = write_profile_to_private_temp w s' in (s'', first ++ later)
do_deed exit s = cleanup_created_profiles s

unfoldable pub do_deeds : List Deed → ProfileState → ProfileState × List ProfileCall
do_deeds [] s = (s, [])
do_deeds (d ∷ ds) s =
    let (s', first) = do_deed d s in let (s'', later) = do_deeds ds s' in (s'', first ++ later)
