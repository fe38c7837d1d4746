-- ===== src/Macos/PrivateFilesLaws.antt =====
-- native-macos.ts: where every private directory that a process makes ends up.
use convira_sandbox.Base.{
  ◌&&◌, ◌||◌, none, some, List, [], ◌∷◌, ◌++◌, map, ◌≡◌, refl, inl, inr, arith, Bool-cases,
  Option-cases, if◌then◌else◌,
}
use convira_sandbox.Base.Text.{Text, ◌===◌, includes, includes-append, includes_same}
use convira_sandbox.Macos.PrivateFiles.{
  ProfileCall, make_directory, remove_directory, ProfileState, Writing, add_directory, write_into,
  write_profile_to_private_temp, cleanup_created_profiles, register_exit_cleanup, begin_spawn, Deed,
  small_spawn, large_spawn, exit, do_deed, do_deeds,
}

-- The directories that a row of calls makes, and those that it removes.
unfoldable pub made : List ProfileCall → List Text
made [] = []
made (make_directory dir ∷ calls) = dir ∷ made calls
made (_ ∷ calls) = made calls

unfoldable pub removed : List ProfileCall → List Text
removed [] = []
removed (remove_directory dir ∷ calls) = dir ∷ removed calls
removed (_ ∷ calls) = removed calls

-- The directories in which opening, writing or closing the file failed.
unfoldable pub lost : List Deed → List Text
lost [] = []
lost (small_spawn ∷ ds) = lost ds
lost (exit ∷ ds) = lost ds
lost (large_spawn w ∷ ds) =
    let rest = lost ds in
    elim w.dir [
      | none ↦ rest
      | some dir ↦ if w.opens && w.writes && w.closes then rest else dir ∷ rest
    ]

made-append : (xs ys : List ProfileCall) → made (xs ++ ys) ≡ made xs ++ made ys
unfolding made
made-append [] ys = refl
made-append (x ∷ xs) ys = ground (arith, made-append xs ys)

removed-append : (xs ys : List ProfileCall) → removed (xs ++ ys) ≡ removed xs ++ removed ys
unfolding removed
removed-append [] ys = refl
removed-append (x ∷ xs) ys = ground (arith, removed-append xs ys)

made-removals : (dirs : List Text) → made (map remove_directory dirs) ≡ []
unfolding made
made-removals [] = refl
made-removals (d ∷ dirs) = made-removals dirs

removed-removals : (dirs : List Text) → removed (map remove_directory dirs) ≡ dirs
unfolding removed
removed-removals [] = refl
removed-removals (d ∷ dirs) = ground (arith, removed-removals dirs)

-- Every directory that was there or is made is still known, or removed, or lost.
abbrev pub IsTraced : Text → ProfileState → List Text → ProfileState × List ProfileCall → Type 0
IsTraced d s gone (s', calls) =
    (includes (made calls) d || includes s.created d)
    ≡ (includes s'.created d || includes (removed calls) d || includes gone d)

begin_spawn-IsTraced : (d : Text) (s : ProfileState) → IsTraced d s [] (begin_spawn s)
unfolding begin_spawn register_exit_cleanup made removed includes
begin_spawn-IsTraced d s = ground arith

includes-add_directory :
    (d dir : Text) (s : ProfileState)
    → includes (add_directory dir s).created d ≡ (includes s.created d || includes (dir ∷ []) d)
unfolding add_directory includes
includes-add_directory d dir s = elim (Bool-cases (includes s.created dir)) [
  | inl known ↦ elim (Bool-cases (dir === d)) [
    | inl same ↦ ground (arith, includes_same s.created dir d same)
    | inr other ↦ ground arith
  ]
  | inr fresh ↦ ground (arith, includes-append s.created (dir ∷ []) d)
]

write_into-IsTraced :
    (d dir : Text) (w : Writing) (s : ProfileState)
    → (includes (made (write_into w s dir).2) d || includes (dir ∷ []) d || includes s.created d)
      ≡ (includes (write_into w s dir).1.created d
          || includes (removed (write_into w s dir).2) d
          || includes (if w.opens && w.writes && w.closes then [] else dir ∷ []) d)
unfolding write_into made removed includes
write_into-IsTraced d dir w s = elim (Bool-cases w.opens) [
  | inr shut ↦ ground arith
  | inl opens ↦ elim (Bool-cases w.writes) [
    | inr full ↦ ground arith
    | inl writes ↦ elim (Bool-cases w.closes) [
      | inr broken ↦ ground arith
      | inl closes ↦ ground (arith, includes-add_directory d dir s)
    ]
  ]
]

written-IsTraced :
    (d : Text) (w : Writing) (s : ProfileState)
    → (includes (made (write_profile_to_private_temp w s).2) d || includes s.created d) ≡ (
        includes (write_profile_to_private_temp w s).1.created d
        || includes (removed (write_profile_to_private_temp w s).2) d
        || includes (lost (large_spawn w ∷ [])) d)
unfolding write_profile_to_private_temp made removed includes lost
written-IsTraced d w s = elim (Option-cases w.dir) [
  | inl failed ↦ ground arith
  | inr (dir, there) ↦ ground (arith, write_into-IsTraced d dir w s)
]

large_spawn-IsTraced :
    (d : Text) (w : Writing) (s : ProfileState)
    → IsTraced d s (lost (large_spawn w ∷ [])) (do_deed (large_spawn w) s)
unfolding do_deed includes
large_spawn-IsTraced d w s =
    let (s', first) = begin_spawn s in
    let later = (write_profile_to_private_temp w s').2 in
    ground (
      arith,
      begin_spawn-IsTraced d s,
      written-IsTraced d w s',
      made-append first later,
      removed-append first later,
      includes-append (made first) (made later) d,
      includes-append (removed first) (removed later) d,
    )

exit-IsTraced : (d : Text) (s : ProfileState) → IsTraced d s [] (do_deed exit s)
unfolding do_deed cleanup_created_profiles includes
exit-IsTraced d s = ground (arith, made-removals s.created, removed-removals s.created)

do_deed-IsTraced :
    (d : Text) (deed : Deed) (s : ProfileState) → IsTraced d s (lost (deed ∷ [])) (do_deed deed s)
unfolding do_deed lost
do_deed-IsTraced d small_spawn s = begin_spawn-IsTraced d s
do_deed-IsTraced d (large_spawn w) s = large_spawn-IsTraced d w s
do_deed-IsTraced d exit s = exit-IsTraced d s

lost_cons :
    (d : Text) (deed : Deed) (ds : List Deed)
    → includes (lost (deed ∷ ds)) d ≡ (includes (lost (deed ∷ [])) d || includes (lost ds) d)
unfolding lost includes
lost_cons d small_spawn ds = refl
lost_cons d exit ds = refl
lost_cons d (large_spawn w) ds = elim (Option-cases w.dir) [
  | inl failed ↦ ground arith
  | inr (dir, there) ↦ ground arith
]

nothing-IsTraced : (d : Text) (s : ProfileState) → IsTraced d s (lost []) (s, [])
unfolding made removed lost includes
nothing-IsTraced d s = ground arith

append-IsTraced :
    (d : Text) (s s' s'' : ProfileState) (first later : List ProfileCall) (gone gone' : List Text)
    → IsTraced d s gone (s', first)
    → IsTraced d s' gone' (s'', later)
    → (includes (made (first ++ later)) d || includes s.created d) ≡ (
        includes s''.created d
        || includes (removed (first ++ later)) d
        || (includes gone d || includes gone' d))
append-IsTraced d s s' s'' first later gone gone' h k = ground (
  arith,
  made-append first later,
  removed-append first later,
  includes-append (made first) (made later) d,
  includes-append (removed first) (removed later) d,
)

pub do_deeds-IsTraced :
    (d : Text) (ds : List Deed) (s : ProfileState) → IsTraced d s (lost ds) (do_deeds ds s)
unfolding do_deeds
do_deeds-IsTraced d [] s = nothing-IsTraced d s
do_deeds-IsTraced d (deed ∷ ds) s =
    let (s', first) = do_deed deed s in
    let (s'', later) = do_deeds ds s' in
    let both =
      append-IsTraced d s s' s'' first later (lost (deed ∷ [])) (lost ds)
        (do_deed-IsTraced d deed s) (do_deeds-IsTraced d ds s') in
    cc (both, lost_cons d deed ds)
