-- ===== src/Linux/Seal.antt =====
-- native-linux.ts: `sealDirectory`, the plan of the seals and the deny overlays.
use convira_sandbox.Base.{
  ℕ, not, ◌&&◌, ◌||◌, Option, none, some, List, [], ◌∷◌, ◌++◌, map, length, any, filter, ltb,
  if◌then◌else◌,
}
use convira_sandbox.Base.Text.{Text, codes, ◌===◌, starts_with, includes, split}
use convira_sandbox.Base.Result.{Result, ok, throw, ◌>>=◌}
use convira_sandbox.Types.{LeafKind}
use convira_sandbox.Host.{Host, exists_sync}
use convira_sandbox.NodePath.{path_join}
use convira_sandbox.DenyLeafKind.{resolve_deny_leaf_kind}
use convira_sandbox.Linux.Mounts.{
  BindFlag, ro_bind, dev_bind, BwrapArg, mount, tmpfs, EmittedMount, mount_arg, is_device_node,
  is_writable_bind, within, governing_mount, deepest_existing_dir_below,
}

-- `emitted.filter(...)`: the mounts below `dir` whose destination is not denied.
unfoldable pub buried_mounts : Text → List Text → List EmittedMount → List EmittedMount
buried_mounts dir denied emitted =
    filter (λ m. starts_with m.dest (dir ++ codes "/") && not (includes denied m.dest)) emitted

-- What the loop over the directory's entries pushes for one child.
unfoldable pub hand_back : Host → BindFlag → List Text → List EmittedMount → Text → List BwrapArg
hand_back host dir_flag denied buried child =
    if includes denied child || any (λ m. m.dest === child) buried || not (exists_sync host child)
    then []
    else mount (if is_device_node host child then dev_bind else dir_flag) child child ∷ []

unfoldable pub hand_back_all :
    Host → Text → BindFlag → List Text → List EmittedMount → List Text → List BwrapArg
hand_back_all host dir dir_flag denied buried [] = []
hand_back_all host dir dir_flag denied buried (entry ∷ entries) =
    hand_back host dir_flag denied buried (path_join dir entry)
    ++ hand_back_all host dir dir_flag denied buried entries

unfoldable pub seal_directory :
    Host → Text → BindFlag → List Text → List EmittedMount → Result (List BwrapArg)
seal_directory host dir dir_flag denied emitted = elim (host.readdir_sync dir) [
  | none ↦ throw (
      codes "[sandbox-runtime] cannot enumerate "
      ++ dir
      ++ codes " to mask a deny path that does not exist yet; refusing to spawn")
  | some entries ↦
      let buried = buried_mounts dir denied emitted in
      ok (
        tmpfs dir ∷ (hand_back_all host dir dir_flag denied buried entries ++ map mount_arg buried))
]

pub record SealTarget : Type 0 where
  pub dir : Text
  pub flag : BindFlag

pub record SealPlan : Type 0 where
  pub targets : List SealTarget
  pub maskable : List Text

-- `maskable.add(p)`, and the push of the anchor unless it is a target already.
unfoldable pub add_target : SealPlan → Text → SealTarget → SealPlan
add_target plan p target = record {
  targets =
      if any (λ t. t.dir === target.dir) plan.targets
      then plan.targets
      else plan.targets ++ target ∷ [];
  maskable = plan.maskable ++ p ∷ [];
}

-- The body of the loop for a missing deny under a writable mount, at its anchor.
unfoldable pub plan_anchor : List Text → SealPlan → Text → EmittedMount → Option Text → SealPlan
plan_anchor deny_paths plan p m none = plan
plan_anchor deny_paths plan p m (some anchor) =
    if any (λ d. within anchor d) deny_paths
    then plan
    else add_target plan p (record { dir = anchor; flag = m.flag })

unfoldable pub plan_missing : Host → List Text → SealPlan → Text → Option EmittedMount → SealPlan
plan_missing host deny_paths plan p none = plan
plan_missing host deny_paths plan p (some m) =
    if is_writable_bind m.flag
    then plan_anchor deny_paths plan p m (deepest_existing_dir_below host m.dest p)
    else plan

unfoldable pub plan_seals : Host → List EmittedMount → List Text → SealPlan → List Text → SealPlan
plan_seals host emitted deny_paths plan [] = plan
plan_seals host emitted deny_paths plan (p ∷ ps) =
    plan_seals host emitted deny_paths
      (if exists_sync host p
        then plan
        else plan_missing host deny_paths plan p (governing_mount emitted p))
      ps

abbrev pub depth : SealTarget → ℕ
depth t = length (split b'/' t.dir)

-- `sealTargets.sort` by depth; the sort of JavaScript is stable.
unfoldable pub insert_by_depth : SealTarget → List SealTarget → List SealTarget
insert_by_depth t [] = t ∷ []
insert_by_depth t (s ∷ ts) =
    let rest = insert_by_depth t ts in if ltb (depth s) (depth t) then s ∷ rest else t ∷ s ∷ ts

unfoldable pub sort_by_depth : List SealTarget → List SealTarget
sort_by_depth [] = []
sort_by_depth (t ∷ ts) = insert_by_depth t (sort_by_depth ts)

unfoldable pub seal_all :
    Host → List Text → List EmittedMount → List SealTarget → Result (List BwrapArg)
seal_all host denied emitted [] = ok []
seal_all host denied emitted (t ∷ ts) = do
  first ← seal_directory host t.dir t.flag denied emitted
  rest ← seal_all host denied emitted ts
  ok (first ++ rest)

unfoldable pub mask : LeafKind → Text → BwrapArg
mask LeafKind.dir p = tmpfs p
mask LeafKind.file p = mount ro_bind (codes "/dev/null") p

abbrev pub or_dir : Option LeafKind → LeafKind
or_dir none = LeafKind.dir
or_dir (some kind) = kind

-- The overlay of one deny path: of the kind it has on the host, or of its leaf kind if it is
-- missing and maskable. `existsSync` and `statSync` answer from the same state of the host.
unfoldable pub overlay : Host → Option (List (Text × LeafKind)) → List Text → Text → List BwrapArg
overlay host kinds maskable p = elim (host.stat_sync p) [
  | some st ↦ mask (if st.is_directory then LeafKind.dir else LeafKind.file) p ∷ []
  | none ↦ if includes maskable p then mask (or_dir (resolve_deny_leaf_kind p kinds)) p ∷ [] else []
]

unfoldable pub overlays :
    Host → Option (List (Text × LeafKind)) → List Text → List Text → List BwrapArg
overlays host kinds maskable [] = []
overlays host kinds maskable (p ∷ ps) =
    overlay host kinds maskable p ++ overlays host kinds maskable ps
