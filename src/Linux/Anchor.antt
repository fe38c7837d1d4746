-- ===== src/Linux/Anchor.antt =====
-- native-linux.ts: `deepestExistingDirBelow` climbs to the nearest existing ancestor and stops.
use convira_sandbox.Base.{
  ℕ, zero, suc, ◌≤◌, ◌<◌, ◌≡◌, true, false, ◌||◌, Option, none, some, inl, inr, ◌↔◌, arith, length,
  if◌then◌else◌, Bool-cases, subst,
}
use convira_sandbox.Base.Text.{Text, ◌===◌, ===_refl}
use convira_sandbox.Host.{Host, exists_sync, is_directory}
use convira_sandbox.NodePath.{dirname}
use convira_sandbox.NodePath.Shrinks.{rank, rank-le-length, rank-dirname, rank-dirname-le, rank-pos}
use convira_sandbox.Linux.Mounts.{deepest_from, deepest_existing_dir_below}

-- The anchor of a path: itself if it is an existing directory; the anchor of its parent if it does
-- not exist, is not the mount and has a parent of its own.
pub data Anchor (host : Host) (mount_dest : Text) : Text → Text → Type 0 where
  here :
      {p : Text}
      → exists_sync host p ≡ true
      → is_directory (host.stat_sync p) ≡ true
      → Anchor host mount_dest p p
  up :
      {p a : Text}
      → exists_sync host p ≡ false
      → (p === mount_dest) ≡ false
      → (dirname p === p) ≡ false
      → Anchor host mount_dest (dirname p) a
      → Anchor host mount_dest p a

-- A parent that differs from its path has a lower rank.
climbs : (p : Text) → (dirname p === p) ≡ false → rank (dirname p) < rank p
climbs p moves = elim (rank-dirname p) [
  | inl e ↦ absurd (cc (rw e at moves, ===_refl p))
  | inr h ↦ h
]

module _ (host : Host) (m : Text) where
  -- Fuel of at least the rank of the path is enough.
  deepest_from_total :
      (fuel : ℕ) (p : Text)
      → rank p ≤ fuel
      → (r : Option Text) × (deepest_from host fuel m p ≡ some r)
  unfolding deepest_from
  deepest_from_total zero p h = absurd (omega (arith, rank-pos p))
  deepest_from_total (suc fuel) p h = elim (Bool-cases (exists_sync host p)) [
    | inl there ↦ (if is_directory (host.stat_sync p) then some p else none, rw there)
    | inr missing ↦ elim (Bool-cases (p === m || dirname p === p)) [
      | inl stop ↦ (none, ground arith)
      | inr go ↦
          let (r, found) =
            deepest_from_total fuel (dirname p) (omega (arith, climbs p (ground arith))) in
          (r, ground arith)
    ]
  ]

  deepest_from_sound :
      (fuel : ℕ) (p a : Text) → deepest_from host fuel m p ≡ some (some a) → Anchor host m p a
  unfolding deepest_from
  deepest_from_sound zero p a h = absurd (cc)
  deepest_from_sound (suc fuel) p a h = elim (Bool-cases (exists_sync host p)) [
    | inl there ↦ elim (Bool-cases (is_directory (host.stat_sync p))) [
      | inl dir ↦
          let same : p ≡ a = ground arith in subst (λ x. Anchor host m p x) same (here there dir)
      | inr other ↦ absurd (ground arith)
    ]
    | inr missing ↦ elim (Bool-cases (p === m || dirname p === p)) [
      | inl stop ↦ absurd (ground arith)
      | inr go ↦
          up missing (ground arith) (ground arith)
            (deepest_from_sound fuel (dirname p) a (ground arith))
    ]
  ]

  deepest_from_complete :
      (fuel : ℕ) {p a : Text}
      → Anchor host m p a
      → rank p ≤ fuel
      → deepest_from host fuel m p ≡ some (some a)
  unfolding deepest_from
  deepest_from_complete zero {p} an h = absurd (omega (arith, rank-pos p))
  deepest_from_complete (suc fuel) (here there dir) h = rw there (rw dir)
  deepest_from_complete (suc fuel) (up {p} missing below moves an) h =
      let found = deepest_from_complete fuel an (omega (arith, climbs p moves)) in
      rw (missing, below, moves, found)

  -- The loop always ends with an answer: its fuel is enough for every path.
  deepest_from_answers :
      (target : Text)
      → (r : Option Text) × (deepest_from host (suc (suc (length target))) m (dirname target)
          ≡ some r)
  deepest_from_answers target =
      deepest_from_total (suc (suc (length target))) (dirname target)
        (omega (arith, rank-dirname-le target, rank-le-length target))

-- `deepestExistingDirBelow` ends with an answer for every path, and the answer is a directory exactly
-- when that directory is the anchor of the target's parent: every name between them is missing on
-- the host, the directory exists, and the climb has not passed the mount.
pub deepest_existing_dir_below_iff :
    (host : Host) (m target a : Text)
    → ((r : Option Text) × (deepest_from host (suc (suc (length target))) m (dirname target)
          ≡ some r))
      × ((deepest_existing_dir_below host m target ≡ some a) ↔ Anchor host m (dirname target) a)
unfolding deepest_existing_dir_below
deepest_existing_dir_below_iff host m target a = (
  deepest_from_answers host m target,
  (
    λ h. deepest_from_sound host m (suc (suc (length target))) (dirname target) a (inner h),
    λ an. rw (
      deepest_from_complete host m (suc (suc (length target))) an
          (omega (arith, rank-dirname-le target, rank-le-length target)),
      deepest_existing_dir_below,
    ),
  ),
)
  where
    inner :
        deepest_existing_dir_below host m target ≡ some a
        → deepest_from host (suc (suc (length target))) m (dirname target) ≡ some (some a)
    inner h = ground (arith, deepest_from_answers host m target)
