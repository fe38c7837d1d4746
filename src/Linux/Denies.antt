-- ===== src/Linux/Denies.antt =====
-- native-linux.ts: a denied path that exists on the host is masked in the sandbox.
use convira_sandbox.Base.{
  true, false, Option, ◌⊎◌, none, some, List, [], ◌∷◌, ◌++◌, ◌≡◌, refl, inl, inr, arith, any, all,
  or_true, flat_map, any-append, all-append, Option-cases,
}
use convira_sandbox.Base.Text.{Text, codes, ◌===◌, ===_refl, ===_sound, includes, includes-append}
use convira_sandbox.Base.Result.{ok, returned_through}
use convira_sandbox.Types.{LeafKind, Filesystem, SandboxSpawnConfig, SpawnSpec}
use convira_sandbox.Host.{Host, exists_sync}
use convira_sandbox.Rlimit.Probing.{RlimitProbeResult}
use convira_sandbox.Linux.Mounts.{BwrapArg, within, render}
use convira_sandbox.Linux.Seal.{overlay, overlays, mask}
use convira_sandbox.Linux.Spawn.{
  SeccompFd, deny_list, expand_denies, add_deny, add_real, or_empty, filesystem_args, exposed_args,
  overlay_args, seal_args, isolation_args, seccomp_args, entry, wrap_spawn_with, seal_plan,
}
use convira_sandbox.Linux.Governing.{
  covers, governing, is_mask, IsMasked, governing-append_some, governing-append_none, masks_govern,
}

module _ (host : Host) (kinds : Option (List (Text × LeafKind))) (maskable : List Text) where
  overlay_masks : (p : Text) → all is_mask (overlay host kinds maskable p) ≡ true
  unfolding overlay is_mask mask ◌===◌
  overlay_masks p = ground arith

  overlays_masks : (ps : List Text) → all is_mask (overlays host kinds maskable ps) ≡ true
  unfolding overlays
  overlays_masks [] = refl
  overlays_masks (p ∷ ps) = ground (
    arith,
    all-append is_mask (overlay host kinds maskable p) (overlays host kinds maskable ps),
    overlay_masks p,
    overlays_masks ps,
  )

  overlay-covers :
      (p q : Text)
      → exists_sync host p ≡ true
      → within q p ≡ true
      → any (covers q) (overlay host kinds maskable p) ≡ true
  unfolding overlay exists_sync mask covers
  overlay-covers p q h k = ground arith

  overlays_cover :
      (ps : List Text) (d q : Text)
      → includes ps d ≡ true
      → exists_sync host d ≡ true
      → within q d ≡ true
      → any (covers q) (overlays host kinds maskable ps) ≡ true
  unfolding overlays includes
  overlays_cover [] d q h e k = absurd (cc)
  overlays_cover (p ∷ ps) d q h e k = elim (or_true (p === d) (includes ps d) h) [
    | inl here ↦ ground (
      arith,
      any-append (covers q) (overlay host kinds maskable p) (overlays host kinds maskable ps),
      overlay-covers d q e k,
      ===_sound p d here,
    )
    | inr later ↦ ground (
      arith,
      any-append (covers q) (overlay host kinds maskable p) (overlays host kinds maskable ps),
      overlays_cover ps d q later e k,
    )
  ]

isolation_covers :
    (fd : SeccompFd) (config : SandboxSpawnConfig) (q : Text)
    → any (covers q) (isolation_args fd config) ≡ false
unfolding isolation_args seccomp_args covers
isolation_covers fd config q = ground arith

filesystem_args_split :
    (host : Host) (fs : Filesystem) (mounts : List BwrapArg)
    → filesystem_args host fs ≡ ok mounts
    → (sealed : List BwrapArg) × (mounts ≡ exposed_args host fs sealed ++ overlay_args host fs)
unfolding filesystem_args
filesystem_args_split host fs mounts h =
    let (sealed, _, e) =
      returned_through (seal_args host fs)
        (λ sealed. ok (exposed_args host fs sealed ++ overlay_args host fs)) h in
    (sealed, cc)

-- Whatever the mounts and seals before them, the overlays mask each denied path that exists.
overlay_args_mask :
    (host : Host) (fs : Filesystem) (before after : List BwrapArg) (d q : Text)
    → includes (deny_list host fs) d ≡ true
    → exists_sync host d ≡ true
    → within q d ≡ true
    → any (covers q) after ≡ false
    → IsMasked (governing ((before ++ overlay_args host fs) ++ after) q)
unfolding overlay_args
overlay_args_mask host fs before after d q denied present inside apart =
    let kinds = fs.deny_path_kinds in
    let maskable = (seal_plan host fs).maskable in
    let (m, found, masked) =
      masks_govern (overlays host kinds maskable (deny_list host fs)) q
        (overlays_masks host kinds maskable (deny_list host fs))
        (overlays_cover host kinds maskable (deny_list host fs) d q denied present inside) in
    rw
      (governing-append_none (before ++ overlays host kinds maskable (deny_list host fs)) after q
        apart)
      (rw (governing-append_some before (overlays host kinds maskable (deny_list host fs)) q found)
        masked)

-- Every spawn that `wrapSpawn` grants runs bubblewrap with mount operations after which each path
-- at or below a denied path that exists on the host (the literal path of a request or its real path)
-- is seen through an empty tmpfs or the null device, whatever was granted, sealed or handed back;
-- the rest of the command line is behind `--`.
pub denied_paths-IsMasked :
    (host : Host) (fd : SeccompFd) (rlimit : RlimitProbeResult) (bwrap : Text)
    (config : SandboxSpawnConfig) (spec : SpawnSpec) (d q : Text)
    → wrap_spawn_with host fd rlimit bwrap config ≡ ok spec
    → includes (deny_list host config.filesystem) d ≡ true
    → exists_sync host d ≡ true
    → within q d ≡ true
    → (ops : List BwrapArg) × (inner : List Text) × (spec.args
        ≡ flat_map render ops ++ codes "--" ∷ inner)
      × IsMasked (governing ops q)
unfolding wrap_spawn_with
denied_paths-IsMasked host fd rlimit bwrap config spec d q h denied present inside =
    let fs = config.filesystem in
    let (mounts, found, rest) = returned_through (filesystem_args host fs) _ h in
    let (inner, entered, last) = returned_through (entry rlimit config) _ rest in
    let (sealed, same) = filesystem_args_split host fs mounts found in
    (
      mounts ++ isolation_args fd config,
      inner,
      cc,
      rw same (
          overlay_args_mask host fs (exposed_args host fs sealed) (isolation_args fd config) d q
            denied present inside (isolation_covers fd config q)),
    )

includes-last : (xs : List Text) (p : Text) → includes (xs ++ p ∷ []) p ≡ true
unfolding includes
includes-last [] p = ground (arith, ===_refl p)
includes-last (x ∷ xs) p = ground (arith, includes-last xs p)

add_deny_keeps :
    (acc : List Text) (r p : Text) → includes acc p ≡ true → includes (add_deny acc r) p ≡ true
unfolding add_deny
add_deny_keeps acc r p h = ground (arith, includes-append acc (r ∷ []) p)

add_deny_adds : (acc : List Text) (p : Text) → includes (add_deny acc p) p ≡ true
unfolding add_deny
add_deny_adds acc p = ground (arith, includes-last acc p)

add_real_keeps :
    (acc : List Text) (o : Option Text) (p : Text)
    → includes acc p ≡ true
    → includes (add_real acc o) p ≡ true
unfolding add_real
add_real_keeps acc none p h = h
add_real_keeps acc (some r) p h = add_deny_keeps acc r p h

add_real_adds : (acc : List Text) (p : Text) → includes (add_real acc (some p)) p ≡ true
unfolding add_real
add_real_adds acc p = add_deny_adds acc p

expand_denies_keeps :
    (host : Host) (rs acc : List Text) (p : Text)
    → includes acc p ≡ true
    → includes (expand_denies host acc rs) p ≡ true
unfolding expand_denies
expand_denies_keeps host [] acc p h = h
expand_denies_keeps host (r ∷ rs) acc p h =
    expand_denies_keeps host rs (add_real (add_deny acc r) (host.realpath_sync r)) p
      (add_real_keeps (add_deny acc r) (host.realpath_sync r) p (add_deny_keeps acc r p h))

expand_denies_complete :
    (host : Host) (rs acc : List Text) (r : Text)
    → includes rs r ≡ true
    → includes (expand_denies host acc rs) r ≡ true
unfolding expand_denies includes
expand_denies_complete host [] acc r h = absurd (cc)
expand_denies_complete host (s ∷ rs) acc r h = elim (or_true (s === r) (includes rs r) h) [
  | inl here ↦ expand_denies_keeps host rs (add_real (add_deny acc s) (host.realpath_sync s)) r (
      add_real_keeps (add_deny acc s) (host.realpath_sync s) r
        (rw (===_sound s r here) (add_deny_adds acc r)))
  | inr later ↦
      expand_denies_complete host rs (add_real (add_deny acc s) (host.realpath_sync s)) r later
]

expand_denies_real :
    (host : Host) (rs acc : List Text) (r real : Text)
    → includes rs r ≡ true
    → host.realpath_sync r ≡ some real
    → includes (expand_denies host acc rs) real ≡ true
unfolding expand_denies includes
expand_denies_real host [] acc r real h e = absurd (cc)
expand_denies_real host (s ∷ rs) acc r real h e = elim (or_true (s === r) (includes rs r) h) [
  | inl here ↦
      expand_denies_keeps host rs (add_real (add_deny acc s) (host.realpath_sync s)) real
        (rw (===_sound s r here) (rw e (add_real_adds (add_deny acc r) real)))
  | inr later ↦
      expand_denies_real host rs (add_real (add_deny acc s) (host.realpath_sync s)) r real later e
]

-- A path is listed under its own name, and under the real name if it resolves.
abbrev pub IsListed : (Text → Option Text) → List Text → Text → Type 0
IsListed realpath listed r =
    (includes listed r ≡ true)
    × ((realpath r ≡ none)
        ⊎ ((real : Text) × (realpath r ≡ some real) × (includes listed real ≡ true)))

-- The list of denied paths holds every requested path, whether or not it resolves; if it resolves,
-- the list also holds the real path, so the deny cannot be reached through its other name.
pub deny_list_complete :
    (host : Host) (fs : Filesystem) (r : Text)
    → includes (or_empty fs.deny_paths) r ≡ true
    → IsListed host.realpath_sync (deny_list host fs) r
unfolding deny_list
deny_list_complete host fs r h = (
  expand_denies_complete host (or_empty fs.deny_paths) [] r h,
  elim (Option-cases (host.realpath_sync r)) [
    | inl missing ↦ inl missing
    | inr (real, e) ↦ inr (real, e, expand_denies_real host (or_empty fs.deny_paths) [] r real h e)
  ],
)
