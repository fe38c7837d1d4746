-- ===== src/Linux/Grants.antt =====
-- native-linux.ts: which mounts a grant becomes.
use convira_sandbox.Base.{
  true, false, not, ◌&&◌, ◌||◌, List, [], ◌∷◌, ◌++◌, ◌≡◌, refl, inl, inr, arith, if◌then◌else◌,
  Bool-cases, All, All-append, All-map, and_true,
}
use convira_sandbox.Base.Text.{Text, ◌===◌, ===_refl, includes}
use convira_sandbox.Types.{Filesystem}
use convira_sandbox.Host.{Host, exists_sync}
use convira_sandbox.Linux.Mounts.{
  bind, ro_bind, dev_bind, EmittedMount, is_device_node, is_writable_bind,
}
use convira_sandbox.Linux.Spawn.{seen, write_mounts, read_mounts, granted_mounts}

-- What one mount owes to the grants: it shows an existing path under its own name, and is writable
-- only for a write path.
pub record IsGranted (host : Host) (fs : Filesystem) (m : EmittedMount) : Type 0 where
  pub in_place : m.source ≡ m.dest
  pub present : exists_sync host m.dest ≡ true
  pub requested :
      (includes fs.write_paths m.dest
        || (includes fs.read_paths m.dest && not (is_writable_bind m.flag)))
      ≡ true
  pub device : (m.flag ≡ dev_bind) → is_device_node host m.dest ≡ true

IsGranted-read :
    (host : Host) (fs : Filesystem) (p : Text)
    → includes fs.read_paths p ≡ true
    → exists_sync host p ≡ true
    → IsGranted host fs (record { flag = ro_bind; source = p; dest = p })
unfolding is_writable_bind
IsGranted-read host fs p asked there = record {
  in_place = refl;
  present = there;
  requested = ground arith;
  device = λ e. cc;
}

-- No two mounts share their destination.
abbrev pub AreDistinct : List EmittedMount → Type 0
AreDistinct [] = Unit
AreDistinct (m ∷ ms) = (seen ms m.dest ≡ false) × AreDistinct ms

seen-append :
    (ms : List EmittedMount) (m : EmittedMount) (p : Text)
    → seen (ms ++ m ∷ []) p ≡ (seen ms p || m.dest === p)
unfolding seen
seen-append [] m p = ground arith
seen-append (n ∷ ms) m p = ground (arith, seen-append ms m p)

===_comm : (s t : Text) → (s === t) ≡ (t === s)
unfolding ◌===◌
===_comm [] [] = refl
===_comm [] (d ∷ t) = refl
===_comm (c ∷ s) [] = refl
===_comm (c ∷ s) (d ∷ t) = ground (arith, ===_comm s t)

AreDistinct-append :
    (ms : List EmittedMount) (m : EmittedMount)
    → AreDistinct ms
    → seen ms m.dest ≡ false
    → AreDistinct (ms ++ m ∷ [])
unfolding seen
AreDistinct-append [] m h k = (refl, tt)
AreDistinct-append (n ∷ ms) m (fresh, h) k = (
  ground (arith, seen-append ms m n.dest, ===_comm n.dest m.dest),
  AreDistinct-append ms m h (ground arith),
)

-- The state that both loops keep.
abbrev pub Good : Host → Filesystem → List EmittedMount → Type 0
Good host fs ms = All (IsGranted host fs) ms × AreDistinct ms

module _ (host : Host) (fs : Filesystem) where
  Good-push :
      (ms : List EmittedMount) (m : EmittedMount)
      → Good host fs ms
      → IsGranted host fs m
      → seen ms m.dest ≡ false
      → Good host fs (ms ++ m ∷ [])
  Good-push ms m (h, d) g fresh =
      (All-append (IsGranted host fs) ms (m ∷ []) h (g, tt), AreDistinct-append ms m d fresh)

  -- `ps` is what is left of the write paths, all of them requested.
  write_mounts-Good :
      (ps : List Text) (ms : List EmittedMount)
      → All (λ p. includes fs.write_paths p ≡ true) ps
      → Good host fs ms
      → Good host fs (write_mounts host ms ps)
  unfolding write_mounts
  write_mounts-Good [] ms a h = h
  write_mounts-Good (p ∷ ps) ms (asked, a) h =
      elim (Bool-cases (not (seen ms p) && exists_sync host p)) [
        | inl push ↦
            let (fresh, there) = and_true (not (seen ms p)) (exists_sync host p) push in
            rw push (
              write_mounts-Good ps
                (ms
                  ++ record {
                    flag = if is_device_node host p then dev_bind else bind;
                    source = p;
                    dest = p;
                  }
                    ∷ [])
                a
                (Good-push ms
                  (record {
                    flag = if is_device_node host p then dev_bind else bind;
                    source = p;
                    dest = p;
                  })
                  h
                  (record {
                    in_place = refl;
                    present = there;
                    requested = ground arith;
                    device = ground arith;
                  })
                  (ground arith)))
        | inr skip ↦ rw skip (write_mounts-Good ps ms a h)
      ]

  read_mounts-Good :
      (ps : List Text) (ms : List EmittedMount)
      → All (λ p. includes fs.read_paths p ≡ true) ps
      → Good host fs ms
      → Good host fs (read_mounts host ms ps)
  unfolding read_mounts
  read_mounts-Good [] ms a h = h
  read_mounts-Good (p ∷ ps) ms (asked, a) h =
      elim (Bool-cases (not (seen ms p) && exists_sync host p && not (is_device_node host p))) [
        | inl push ↦ rw push (
            read_mounts-Good ps (ms ++ record { flag = ro_bind; source = p; dest = p } ∷ []) a (
              Good-push ms (record { flag = ro_bind; source = p; dest = p }) h
                (IsGranted-read host fs p asked (ground arith)) (ground arith)))
        | inr skip ↦ rw skip (read_mounts-Good ps ms a h)
      ]

includes-All : (ps : List Text) → All (λ p. includes ps p ≡ true) ps
unfolding includes
includes-All [] = tt
includes-All (p ∷ ps) =
    (ground (arith, ===_refl p), All-map (λ q h. ground arith) ps (includes-All ps))

-- Every mount that is granted shows an existing path under its own name, at most once; it is
-- writable only if the path was requested for writing, and a device bind only on a device.
pub granted_mounts-Good : (host : Host) (fs : Filesystem) → Good host fs (granted_mounts host fs)
unfolding granted_mounts
granted_mounts-Good host fs =
    read_mounts-Good host fs fs.read_paths (write_mounts host [] fs.write_paths)
      (includes-All fs.read_paths)
      (write_mounts-Good host fs fs.write_paths [] (includes-All fs.write_paths) (tt, tt))
