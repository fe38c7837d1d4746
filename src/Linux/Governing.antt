-- ===== src/Linux/Governing.antt =====
-- What bubblewrap's arguments mean for a path: operations apply in order, so the last mount whose
-- destination is the path or an ancestor of it is the one that the sandboxed process sees
-- (the comment of `governingMount` in native-linux.ts, and bubblewrap's manual).
use convira_sandbox.Base.{
  Bool, true, false, Option, none, some, List, [], ◌∷◌, ◌++◌, ◌≡◌, refl, inl, inr, arith, any, all,
  if◌then◌else◌, Bool-cases, map,
}
use convira_sandbox.Base.Text.{Text, codes, ◌===◌}
use convira_sandbox.Linux.Mounts.{
  ro_bind, BwrapArg, mount, proc, dev, tmpfs, within, EmittedMount, mount_arg, governing_mount,
}

-- Whether an operation puts a mount over the path.
unfoldable pub covers : Text → BwrapArg → Bool
covers p (mount flag source dest) = within p dest
covers p (proc d) = within p d
covers p (dev d) = within p d
covers p (tmpfs d) = within p d
covers p _ = false

-- The operation that decides what the sandboxed process sees at the path.
unfoldable pub governing : List BwrapArg → Text → Option BwrapArg
governing [] p = none
governing (o ∷ os) p = elim (governing os p) [
  | some later ↦ some later
  | none ↦ if covers p o then some o else none
]

-- An empty tmpfs, or the null device bound read-only: neither shows anything of the host.
unfoldable pub is_mask : BwrapArg → Bool
is_mask (tmpfs d) = true
is_mask (mount ro_bind source dest) = source === codes "/dev/null"
is_mask _ = false

-- The path is seen through a mask.
abbrev pub IsMasked : Option BwrapArg → Type 0
IsMasked none = ⊥
IsMasked (some o) = is_mask o ≡ true

pub governing-append_some :
    (xs ys : List BwrapArg) (p : Text) {o : BwrapArg}
    → governing ys p ≡ some o
    → governing (xs ++ ys) p ≡ some o
unfolding governing
governing-append_some [] ys p h = h
governing-append_some (x ∷ xs) ys p h = rw (governing-append_some xs ys p h, governing)

pub governing-append_none :
    (xs ys : List BwrapArg) (p : Text)
    → any (covers p) ys ≡ false
    → governing (xs ++ ys) p ≡ governing xs p
unfolding governing
governing-append_none [] [] p h = refl
governing-append_none [] (y ∷ ys) p h = ground (arith, governing-append_none [] ys p)
governing-append_none (x ∷ xs) ys p h = ground (arith, governing-append_none xs ys p h)

-- If every operation of a list is a mask and one of them covers the path, the list masks it.
pub masks_govern :
    (os : List BwrapArg) (p : Text)
    → all is_mask os ≡ true
    → any (covers p) os ≡ true
    → (o : BwrapArg) × (governing os p ≡ some o) × (is_mask o ≡ true)
unfolding governing
masks_govern [] p h k = absurd (cc)
masks_govern (o ∷ os) p h k = elim (Bool-cases (any (covers p) os)) [
  | inl later ↦
      let (m, found, masked) = masks_govern os p (ground arith) later in (m, ground arith, masked)
  | inr last ↦ (o, ground (arith, governing-append_none [] os p last), ground arith)
]

abbrev pub map_mount : Option EmittedMount → Option BwrapArg
map_mount none = none
map_mount (some m) = some (mount_arg m)

-- The governing mount of the adapter is the governing operation of the mounts that it emitted.
pub governing-mount_arg :
    (emitted : List EmittedMount) (p : Text)
    → governing (map mount_arg emitted) p ≡ map_mount (governing_mount emitted p)
unfolding governing governing_mount covers
governing-mount_arg [] p = refl
governing-mount_arg (m ∷ emitted) p = ground (arith, governing-mount_arg emitted p)
