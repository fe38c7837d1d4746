-- ===== src/Seccomp/Laws.antt =====
-- seccomp.ts: what the native compiler is given.
use convira_sandbox.Base.{
  ℕ, Bool, true, false, not, ◌&&◌, ◌||◌, some, List, [], ◌∷◌, ◌++◌, ◌≡◌, refl, subst, inl, inr,
  arith, Bool-cases, Option-cases,
}
use convira_sandbox.Base.Text.{
  Text, codes, ◌===◌, ===_refl, includes, includes-append, includes_same,
}
use convira_sandbox.Base.Result.{ok, returned_through}
use convira_sandbox.Seccomp.{
  SyscallEntry, SeccompProfile, SeccompNativeBinding, SeccompHost, get_binding, collect_names,
  distinct, extract_allowed_syscalls, compile_with, compile_seccomp_profile,
}

-- Some entry with the action to allow names the call.
abbrev pub allows : List SyscallEntry → Text → Bool
allows [] s = false
allows (entry ∷ entries) s =
    ((entry.action === codes "SCMP_ACT_ALLOW") && includes entry.names s) || allows entries s

collect_names_lem :
    (entries : List SyscallEntry) (names : List Text) (s : Text)
    → includes (collect_names entries names) s ≡ (includes names s || allows entries s)
unfolding collect_names
collect_names_lem [] names s = ground arith
collect_names_lem (entry ∷ entries) names s =
    elim (Bool-cases (entry.action === codes "SCMP_ACT_ALLOW")) [
      | inl allowed ↦ ground (
        arith,
        collect_names_lem entries (names ++ entry.names) s,
        includes-append names entry.names s,
      )
      | inr other ↦ ground (arith, collect_names_lem entries names s)
    ]

distinct_lem :
    (seen names : List Text) (s : Text)
    → includes (distinct seen names) s ≡ (includes names s && not (includes seen s))
unfolding distinct includes
distinct_lem seen [] s = refl
distinct_lem seen (name ∷ names) s = elim (Bool-cases (name === s)) [
  | inl same ↦ ground (
    arith,
    includes_same seen name s same,
    distinct_lem seen names s,
    distinct_lem (name ∷ seen) names s,
  )
  | inr other ↦ ground (arith, distinct_lem seen names s, distinct_lem (name ∷ seen) names s)
]

-- No name stands twice.
abbrev pub IsDistinct : List Text → Type 0
IsDistinct [] = Unit
IsDistinct (name ∷ names) = (includes names name ≡ false) × IsDistinct names

distinct_known :
    (seen : List Text) (name : Text) (names : List Text)
    → includes seen name ≡ true
    → distinct seen names ≡ distinct seen (name ∷ names)
unfolding distinct
distinct_known seen name names known = ground arith

distinct_fresh :
    (seen : List Text) (name : Text) (names : List Text)
    → includes seen name ≡ false
    → name ∷ distinct (name ∷ seen) names ≡ distinct seen (name ∷ names)
unfolding distinct
distinct_fresh seen name names fresh = ground arith

distinct-IsDistinct : (seen names : List Text) → IsDistinct (distinct seen names)
unfolding distinct includes
distinct-IsDistinct seen [] = tt
distinct-IsDistinct seen (name ∷ names) = elim (Bool-cases (includes seen name)) [
  | inl known ↦
      subst IsDistinct (distinct_known seen name names known) (distinct-IsDistinct seen names)
  | inr fresh ↦ subst IsDistinct (distinct_fresh seen name names fresh) (
    ground (arith, distinct_lem (name ∷ seen) names name, ===_refl name),
    distinct-IsDistinct (name ∷ seen) names,
  )
]

-- The list holds exactly the allowed names, each once.
abbrev pub IsAllowList : SeccompProfile → List Text → Type 0
IsAllowList profile names =
    ((s : Text) → includes names s ≡ allows profile.syscalls s) × IsDistinct names

extract-IsAllowList :
    (profile : SeccompProfile) → IsAllowList profile (extract_allowed_syscalls profile)
unfolding extract_allowed_syscalls includes
extract-IsAllowList profile = (
  λ s. ground (
    arith,
    distinct_lem [] (collect_names profile.syscalls []) s,
    collect_names_lem profile.syscalls [] s,
  ),
  distinct-IsDistinct [] (collect_names profile.syscalls []),
)

-- The profile that the file holds was compiled with its own default action.
abbrev pub IsCompiled : SeccompHost → Text → ℕ → Type 0
IsCompiled host path fd =
    (binding : SeccompNativeBinding) × (raw : Text) × (profile : SeccompProfile) × (names : List
      Text)
    × (get_binding host ≡ some binding)
    × (host.read_file path ≡ ok raw)
    × (host.parse raw ≡ ok profile)
    × IsAllowList profile names
    × (binding.compile_seccomp_to_fd names profile.default_action ≡ ok fd)

compile_with-IsCompiled :
    (host : SeccompHost) (path : Text) (binding : SeccompNativeBinding) (fd : ℕ)
    → get_binding host ≡ some binding
    → compile_with host path binding ≡ ok fd
    → IsCompiled host path fd
unfolding compile_with
compile_with-IsCompiled host path binding fd there h =
    let (raw, read, h1) = returned_through (host.read_file path) _ h in
    let (profile, parsed, h2) = returned_through (host.parse raw) _ h1 in
    (
      binding,
      raw,
      profile,
      extract_allowed_syscalls profile,
      there,
      read,
      parsed,
      extract-IsAllowList profile,
      h2,
    )

-- A file descriptor that compileSeccompProfile returns was made by the native compiler from the
-- default action of the profile in that file and a list that holds exactly the names that an entry of
-- the profile allows, each once.
pub compile_seccomp_profile-IsCompiled :
    (host : SeccompHost) (path : Text) (fd : ℕ)
    → compile_seccomp_profile host path ≡ ok fd
    → IsCompiled host path fd
unfolding compile_seccomp_profile
compile_seccomp_profile-IsCompiled host path fd h = elim (Option-cases (get_binding host)) [
  | inl absent ↦ absurd (ground arith)
  | inr (binding, there) ↦ compile_with-IsCompiled host path binding fd there (ground arith)
]
